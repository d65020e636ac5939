-- ===== src/Tokens/Tests.antt =====
-- Concrete runs of the tokens pallet: a runtime without hooks, two currencies and three accounts.
mod Calls
mod Locks
mod Inspect
use open_runtime_module_libr.Tokens.Books.Transfer.{do_transfer-SameTotals}
use open_runtime_module_libr.Tokens.Monad.{pure}
use open_runtime_module_libr.Tokens.Reserves.{repatriate_reserved, unreserve, reserve}
use open_runtime_module_libr.Tokens.Currency.{slash}
use open_runtime_module_libr.Tokens.Account.{ensure_can_withdraw, try_mutate_account, accounts}
use open_runtime_module_libr.Storage.Sum.{total_of}
use open_runtime_module_libr.Tokens.Transfer.{
  would_be_dead, move_free, do_deposit, do_withdraw, move_between, do_transfer,
}
use open_runtime_module_libr.Tokens.Safety.Transfer.{
  do_transfer-IsAlive, do_transfer-frozen_le, do_transfer-HasMoved, HasMoved, IsAlive,
}
use open_runtime_module_libr.Tokens.Books.Unreserve.{unreserve-HasUnreserved, HasUnreserved}
use open_runtime_module_libr.Tokens.Books.Repatriate.{
  repatriate_reserved-HasRepatriated, HasRepatriated,
}
use open_runtime_module_libr.Tokens.Books.{IsBacked, SameBooks-refl, SameTotals, HasQuietHooks}
use open_runtime_module_libr.Tokens.Books.Deposit.{do_deposit-Rises, Rises}
use open_runtime_module_libr.Tokens.Books.Supply.{do_withdraw-Falls, Falls}
use open_runtime_module_libr.Tokens.Books.Reserves.{reserve-Reserves, Reserves}
use open_runtime_module_libr.Tokens.Types.{ok, BalanceStatus, ExistenceRequirement, Config, State}
use open_runtime_module_libr.Tokens.Books.Slash.{slash-HasSlashed, HasSlashed}
use open_runtime_module_libr.Prelude.{
  ◌≡◌, ◌≡◌, [], false, refl, ◌∷◌, ◌∷◌, ◌==◌, ◌≤◌, ◌==◌, ◌≤◌, some, true, arith,
}

abbrev pub runtime : Config Unit
runtime = record {
  max_value = 1000;
  existential_deposits = λ c. 5;
  max_locks = 2;
  max_reserves = 2;
  dust_removal_whitelist = λ who. who == 9;
  can_dec_provider = λ who sys. true;
  inc_providers = λ who sys. sys;
  dec_providers = λ who sys. sys;
  inc_consumers = λ who sys. sys;
  dec_consumers = λ who sys. sys;
  on_dust = λ who c amount s. s;
  on_slash = λ c who amount s. s;
  pre_deposit = λ c who amount. pure tt;
  post_deposit = λ c who amount. pure tt;
  pre_transfer = λ c from to amount. pure tt;
  post_transfer = λ c from to amount. pure tt;
  on_new_token_account = λ who c s. s;
  on_killed_token_account = λ who c s. s;
}

pub quiet : HasQuietHooks runtime
quiet = record {
  max_value_pos = omega arith;
  on_dust = λ who c a s. SameBooks-refl s;
  on_slash = λ c who a s. SameBooks-refl s;
  pre_deposit = λ c who a s. SameBooks-refl s;
  post_deposit = λ c who a s. SameBooks-refl s;
  pre_transfer = λ c from to a s. SameBooks-refl s;
  post_transfer = λ c from to a s. SameBooks-refl s;
  on_new = λ who c s. SameBooks-refl s;
  on_killed = λ who c s. SameBooks-refl s;
}

-- Account 1 holds 60 free and 10 reserved of currency 7, with 20 frozen; account 2 holds 30 free.
abbrev pub books : State Unit
books = record {
  total_issuance = (7, some 100) ∷ [];
  locks = [];
  accounts =
      ((1, 7), some (record { free = 60; reserved = 10; frozen = 20 }))
      ∷ ((2, 7), some (record { free = 30; reserved = 0; frozen = 0 }))
      ∷ [];
  reserves = [];
  events = [];
  system = tt;
}

pub books-IsBacked : IsBacked runtime 7 books
unfolding total_of
books-IsBacked = record { backed = refl; bounded = omega arith }

-- Account 1 pays 25 to account 2.
paid : (do_transfer runtime 7 1 2 25 ExistenceRequirement.keep_alive books).0 ≡ ok tt
unfolding do_transfer move_between try_mutate_account move_free ensure_can_withdraw would_be_dead
paid = refl

do_transfer-HasMoved_example :
    HasMoved runtime quiet 7 1 2 25 books
      (do_transfer runtime 7 1 2 25 ExistenceRequirement.keep_alive books).1
do_transfer-HasMoved_example =
    do_transfer-HasMoved runtime quiet 7 1 2 25 ExistenceRequirement.keep_alive books refl paid

do_transfer-frozen_le_example :
    (accounts 1 7 books).frozen
    ≤ (accounts 1 7 (do_transfer runtime 7 1 2 25 ExistenceRequirement.keep_alive books).1).free
do_transfer-frozen_le_example =
    do_transfer-frozen_le runtime quiet 7 1 2 25 ExistenceRequirement.keep_alive books refl paid

do_transfer-IsAlive_example :
    IsAlive runtime quiet 7 1 (do_transfer runtime 7 1 2 25 ExistenceRequirement.keep_alive books).1
do_transfer-IsAlive_example = do_transfer-IsAlive runtime quiet 7 1 2 25 books refl paid

do_transfer-SameTotals_example :
    SameTotals 7 (do_transfer runtime 7 1 2 25 ExistenceRequirement.allow_death books).1 books
do_transfer-SameTotals_example =
    do_transfer-SameTotals runtime quiet 7 7 1 2 25 ExistenceRequirement.allow_death books

do_withdraw-Falls_example :
    Falls runtime quiet 7 7 1 40 true books
      (do_withdraw runtime 7 1 40 ExistenceRequirement.allow_death true books)
do_withdraw-Falls_example =
    do_withdraw-Falls runtime quiet 7 7 1 40 ExistenceRequirement.allow_death true books
      books-IsBacked

do_deposit-Rises_example :
    Rises runtime quiet 7 7 3 15 false true books (do_deposit runtime 7 3 15 false true books)
do_deposit-Rises_example = do_deposit-Rises runtime quiet 7 7 3 15 false true books books-IsBacked

reserve-Reserves_example : Reserves runtime quiet 7 7 1 30 books (reserve runtime 7 1 30 books)
reserve-Reserves_example = reserve-Reserves runtime quiet 7 7 1 30 books books-IsBacked

unreserve-HasUnreserved_example :
    HasUnreserved runtime quiet 7 7 1 25 books (unreserve runtime 7 1 25 books)
unreserve-HasUnreserved_example =
    unreserve-HasUnreserved runtime quiet 7 7 1 25 books books-IsBacked

repatriate_reserved-HasRepatriated_example :
    HasRepatriated runtime quiet 7 7 1 2 4 BalanceStatus.free books
      (repatriate_reserved runtime 7 1 2 4 BalanceStatus.free books)
repatriate_reserved-HasRepatriated_example =
    repatriate_reserved-HasRepatriated runtime quiet 7 7 1 2 4 BalanceStatus.free books
      books-IsBacked (omega arith)

slash-HasSlashed_example : HasSlashed runtime quiet 7 7 1 65 books (slash runtime 7 1 65 books)
slash-HasSlashed_example = slash-HasSlashed runtime quiet 7 7 1 65 books books-IsBacked
