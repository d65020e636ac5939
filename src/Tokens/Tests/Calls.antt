-- ===== src/Tokens/Tests/Calls.antt =====
-- Concrete runs: slashing reserves, imbalances, reducible balances, `set_balance`, genesis, and dust.
use mathlib.Core.Option
use open_runtime_module_libr.Tokens.Account.{
  handle_dust, report_endowed, track_existence, dust_of, kept, settle, mutate_account,
}
use open_runtime_module_libr.Tokens.Safety.Reducible.{
  do_withdraw-KeepsAlive, KeepsAlive, reducible_balance-preserve,
}
use open_runtime_module_libr.Tokens.Books.SetBalance.{set_balance-IsBacked}
use open_runtime_module_libr.Tokens.Imbalances.{drop_positive}
use open_runtime_module_libr.Tokens.Reserves.{slash_reserved}
use open_runtime_module_libr.Tokens.Books.Genesis.{build_genesis-IsBacked}
use open_runtime_module_libr.Tokens.Books.{IsBacked}
use open_runtime_module_libr.Tokens.Tests.{books-IsBacked, books, quiet, runtime}
use open_runtime_module_libr.Tokens.Types.{ExistenceRequirement, Event, ok, State}
use open_runtime_module_libr.Tokens.Transfer.{do_withdraw}
use open_runtime_module_libr.Tokens.Books.SlashReserved.{
  slash_reserved-HasSlashedReserved, HasSlashedReserved,
}
use open_runtime_module_libr.Tokens.Books.Imbalances.{
  deposit_creating-IsBacked, withdraw-SquaresDown, SquaresDown,
}
use open_runtime_module_libr.Tokens.Calls.{endow, endow_all, is_endowed, are_unique, build_genesis}
use open_runtime_module_libr.Tokens.Fungibles.{Preservation, reducible_balance}
use open_runtime_module_libr.Prelude.{true, ◌≡◌, some, List, ℕ, arith, refl, [], ◌∷◌}
use open_runtime_module_libr.Tokens.Adapter
use open_runtime_module_libr.Tokens.Calls

slash_reserved-HasSlashedReserved_example :
    HasSlashedReserved runtime quiet 7 7 1 15 books (slash_reserved runtime 7 1 15 books)
slash_reserved-HasSlashedReserved_example =
    slash_reserved-HasSlashedReserved runtime quiet 7 7 1 15 books books-IsBacked

withdraw-SquaresDown_example :
    SquaresDown runtime 7 books
      (Adapter.withdraw runtime 7 1 30 ExistenceRequirement.keep_alive books)
withdraw-SquaresDown_example =
    withdraw-SquaresDown runtime quiet 7 1 30 ExistenceRequirement.keep_alive books books-IsBacked

deposit_creating-IsBacked_example :
    let (imbalance, s') = Adapter.deposit_creating runtime 7 3 10 books in
    IsBacked runtime 7 (drop_positive 1000 7 imbalance s')
deposit_creating-IsBacked_example =
    deposit_creating-IsBacked runtime quiet 7 3 10 books books-IsBacked refl

do_withdraw-KeepsAlive_example :
    KeepsAlive runtime quiet 7 2 25 books
      (do_withdraw runtime 7 2 25 ExistenceRequirement.keep_alive true books)
do_withdraw-KeepsAlive_example =
    do_withdraw-KeepsAlive runtime quiet 7 2 25 true books refl (omega arith)

-- Account 2 can spend all of its 30 under `Preserve`, and 25 under `Protect`.
reducible_2 :
    (reducible_balance runtime 7 2 Preservation.preserve books ≡ 30)
    × (reducible_balance runtime 7 2 Preservation.protect books ≡ 25)
unfolding reducible_balance
reducible_2 = (refl, refl)

reducible_balance-preserve_example :
    reducible_balance runtime 7 2 Preservation.preserve books
    ≡ reducible_balance runtime 7 2 Preservation.expendable books
reducible_balance-preserve_example = reducible_balance-preserve runtime 7 2 books

-- The root sets account 1 to 90 free and 5 reserved.
set_balance-IsBacked_example :
    IsBacked runtime 7
      (Calls.set_balance runtime
        (λ (who : ℕ). ok who)
        (λ (who : ℕ). ok tt)
        (λ (who : ℕ). ok who)
        0
        1
        7
        90
        5
        books).1
set_balance-IsBacked_example =
    set_balance-IsBacked runtime quiet (λ (who : ℕ). ok who) (λ (who : ℕ). ok tt)
      (λ (who : ℕ). ok who) 0 1 7 90 5 books books-IsBacked

abbrev empty : State Unit
empty = record {
  total_issuance = [];
  locks = [];
  accounts = [];
  reserves = [];
  events = [];
  system = tt;
}

abbrev endowments : List (ℕ × ℕ × ℕ)
endowments = (1, 7, 50) ∷ (2, 7, 20) ∷ []

abbrev genesis : State Unit
genesis = record {
  total_issuance = (7, some 70) ∷ [];
  locks = [];
  accounts =
      ((1, 7), some (record { free = 50; reserved = 0; frozen = 0 }))
      ∷ ((2, 7), some (record { free = 20; reserved = 0; frozen = 0 }))
      ∷ [];
  reserves = [];
  events = Event.endowed 7 2 20 ∷ Event.endowed 7 1 50 ∷ [];
  system = tt;
}

genesis_built : build_genesis runtime endowments empty ≡ some genesis
unfolding build_genesis are_unique is_endowed endow_all endow mutate_account settle kept dust_of
    track_existence report_endowed handle_dust Option.bind
genesis_built = refl

build_genesis-IsBacked_example : IsBacked runtime 7 genesis
build_genesis-IsBacked_example =
    build_genesis-IsBacked runtime quiet 7 endowments empty genesis refl refl genesis_built
