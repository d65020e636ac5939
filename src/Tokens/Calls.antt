-- ===== src/Tokens/Calls.antt =====
-- The dispatchable calls of the tokens pallet, its genesis, and `TransferAll` (tokens/src/lib.rs). The
-- checks of an origin and the lookup of an address are code of `frame_system`, parameters here, and a
-- call that fails is rolled back by its dispatcher.
use open_runtime_module_libr.Tokens.Fungibles.{reducible_balance, Preservation}
use open_runtime_module_libr.Tokens.Transfer.{do_transfer}
use open_runtime_module_libr.Tokens.Account.{
  set_total_issuance_value, mutate_account, try_mutate_account, total_issuance,
}
use open_runtime_module_libr.Numeric.{checked_sub, saturating_sub, checked_add}
use open_runtime_module_libr.Tokens.Types.{
  Event, ExistenceRequirement, total, DispatchError, err, AccountData, Result, ok, State, Config,
  Action,
}
use open_runtime_module_libr.Prelude.{
  none, ◌||◌, ◌||◌, some, ◌&&◌, ◌&&◌, Option, not, ◌==◌, ◌==◌, ℕ, Bool, true, false, if◌then◌else◌,
  ltb, leb, List, [], ◌∷◌,
}
use open_runtime_module_libr.Tokens.Monad.{
  deposit_event, modify, gets, pure, reading, or_fail, ◌>>=◌, ◌>>◌,
}
use open_runtime_module_libr.Tokens.Fungibles
use mathlib.Core.Option

-- A dispatched call: on an error the storage is what it was before.
abbrev pub dispatched : {Sys A : Type 0} → Action Sys A → Action Sys A
dispatched m s = let (r, s') = m s in elim r [ ok a ↦ (ok a, s') | err e ↦ (err e, s) ]

module _ {Sys : Type 0} (cfg : Config Sys) where
  -- The change of the total issuance in `set_balance`.
  unfoldable pub adjust_issuance : (currency_id old_total new_total : ℕ) → Action Sys (Unit {0})
  adjust_issuance currency_id old_total new_total s =
      if ltb old_total new_total
      then (do
        t ←
            or_fail
              (checked_add cfg.max_value (total_issuance currency_id s)
                (saturating_sub new_total old_total))
              DispatchError.overflow
        modify (set_total_issuance_value currency_id t))
          s
      else if ltb new_total old_total
      then (do
        t ←
            or_fail
              (checked_sub (total_issuance currency_id s) (saturating_sub old_total new_total))
              DispatchError.underflow
        modify (set_total_issuance_value currency_id t))
          s
      else (ok tt, s)

  -- The closure of `set_balance`: the new total issuance is checked, and the account is set; a total below
  -- the existential deposit becomes zero.
  unfoldable pub set_account :
      (currency_id who new_free new_reserved : ℕ)
      → AccountData
      → Action Sys (Unit {0} × AccountData)
  set_account currency_id who new_free new_reserved account = do
    sum ← or_fail (checked_add cfg.max_value new_free new_reserved) DispatchError.overflow
    let dies = ltb sum (cfg.existential_deposits currency_id)
    let new_total = if dies then 0 else sum
    let free = if dies then 0 else new_free
    let reserved = if dies then 0 else new_reserved
    adjust_issuance currency_id (total cfg.max_value account) new_total
    modify (deposit_event (Event.balance_set currency_id who free reserved))
    pure (tt, record account { free = free; reserved = reserved })

  -- `do_transfer` of each currency of an account in turn, as `TransferAll::transfer_all` makes it over
  -- the entries of the account in the order of the storage iterator. The entries are read before the
  -- first transfer, where the iterator of the source reads each one when it is reached.
  unfoldable transfer_each : (source dest : ℕ) → List (ℕ × AccountData) → Action Sys (Unit {0})
  transfer_each source dest [] = pure tt
  transfer_each source dest ((currency_id, account) ∷ entries) =
      do_transfer cfg currency_id source dest account.free ExistenceRequirement.allow_death
      >> transfer_each source dest entries

  -- `TransferAll::transfer_all`, which is `#[transactional]`
  unfoldable transfer_all_currencies :
      (State Sys → List (ℕ × AccountData)) → (source dest : ℕ) → Action Sys (Unit {0})
  transfer_all_currencies iter_prefix source dest =
      dispatched λ s. transfer_each source dest (iter_prefix s) s

module _ {Sys Origin Source : Type 0} (cfg : Config Sys) (ensure_signed : Origin → Result ℕ)
    (ensure_root : Origin → Result (Unit {0})) (lookup : Source → Result ℕ) where
  -- Call 0, `transfer`
  unfoldable pub transfer : Origin → Source → (currency_id amount : ℕ) → Action Sys (Unit {0})
  transfer origin dest currency_id amount = dispatched do
    from ← reading (λ _. ensure_signed origin)
    to ← reading (λ _. lookup dest)
    do_transfer cfg currency_id from to amount ExistenceRequirement.allow_death

  -- Call 1, `transfer_all`
  unfoldable transfer_all :
      Origin → Source → (currency_id : ℕ) → (keep_alive : Bool) → Action Sys (Unit {0})
  transfer_all origin dest currency_id keep_alive = dispatched do
    from ← reading (λ _. ensure_signed origin)
    to ← reading (λ _. lookup dest)
    let preservation = if keep_alive then Preservation.protect else Preservation.expendable
    reducible ← gets (reducible_balance cfg currency_id from preservation)
    Fungibles.transfer cfg currency_id from to reducible preservation
    pure tt

  -- Call 2, `transfer_keep_alive`
  unfoldable transfer_keep_alive :
      Origin → Source → (currency_id amount : ℕ) → Action Sys (Unit {0})
  transfer_keep_alive origin dest currency_id amount = dispatched do
    from ← reading (λ _. ensure_signed origin)
    to ← reading (λ _. lookup dest)
    do_transfer cfg currency_id from to amount ExistenceRequirement.keep_alive

  -- Call 3, `force_transfer`
  unfoldable force_transfer :
      Origin → (source dest : Source) → (currency_id amount : ℕ) → Action Sys (Unit {0})
  force_transfer origin source dest currency_id amount = dispatched do
    reading (λ _. ensure_root origin)
    from ← reading (λ _. lookup source)
    to ← reading (λ _. lookup dest)
    do_transfer cfg currency_id from to amount ExistenceRequirement.allow_death

  -- Call 4, `set_balance`
  unfoldable pub set_balance :
      Origin → Source → (currency_id new_free new_reserved : ℕ) → Action Sys (Unit {0})
  set_balance origin who currency_id new_free new_reserved = dispatched do
    reading (λ _. ensure_root origin)
    account_id ← reading (λ _. lookup who)
    try_mutate_account cfg account_id currency_id
        λ account _. set_account cfg currency_id account_id new_free new_reserved account
    pure tt

module _ {Sys : Type 0} (cfg : Config Sys) where
  -- `GenesisConfig::build` for one endowment: `none` where an assertion stops the build.
  unfoldable pub endow : (who currency_id initial_balance : ℕ) → State Sys → Option (State Sys)
  endow who currency_id initial_balance s =
      if leb (cfg.existential_deposits currency_id) initial_balance
      then (let s1 =
            (mutate_account cfg who currency_id
              (λ account _ s'. ((tt, record account { free = initial_balance }), s')) s).1 in
          Option.map (λ t. set_total_issuance_value currency_id t s1)
            (checked_add cfg.max_value (total_issuance currency_id s1) initial_balance))
      else none

  -- No account is endowed twice in a currency.
  unfoldable pub is_endowed : (who currency_id : ℕ) → List (ℕ × ℕ × ℕ) → Bool
  is_endowed who currency_id [] = false
  is_endowed who currency_id ((w, c, _) ∷ balances) =
      (w == who && c == currency_id) || is_endowed who currency_id balances

  unfoldable pub are_unique : List (ℕ × ℕ × ℕ) → Bool
  are_unique [] = true
  are_unique ((who, currency_id, _) ∷ balances) =
      not (is_endowed who currency_id balances) && are_unique balances

  unfoldable pub endow_all : List (ℕ × ℕ × ℕ) → State Sys → Option (State Sys)
  endow_all [] s = some s
  endow_all ((who, currency_id, initial_balance) ∷ balances) s =
      Option.bind (endow who currency_id initial_balance s) (endow_all balances)

  -- `GenesisConfig::build`
  unfoldable pub build_genesis : List (ℕ × ℕ × ℕ) → State Sys → Option (State Sys)
  build_genesis balances s = if are_unique balances then endow_all balances s else none
