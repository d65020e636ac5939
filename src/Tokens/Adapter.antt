-- ===== src/Tokens/Adapter.antt =====
-- `CurrencyAdapter` of the tokens pallet (tokens/src/lib.rs): the pallet seen as the one currency
-- `currency_id`, with the imbalances that its calls return.
use open_runtime_module_libr.Numeric.{saturating_add, saturating_sub}
use open_runtime_module_libr.Tokens.Account.{
  set_reserved_balance, set_free_balance, set_total_issuance_value, accounts, total_issuance,
  try_mutate_account,
}
use open_runtime_module_libr.Tokens.Transfer.{do_deposit, do_withdraw}
use open_runtime_module_libr.Tokens.Types.{
  Event, DispatchError, err, ok, State, ExistenceRequirement, Action, AccountData, Config,
}
use open_runtime_module_libr.Prelude.{
  ◌+◌, true, false, ◌+◌, ℕ, Bool, ◌||◌, if◌then◌else◌, is_zero, leb, min,
}
use open_runtime_module_libr.Tokens.Monad.{modify, deposit_event, pure, ensure, ◌>>◌}
use open_runtime_module_libr.Tokens.Locks
use open_runtime_module_libr.Tokens.Reserves
use open_runtime_module_libr.Tokens.Imbalances.{
  PositiveImbalance, NegativeImbalance, positive, negative,
}

pub data SignedImbalance : Type 0 where
  gain : PositiveImbalance → SignedImbalance
  loss : NegativeImbalance → SignedImbalance

module _ {Sys : Type 0} (cfg : Config Sys) (currency_id : ℕ) where
  -- `burn`: up to the total issuance
  unfoldable pub burn : ℕ → State Sys → PositiveImbalance × State Sys
  burn amount s =
      if is_zero amount
      then (positive 0, s)
      else (let issued = total_issuance currency_id s in
          let burnt = if leb amount issued then amount else issued in
          let s1 = set_total_issuance_value currency_id (saturating_sub issued burnt) s in
          (
            positive burnt,
            deposit_event (Event.total_issuance_set currency_id (total_issuance currency_id s1)) s1,
          ))

  -- `issue`: up to the greatest balance
  unfoldable pub issue : ℕ → State Sys → NegativeImbalance × State Sys
  issue amount s =
      if is_zero amount
      then (negative 0, s)
      else (let issued = total_issuance currency_id s in
          let made =
            if leb (issued + amount) cfg.max_value
            then amount
            else saturating_sub cfg.max_value issued in
          let after =
            if leb (issued + amount) cfg.max_value then issued + amount else cfg.max_value in
          let s1 = set_total_issuance_value currency_id after s in
          (
            negative made,
            deposit_event (Event.total_issuance_set currency_id (total_issuance currency_id s1)) s1,
          ))

  -- The writes of `slash`; `account` is read once, before them.
  unfoldable pub slash_account :
      ℕ → ℕ → AccountData → State Sys → (NegativeImbalance × ℕ) × State Sys
  slash_account who value account s =
      let free_slashed_amount = min account.free value in
      let remaining_slash = saturating_sub value free_slashed_amount in
      let s1 =
        if is_zero free_slashed_amount
        then s
        else set_free_balance cfg currency_id who (saturating_sub account.free free_slashed_amount)
            s in
      let reserved_slashed_amount = min account.reserved remaining_slash in
      if is_zero remaining_slash
      then (
        (negative value, remaining_slash),
        deposit_event (Event.slashed currency_id who value 0) s1,
      )
      else (
        (
          negative (saturating_add cfg.max_value free_slashed_amount reserved_slashed_amount),
          saturating_sub remaining_slash reserved_slashed_amount,
        ),
        deposit_event (Event.slashed currency_id who free_slashed_amount reserved_slashed_amount) (
            set_reserved_balance cfg currency_id who
              (saturating_sub account.reserved reserved_slashed_amount) s1),
      )

  -- `slash`: what was slashed, and what could not be
  unfoldable pub slash : ℕ → ℕ → State Sys → (NegativeImbalance × ℕ) × State Sys
  slash who value s =
      if is_zero value
      then ((negative 0, value), s)
      else slash_account who value (accounts who currency_id s) s

  -- `deposit_into_existing`
  unfoldable pub deposit_into_existing : ℕ → ℕ → Action Sys PositiveImbalance
  deposit_into_existing who value =
      do_deposit cfg currency_id who value true false >> pure (positive value)

  -- `deposit_creating`: nothing is deposited on a failure.
  unfoldable pub deposit_creating : ℕ → ℕ → State Sys → PositiveImbalance × State Sys
  deposit_creating who value s =
      let (r, s1) = do_deposit cfg currency_id who value false false s in
      (elim r [ ok _ ↦ positive value | err _ ↦ positive 0 ], s1)

  -- `withdraw`
  unfoldable pub withdraw : ℕ → ℕ → ExistenceRequirement → Action Sys NegativeImbalance
  withdraw who value liveness =
      do_withdraw cfg currency_id who value liveness false >> pure (negative value)

  -- The closure of `make_free_balance_be`. Its error carries nothing and is never seen.
  unfoldable pub set_free : ℕ → ℕ → AccountData → Bool → Action Sys (SignedImbalance × AccountData)
  set_free who value account existed = do
    ensure
        (leb (cfg.existential_deposits currency_id)
            (saturating_add cfg.max_value value account.reserved)
          || existed)
        DispatchError.existential_deposit
    modify (deposit_event (Event.balance_set currency_id who value account.reserved))
    pure (
      if leb account.free value
          then gain (positive (saturating_sub value account.free))
          else loss (negative (saturating_sub account.free value)),
      record account { free = value },
    )

  -- `make_free_balance_be`
  unfoldable pub make_free_balance_be : ℕ → ℕ → State Sys → SignedImbalance × State Sys
  make_free_balance_be who value s =
      let (r, s1) = try_mutate_account cfg who currency_id (set_free who value) s in
      (elim r [ ok (imbalance, _) ↦ imbalance | err _ ↦ gain (positive 0) ], s1)

  -- `PalletReservableCurrency::slash_reserved`: the pallet has changed the total issuance already.
  unfoldable pub slash_reserved : ℕ → ℕ → State Sys → (NegativeImbalance × ℕ) × State Sys
  slash_reserved who value s =
      let (remaining, s1) = Reserves.slash_reserved cfg currency_id who value s in
      ((negative 0, remaining), s1)

  -- `PalletLockableCurrency::set_lock` and `extend_lock`, which ignore a failure
  unfoldable pub set_lock : (lock_id who amount : ℕ) → State Sys → State Sys
  set_lock lock_id who amount s = (Locks.set_lock cfg lock_id currency_id who amount s).1

  unfoldable pub extend_lock : (lock_id who amount : ℕ) → State Sys → State Sys
  extend_lock lock_id who amount s = (Locks.extend_lock cfg lock_id currency_id who amount s).1

  unfoldable pub remove_lock : (lock_id who : ℕ) → State Sys → State Sys
  remove_lock lock_id who s = (Locks.remove_lock cfg lock_id currency_id who s).1
