-- ===== src/Tokens/Hold.antt =====
-- Holds of the tokens pallet (tokens/src/lib.rs): `fungibles::InspectHold`, `MutateHold` and
-- `UnbalancedHold`, whose one reason is `()`.
use open_runtime_module_libr.Numeric.{checked_sub, saturating_sub, saturating_add, checked_add}
use open_runtime_module_libr.Tokens.Reserves.{repatriate_reserved, reserve}
use open_runtime_module_libr.Tokens.Account.{accounts, try_mutate_account}
use open_runtime_module_libr.Tokens.Types.{
  Event, ok, DispatchError, Action, State, Config, BalanceStatus,
}
use open_runtime_module_libr.Prelude.{
  some, none, ℕ, Bool, false, ◌||◌, if◌then◌else◌, is_zero, leb, max, min, ◌==◌,
}
use open_runtime_module_libr.Tokens.Monad.{
  deposit_event, modify, or_fail, ensure, pure, gets, ◌>>=◌, ◌>>◌,
}
use open_runtime_module_libr.Tokens.Fungibles.{Precision, is_best_effort}

pub data Restriction : Type 0 where
  free on_hold : Restriction

-- The status for `repatriate_reserved` that a restriction asks for.
abbrev status_of : Restriction → BalanceStatus
status_of Restriction.free = BalanceStatus.free
status_of Restriction.on_hold = BalanceStatus.reserved

module _ {Sys : Type 0} (cfg : Config Sys) where
  -- `InspectHold::balance_on_hold` and `total_balance_on_hold`
  unfoldable balance_on_hold : ℕ → ℕ → State Sys → ℕ
  balance_on_hold asset_id who s = (accounts who asset_id s).reserved

  -- `InspectHold::can_hold`
  unfoldable pub can_hold : ℕ → ℕ → ℕ → State Sys → Bool
  can_hold asset_id who amount s =
      let a = accounts who asset_id s in
      let min_balance = max (cfg.existential_deposits asset_id) a.frozen in
      elim (checked_add cfg.max_value a.reserved amount) [
        | none ↦ false
        | some _ ↦ elim (checked_add cfg.max_value min_balance amount) [
          | none ↦ false
          | some required_free ↦ leb required_free a.free
        ]
      ]

  -- `MutateHold::hold`
  unfoldable pub hold : ℕ → ℕ → ℕ → Action Sys (Unit {0})
  hold asset_id who amount = reserve cfg asset_id who amount

  -- `MutateHold::release`: the amount released
  unfoldable release : ℕ → ℕ → ℕ → Precision → Action Sys ℕ
  release asset_id who amount precision = if is_zero amount then pure amount else do
    released ← try_mutate_account cfg who asset_id λ a _. do
      let new_free = saturating_add cfg.max_value a.free (min amount a.reserved)
      let actual = saturating_sub new_free a.free
      ensure (is_best_effort precision || actual == amount) DispatchError.balance_too_low
      modify (deposit_event (Event.unreserved asset_id who amount))
      pure (actual, record a { free = new_free; reserved = saturating_sub a.reserved actual })
    pure released.0

  -- `MutateHold::transfer_on_hold`: the amount moved
  unfoldable transfer_on_hold :
      (asset_id source dest amount : ℕ) → Precision → Restriction → Action Sys ℕ
  transfer_on_hold asset_id source dest amount precision restriction = do
    held ← gets (balance_on_hold asset_id source)
    ensure (leb amount held || is_best_effort precision) DispatchError.balance_too_low
    gap ← λ s.
        let (gap, s1) =
          repatriate_reserved cfg asset_id source dest amount (status_of restriction) s in
        (ok gap, s1)
    pure (saturating_sub amount gap)

  -- `UnbalancedHold::set_balance_on_hold`
  unfoldable set_balance_on_hold : ℕ → ℕ → ℕ → Action Sys (Unit {0})
  set_balance_on_hold asset who amount = do
    try_mutate_account cfg who asset λ account _. do
      whole ←
          or_fail (checked_add cfg.max_value account.free account.reserved) DispatchError.overflow
      new_free ← or_fail (checked_sub whole amount) DispatchError.below_minimum
      modify (deposit_event (Event.balance_set asset who new_free amount))
      pure (tt, record account { free = new_free; reserved = amount })
    pure tt
