-- ===== src/Tokens/Types.antt =====
-- Data of the tokens pallet (tokens/src/lib.rs): accounts, locks, named reserves, errors, events,
-- storage, and what the runtime configures. Account, currency, lock and reserve identifiers are only
-- compared, so they are numbers. `Sys` is the state of `frame_system`, which the pallet reaches
-- through the operations of `Config` alone.
use open_runtime_module_libr.Prelude.{ℕ, Bool, List}
use open_runtime_module_libr.Numeric.{saturating_add}
use open_runtime_module_libr.Storage.{Map}

pub record BalanceLock : Type 0 where
  pub id : ℕ
  pub amount : ℕ

pub record ReserveData : Type 0 where
  pub id : ℕ
  pub amount : ℕ

pub record AccountData : Type 0 where
  pub free : ℕ
  pub reserved : ℕ
  pub frozen : ℕ

abbrev pub default_account : AccountData
default_account = record { free = 0; reserved = 0; frozen = 0 }

-- `AccountData::total`
abbrev pub total : ℕ → AccountData → ℕ
total max_value a = saturating_add max_value a.free a.reserved

-- The errors of the pallet, those of `sp_runtime` that it returns, and any other (`foreign`), which
-- only a hook, an origin check or a lookup returns.
pub data DispatchError : Type 0 where
  balance_too_low amount_into_balance_failed liquidity_restrictions max_locks_exceeded :
      DispatchError
  keep_alive existential_deposit dead_account too_many_reserves : DispatchError
  overflow underflow funds_unavailable below_minimum : DispatchError
  foreign : ℕ → DispatchError

pub data Result (A : Type 0) : Type 0 where
  ok : A → Result A
  err : DispatchError → Result A

pub data ExistenceRequirement : Type 0 where
  keep_alive allow_death : ExistenceRequirement

pub data BalanceStatus : Type 0 where
  free reserved : BalanceStatus

pub data Event : Type 0 where
  endowed : (currency_id who amount : ℕ) → Event
  dust_lost : (currency_id who amount : ℕ) → Event
  transfer : (currency_id from to amount : ℕ) → Event
  reserved : (currency_id who amount : ℕ) → Event
  unreserved : (currency_id who amount : ℕ) → Event
  reserve_repatriated : (currency_id from to amount : ℕ) → BalanceStatus → Event
  balance_set : (currency_id who free reserved : ℕ) → Event
  total_issuance_set : (currency_id amount : ℕ) → Event
  withdrawn : (currency_id who amount : ℕ) → Event
  slashed : (currency_id who free_amount reserved_amount : ℕ) → Event
  deposited : (currency_id who amount : ℕ) → Event
  lock_set : (lock_id currency_id who amount : ℕ) → Event
  lock_removed : (lock_id currency_id who : ℕ) → Event
  locked : (currency_id who amount : ℕ) → Event
  unlocked : (currency_id who amount : ℕ) → Event
  issued : (currency_id amount : ℕ) → Event
  rescinded : (currency_id amount : ℕ) → Event

-- Storage, keyed as in the pallet: by account and currency, or by currency. The newest event is first.
pub record State (Sys : Type 0) : Type 0 where
  pub total_issuance : Map ℕ ℕ
  pub locks : Map (ℕ × ℕ) (List BalanceLock)
  pub accounts : Map (ℕ × ℕ) AccountData
  pub reserves : Map (ℕ × ℕ) (List ReserveData)
  pub events : List Event
  pub system : Sys

-- A call returns its result and the storage it leaves; what was written before an error stays.
abbrev pub Action : Type 0 → Type 0 → Type 0
Action Sys A = State Sys → Result A × State Sys

-- `Config`: constants, the provider and consumer counts of `frame_system`, and `CurrencyHooks`.
pub record Config (Sys : Type 0) : Type 0 where
  pub max_value : ℕ
  pub existential_deposits : ℕ → ℕ
  pub max_locks : ℕ
  pub max_reserves : ℕ
  pub dust_removal_whitelist : ℕ → Bool
  pub can_dec_provider : ℕ → Sys → Bool
  pub inc_providers : ℕ → Sys → Sys
  pub dec_providers : ℕ → Sys → Sys
  pub inc_consumers : ℕ → Sys → Sys
  pub dec_consumers : ℕ → Sys → Sys
  pub on_dust : (who currency_id amount : ℕ) → State Sys → State Sys
  pub on_slash : (currency_id who amount : ℕ) → State Sys → State Sys
  pub pre_deposit : (currency_id who amount : ℕ) → Action Sys (Unit {0})
  pub post_deposit : (currency_id who amount : ℕ) → Action Sys (Unit {0})
  pub pre_transfer : (currency_id from to amount : ℕ) → Action Sys (Unit {0})
  pub post_transfer : (currency_id from to amount : ℕ) → Action Sys (Unit {0})
  pub on_new_token_account : (who currency_id : ℕ) → State Sys → State Sys
  pub on_killed_token_account : (who currency_id : ℕ) → State Sys → State Sys
