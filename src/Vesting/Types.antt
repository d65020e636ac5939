-- ===== src/Vesting/Types.antt =====
-- Data of the vesting pallet (vesting/src/lib.rs). The currency is code of another pallet: its state is
-- `Cur`, and its operations are those of `Config`, for the vesting lock alone.
use open_runtime_module_libr.Storage.{Map}
use open_runtime_module_libr.Effect.{Result}
use open_runtime_module_libr.Prelude.{List, ℕ}

pub record VestingSchedule : Type 0 where
  pub start : ℕ
  pub period : ℕ
  pub period_count : ℕ
  pub per_period : ℕ

-- The errors of the pallet, those of `ArithmeticError` that it returns, and any other (`foreign`). A
-- call that panics has the result `panic`.
pub data Error : Type 0 where
  zero_vesting_period zero_vesting_period_count insufficient_balance_to_lock : Error
  too_many_vesting_schedules amount_low max_vesting_schedules_exceeded : Error
  overflow panic : Error
  foreign : ℕ → Error

pub data Event : Type 0 where
  vesting_schedule_added : (from to : ℕ) → VestingSchedule → Event
  claimed : (who amount : ℕ) → Event
  vesting_schedules_updated : (who : ℕ) → Event

-- Storage, the newest event first.
pub record State (Cur : Type 0) : Type 0 where
  pub vesting_schedules : Map ℕ (List VestingSchedule)
  pub currency : Cur
  pub events : List Event

pub record Config (Cur : Type 0) : Type 0 where
  pub min_vested_transfer : ℕ
  pub max_vesting_schedules : ℕ
  pub max_block : ℕ
  pub max_balance : ℕ
  pub max_u32 : ℕ
  pub current_block_number : Cur → ℕ
  pub free_balance : (who : ℕ) → Cur → ℕ
  pub transfer : (from to amount : ℕ) → Cur → Result Error (Unit {0}) × Cur
  pub set_lock : (who amount : ℕ) → Cur → Cur
  pub remove_lock : (who : ℕ) → Cur → Cur
