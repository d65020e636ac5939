-- ===== src/Vesting/Schedule.antt =====
-- One vesting schedule (vesting/src/lib.rs): its end, its amounts, and its validity.
use open_runtime_module_libr.Numeric.{
  saturating_add, checked_add, saturating_sub, checked_div, checked_mul,
}
use open_runtime_module_libr.Effect.{require, ok_or, and_then, ok, Result}
use open_runtime_module_libr.Vesting.Types.{Error, VestingSchedule, Config}
use open_runtime_module_libr.Prelude.{
  leb, is_some, not, min, is_zero, if◌then◌else◌, some, Option, List, ℕ, [], ◌∷◌,
}
use mathlib.Core.Option

module _ {Cur : Type 0} (cfg : Config Cur) where
  -- `VestingSchedule::end`
  unfoldable pub end : VestingSchedule → Option ℕ
  end s =
      Option.bind (checked_mul cfg.max_block s.period s.period_count)
        λ length. checked_add cfg.max_block length s.start

  -- `VestingSchedule::total_amount`
  unfoldable pub total_amount : VestingSchedule → Option ℕ
  total_amount s = checked_mul cfg.max_balance s.per_period s.period_count

  -- `VestingSchedule::locked_amount`: `none` where one of its two expectations panics
  unfoldable pub locked_amount : (time : ℕ) → VestingSchedule → Option ℕ
  locked_amount time s = Option.bind (checked_div (saturating_sub time s.start) s.period) λ full.
      checked_mul cfg.max_balance s.per_period
        (saturating_sub s.period_count (min full cfg.max_u32))

  -- `ensure_valid_vesting_schedule`
  unfoldable pub ensure_valid_vesting_schedule : VestingSchedule → Result Error ℕ
  ensure_valid_vesting_schedule s =
      and_then (require (not (is_zero s.period)) Error.zero_vesting_period) λ _.
        and_then (require (not (is_zero s.period_count)) Error.zero_vesting_period_count) λ _.
          and_then (require (is_some (end s)) Error.overflow) λ _.
            and_then (ok_or (total_amount s) Error.overflow) λ total_total.
              and_then (require (leb cfg.min_vested_transfer total_total) Error.amount_low)
                λ _. ok total_total

  -- The `try_fold` over a list of schedules: the sum of their amounts, if they are all valid.
  unfoldable pub sum_valid : ℕ → List VestingSchedule → Result Error ℕ
  sum_valid acc_amount [] = ok acc_amount
  sum_valid acc_amount (s ∷ schedules) = and_then (ensure_valid_vesting_schedule s) λ amount.
      and_then (ok_or (checked_add cfg.max_balance acc_amount amount) Error.overflow)
        λ sum. sum_valid sum schedules

  -- The `retain` of `locked_balance`: the schedules that still lock something, and the total.
  unfoldable pub retain_locked :
      (now total : ℕ) → List VestingSchedule → Option (List VestingSchedule × ℕ)
  retain_locked now total [] = some ([], total)
  retain_locked now total (s ∷ schedules) = Option.bind (locked_amount now s) λ amount.
      Option.map (λ (kept, sum). (if is_zero amount then kept else s ∷ kept, sum))
        (retain_locked now (saturating_add cfg.max_balance total amount) schedules)
