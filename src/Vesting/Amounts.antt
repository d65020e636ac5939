-- ===== src/Vesting/Amounts.antt =====
-- About the amounts of vesting schedules (`locked_amount`, `ensure_valid_vesting_schedule` and the
-- `retain` of `locked_balance` of vesting/src/lib.rs).
use open_runtime_module_libr.Effect.{ok}
use open_runtime_module_libr.Vesting.Schedule.{
  total_amount, end, locked_amount, ensure_valid_vesting_schedule,
}
use open_runtime_module_libr.Vesting.Types.{VestingSchedule, Config}
use open_runtime_module_libr.Prelude.{
  refl, min, ◌∙◌, some, ◌-◌, ◌≡◌, ◌+◌, ◌/◌, ◌*◌, ◌≤◌, ◌<◌, ℕ, arith,
}
use native.Mathlib.Nat.{
  add-zero, mul-add-div_right, div-eq_of_lt, le-div_iff_mul-le, div-mul-le_self,
}
use mathlib.Core.Option

-- What a schedule still locks at a time, without machine arithmetic.
abbrev pub locked_at : ℕ → VestingSchedule → ℕ
locked_at time s = s.per_period * (s.period_count - (time - s.start) / s.period)

mul_mono : (a b c : ℕ) → b ≤ c → a * b ≤ a * c
mul_mono a b c h = grind arith

pub locked_at-le :
    (time : ℕ) (s : VestingSchedule) → locked_at time s ≤ s.per_period * s.period_count
locked_at-le time s = mul_mono s.per_period _ s.period_count (omega arith)

div_mono : (a b k : ℕ) → 0 < k → a ≤ b → a / k ≤ b / k
div_mono a b k pos le = (le-div_iff_mul-le pos).1 (omega (arith, div-mul-le_self a k))

pub locked_at_mono :
    (t u : ℕ) (s : VestingSchedule) → 0 < s.period → t ≤ u → locked_at u s ≤ locked_at t s
locked_at_mono t u s pos le =
    mul_mono s.per_period _ _
      (omega (arith, div_mono (t - s.start) (u - s.start) s.period pos (omega arith)))

module _ {Cur : Type 0} (cfg : Config Cur) where
  -- A schedule that passed the checks; its count is a u32.
  pub record IsValid (s : VestingSchedule) : Type 0 where
    pub period_pos : 0 < s.period
    pub count_pos : 0 < s.period_count
    pub count_fits : s.period_count ≤ cfg.max_u32
    pub ends : s.period * s.period_count + s.start ≤ cfg.max_block
    pub total_fits : s.per_period * s.period_count ≤ cfg.max_balance

  pub checked_schedule-IsValid :
      (s : VestingSchedule) (n : ℕ)
      → s.period_count ≤ cfg.max_u32
      → ensure_valid_vesting_schedule cfg s ≡ ok n
      → IsValid s × (n ≡ s.per_period * s.period_count)
  unfolding ensure_valid_vesting_schedule end total_amount Option.bind
  checked_schedule-IsValid s n fits h = ground arith

  pub locked_amount-locked_at :
      (time : ℕ) (s : VestingSchedule)
      → IsValid s
      → locked_amount cfg time s ≡ some (locked_at time s)
  unfolding locked_amount Option.bind
  locked_amount-locked_at time s v =
      let small : s.period_count - min ((time - s.start) / s.period) cfg.max_u32
          ≡ s.period_count - (time - s.start) / s.period =
        grind (arith, v.count_fits) in
      ground (arith, v.period_pos, v.total_fits, locked_at-le time s, small)

  -- For a valid schedule, from k whole periods after its start until the next one, what is locked is
  -- the amount of the remaining periods, without a panic.
  pub locked_amount-release :
      (s : VestingSchedule) (k r : ℕ)
      → IsValid s
      → r < s.period
      → (locked_amount cfg (s.start + (k * s.period + r)) s
          ≡ some (s.per_period * (s.period_count - k)))
  locked_amount-release s k r v lt =
      let back : (s.start + (k * s.period + r)) - s.start ≡ k * s.period + r = omega arith in
      locked_amount-locked_at (s.start + (k * s.period + r)) s v
      ∙ rw (back, mul-add-div_right v.period_pos k r, div-eq_of_lt lt, add-zero) refl
