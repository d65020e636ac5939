-- ===== src/Vesting/Lists.antt =====
-- About lists of vesting schedules (the `retain` of `locked_balance` and the `try_fold` of
-- `do_update_vesting_schedules` of vesting/src/lib.rs).
use open_runtime_module_libr.Effect.{err, Result, ok}
use open_runtime_module_libr.Vesting.Amounts.{
  locked_at-le, checked_schedule-IsValid, locked_amount-locked_at, locked_at_mono, IsValid,
  locked_at,
}
use open_runtime_module_libr.Vesting.Schedule.{
  ensure_valid_vesting_schedule, retain_locked, sum_valid,
}
use open_runtime_module_libr.Vesting.Types.{Error, VestingSchedule, Config}
use open_runtime_module_libr.Prelude.{
  inr, min, inl, some, ◌≡◌, is_zero, ◌+◌, ◌++◌, ◌≤◌, if◌then◌else◌, Bool-cases, List, ℕ, [], ◌∷◌,
  arith, refl,
}
use mathlib.Core.Option

-- What a list locks at a time.
abbrev pub locked_sum : ℕ → List VestingSchedule → ℕ
locked_sum time [] = 0
locked_sum time (s ∷ l) = locked_at time s + locked_sum time l

-- The schedules that still lock something.
abbrev pub active : ℕ → List VestingSchedule → List VestingSchedule
active now [] = []
active now (s ∷ l) = if is_zero (locked_at now s) then active now l else s ∷ active now l

module _ {Cur : Type 0} (cfg : Config Cur) where
  abbrev pub AllValid : List VestingSchedule → Type 0
  AllValid [] = Unit
  AllValid (s ∷ l) = IsValid cfg s × AllValid l

  pub active-AllValid : (now : ℕ) (l : List VestingSchedule) → AllValid l → AllValid (active now l)
  active-AllValid now [] v = tt
  active-AllValid now (s ∷ l) (v, vs) = elim (Bool-cases (is_zero (locked_at now s))) [
    | inl done ↦ rw done (active-AllValid now l vs)
    | inr on ↦ rw on (v, active-AllValid now l vs)
  ]

  pub append-AllValid :
      (l : List VestingSchedule) (s : VestingSchedule)
      → AllValid l
      → IsValid cfg s
      → AllValid (l ++ s ∷ [])
  append-AllValid [] s vs v = (v, tt)
  append-AllValid (x ∷ l) s (vx, vs) v = (vx, append-AllValid l s vs v)

  -- Dropping what locks nothing now changes nothing later.
  pub locked_sum-active :
      (now time : ℕ) (l : List VestingSchedule)
      → AllValid l
      → now ≤ time
      → locked_sum time (active now l) ≡ locked_sum time l
  locked_sum-active now time [] v le = refl
  locked_sum-active now time (s ∷ l) (v, vs) le =
      ground (arith, locked_at_mono now time s v.period_pos le, locked_sum-active now time l vs le)

  pub locked_sum_mono :
      (t u : ℕ) (l : List VestingSchedule) → AllValid l → t ≤ u → locked_sum u l ≤ locked_sum t l
  locked_sum_mono t u [] v le = omega arith
  locked_sum_mono t u (s ∷ l) (v, vs) le =
      omega (arith, locked_at_mono t u s v.period_pos le, locked_sum_mono t u l vs le)

  pub locked_sum-append :
      (time : ℕ) (l : List VestingSchedule) (s : VestingSchedule)
      → locked_sum time (l ++ s ∷ []) ≡ locked_sum time l + locked_at time s
  locked_sum-append time [] s = omega arith
  locked_sum-append time (x ∷ l) s = omega (arith, locked_sum-append time l s)

  -- The loop of `locked_balance`: no panic, the active schedules, and the sum as far as it fits.
  pub retain_locked-active :
      (now total : ℕ) (l : List VestingSchedule)
      → AllValid l
      → total ≤ cfg.max_balance
      → retain_locked cfg now total l
        ≡ some (active now l, min (total + locked_sum now l) cfg.max_balance)
  unfolding retain_locked Option.bind
  retain_locked-active now total [] v le = ground arith
  retain_locked-active now total (s ∷ l) (v, vs) le =
      let sum = min (total + locked_at now s) cfg.max_balance in
      let rest = retain_locked-active now sum l vs (omega arith) in
      let whole : min (sum + locked_sum now l) cfg.max_balance
          ≡ min (total + (locked_at now s + locked_sum now l)) cfg.max_balance =
        omega arith in
      rw (locked_amount-locked_at cfg now s v, rest, whole) refl

  -- The counts of schedules are u32.
  abbrev pub AllCounts : List VestingSchedule → Type 0
  AllCounts [] = Unit
  AllCounts (s ∷ l) = (s.period_count ≤ cfg.max_u32) × AllCounts l

  sum_valid-cons :
      (acc n : ℕ) (s : VestingSchedule) (l : List VestingSchedule)
      → sum_valid cfg acc (s ∷ l) ≡ ok n
      → (m : ℕ) × (ensure_valid_vesting_schedule cfg s ≡ ok m)
        × (acc + m ≤ cfg.max_balance)
        × (sum_valid cfg (acc + m) l ≡ ok n)
  unfolding sum_valid
  sum_valid-cons acc n s l h = go (ensure_valid_vesting_schedule cfg s) refl
    where
      go :
          (r : Result Error ℕ)
          → ensure_valid_vesting_schedule cfg s ≡ r
          → (m : ℕ) × (ensure_valid_vesting_schedule cfg s ≡ ok m)
            × (acc + m ≤ cfg.max_balance)
            × (sum_valid cfg (acc + m) l ≡ ok n)
      go (ok m) e = (m, e, ground arith, ground arith)
      go (err x) e = absurd (ground arith)

  -- The fold: all schedules are valid, and the sum is above what they lock at any time.
  pub sum_valid-AllValid :
      (time acc n : ℕ) (l : List VestingSchedule)
      → AllCounts l
      → acc ≤ cfg.max_balance
      → sum_valid cfg acc l ≡ ok n
      → AllValid l × (n ≤ cfg.max_balance) × (acc + locked_sum time l ≤ n)
  unfolding sum_valid
  sum_valid-AllValid time acc n [] c le h = ground arith
  sum_valid-AllValid time acc n (s ∷ l) (c, cs) le h =
      let (m, valid, fits, rest) = sum_valid-cons acc n s l h in
      let v = checked_schedule-IsValid cfg s m c valid in
      let later = sum_valid-AllValid time (acc + m) n l cs fits rest in
      ((v.0, later.0), later.1, omega (arith, v.1, later.2, locked_at-le time s))
