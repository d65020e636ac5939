-- ===== src/Vesting/Updates.antt =====
-- About updates of vesting schedules (`do_update_vesting_schedules` of vesting/src/lib.rs).
use open_runtime_module_libr.Effect.{err, Result, ok}
use open_runtime_module_libr.Vesting.Schedule.{sum_valid}
use open_runtime_module_libr.Vesting.Lists.{sum_valid-AllValid, AllCounts}
use open_runtime_module_libr.Prelude.{
  refl, leb, is_zero, length, ltb, nat_eq, arith, [], ◌==◌, inr, some, inl, Bool-cases, ◌⊎◌, none,
  ◌≡◌, List, ℕ,
}
use open_runtime_module_libr.Vesting.Covered.{now_of, IsCovered, HasLocks}
use open_runtime_module_libr.Vesting.Types.{Error, VestingSchedule, State, Config}
use open_runtime_module_libr.Storage.Laws.{get-put}
use open_runtime_module_libr.Vesting.Calls.{
  schedules_of, store_schedules, with_currency, replace_schedules, do_update_vesting_schedules,
}

module _ {Cur : Type 0} (cfg : Config Cur) (locks : HasLocks cfg) where
  -- The state after `schedules` replace those of `who` and `n` is locked.
  abbrev replaced_state : (who n : ℕ) → List VestingSchedule → State Cur → State Cur
  replaced_state who n schedules s =
      store_schedules who (some schedules) (with_currency (cfg.set_lock who n) s)

  abbrev emptied_state : (who : ℕ) → State Cur → State Cur
  emptied_state who s = with_currency (cfg.remove_lock who) (store_schedules who none s)

  replaced_state-IsCovered :
      (j who n : ℕ) (schedules : List VestingSchedule) (s : State Cur)
      → AllCounts cfg schedules
      → sum_valid cfg 0 schedules ≡ ok n
      → IsCovered cfg locks j s
      → IsCovered cfg locks j (replaced_state who n schedules s)
  replaced_state-IsCovered j who n schedules s counts e c =
      let valid =
        sum_valid-AllValid cfg (now_of cfg locks s) 0 n schedules counts (omega arith) e in
      let lock = locks.set_lock j who n s.currency in
      let now = locks.now_set who n s.currency in
      let stored = get-put j who (some schedules) s.vesting_schedules in
      elim (Bool-cases (who == j)) [
        | inl at ↦
            let here : schedules_of j (replaced_state who n schedules s) ≡ schedules =
              ground (arith, stored) in
            record {
              valid = rw here valid.0;
              covered = rw (here, now) (ground (arith, lock, valid.2));
              bounded = ground (arith, lock, valid.1);
            }
        | inr away ↦
            let there : schedules_of j (replaced_state who n schedules s) ≡ schedules_of j s =
              ground (arith, stored) in
            record {
              valid = rw there c.valid;
              covered = rw (there, now) (ground (arith, lock, c.covered));
              bounded = ground (arith, lock, c.bounded);
            }
      ]

  emptied_state-IsCovered :
      (j who : ℕ) (s : State Cur)
      → IsCovered cfg locks j s
      → IsCovered cfg locks j (emptied_state who s)
  emptied_state-IsCovered j who s c =
      let lock = locks.remove_lock j who s.currency in
      let now = locks.now_removed who s.currency in
      let stored = get-put j who none s.vesting_schedules in
      elim (Bool-cases (who == j)) [
        | inl at ↦
            let here : schedules_of j (emptied_state who s) ≡ [] = ground (arith, stored) in
            record {
              valid = rw here tt;
              covered = rw here (omega arith);
              bounded = ground (arith, lock);
            }
        | inr away ↦
            let there : schedules_of j (emptied_state who s) ≡ schedules_of j s =
              ground (arith, stored) in
            record {
              valid = rw there c.valid;
              covered = rw (there, now) (ground (arith, lock, c.covered));
              bounded = ground (arith, lock, c.bounded);
            }
      ]

  -- An update writes all or nothing.
  do_update-cases :
      (who : ℕ) (schedules : List VestingSchedule) (s : State Cur)
      → ((do_update_vesting_schedules cfg who schedules s).1 ≡ s)
        ⊎ ((do_update_vesting_schedules cfg who schedules s).1 ≡ emptied_state who s)
        ⊎ ((n : ℕ) × (sum_valid cfg 0 schedules ≡ ok n)
            × ((do_update_vesting_schedules cfg who schedules s).1
                ≡ replaced_state who n schedules s))
  unfolding do_update_vesting_schedules replace_schedules
  do_update-cases who schedules s = go (sum_valid cfg 0 schedules) refl
    where
      go :
          (r : Result Error ℕ)
          → sum_valid cfg 0 schedules ≡ r
          → ((do_update_vesting_schedules cfg who schedules s).1 ≡ s)
            ⊎ ((do_update_vesting_schedules cfg who schedules s).1 ≡ emptied_state who s)
            ⊎ ((n : ℕ) × (sum_valid cfg 0 schedules ≡ ok n)
                × ((do_update_vesting_schedules cfg who schedules s).1
                    ≡ replaced_state who n schedules s))
      go (err x) e = elim (Bool-cases (ltb cfg.max_vesting_schedules (length schedules))) [
        | inl many ↦ inl (ground arith)
        | inr few ↦ elim (Bool-cases (is_zero (length schedules))) [
          | inl empty ↦ inr (inl (ground arith))
          | inr some_left ↦ inl (ground arith)
        ]
      ]
      go (ok n) e = elim (Bool-cases (ltb cfg.max_vesting_schedules (length schedules))) [
        | inl many ↦ inl (ground arith)
        | inr few ↦ elim (Bool-cases (is_zero (length schedules))) [
          | inl empty ↦ inr (inl (ground arith))
          | inr some_left ↦ elim (Bool-cases (leb n (cfg.free_balance who s.currency))) [
            | inl enough ↦ inr (inr (n, e, ground arith))
            | inr short ↦ inl (ground arith)
          ]
        ]
      ]

  pub do_update-IsCovered :
      (j who : ℕ) (schedules : List VestingSchedule) (s : State Cur)
      → AllCounts cfg schedules
      → IsCovered cfg locks j s
      → IsCovered cfg locks j (do_update_vesting_schedules cfg who schedules s).1
  do_update-IsCovered j who schedules s counts c = elim (do_update-cases who schedules s) [
    | inl same ↦ rw same c
    | inr (inl emptied) ↦ rw emptied (emptied_state-IsCovered j who s c)
    | inr (inr (n, valid, replaced)) ↦
        rw replaced (replaced_state-IsCovered j who n schedules s counts valid c)
  ]
