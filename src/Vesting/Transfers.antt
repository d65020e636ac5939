-- ===== src/Vesting/Transfers.antt =====
-- About vested transfers, updates and claims, and the vesting lock (`do_vested_transfer`,
-- `do_update_vesting_schedules` and `do_claim` of vesting/src/lib.rs).
use open_runtime_module_libr.Storage.Laws.{get-put}
use open_runtime_module_libr.Vesting.Lists.{
  locked_sum-active, locked_sum-append, active-AllValid, append-AllValid, active, locked_sum,
}
use open_runtime_module_libr.Vesting.Amounts.{locked_at-le, checked_schedule-IsValid}
use open_runtime_module_libr.Vesting.Claims.{do_claim-HasClaimed}
use open_runtime_module_libr.Vesting.Schedule.{ensure_valid_vesting_schedule}
use open_runtime_module_libr.Effect.{err, Result, ok}
use open_runtime_module_libr.Storage.{put}
use open_runtime_module_libr.Vesting.Calls.{do_claim, schedules_of, try_append, do_vested_transfer}
use open_runtime_module_libr.Vesting.Covered.{
  locked_balance-pruned, schedules_of-pruned, now_of, IsCovered, pruned, HasLocks,
}
use open_runtime_module_libr.Vesting.Types.{Error, State, VestingSchedule, Config}
use open_runtime_module_libr.Prelude.{
  nat_eq, Bool-cases, inr, ◌+◌, inl, ◌++◌, some, ◌==◌, if◌then◌else◌, ◌≡◌, ◌≤◌, ℕ, [], ◌∷◌, arith,
  refl,
}

module _ {Cur : Type 0} (cfg : Config Cur) (locks : HasLocks cfg) where
  pub do_claim-IsCovered :
      (j who : ℕ) (s : State Cur)
      → IsCovered cfg locks who s
      → IsCovered cfg locks j s
      → IsCovered cfg locks j (do_claim cfg who s).1
  do_claim-IsCovered j who s cw cj =
      let h = do_claim-HasClaimed cfg locks who s cw in
      elim (h.others j) [
        | inl same ↦ rw same (record {
          valid = h.valid;
          covered = ground (arith, h.now, h.lock, h.later (now_of cfg locks s));
          bounded = ground (arith, h.lock, cw.covered, cw.bounded);
        })
        | inr (schedules, lock) ↦ record {
          valid = rw schedules cj.valid;
          covered = rw (h.now, schedules, lock) cj.covered;
          bounded = rw lock cj.bounded;
        }
      ]

  -- The state after a vested transfer of a schedule whose whole amount is `m`.
  abbrev transferred_state : (from to m : ℕ) → VestingSchedule → State Cur → State Cur
  transferred_state from to m schedule s =
      let u = pruned cfg locks to s in
      record u {
        vesting_schedules = put to (some (schedules_of to u ++ schedule ∷ [])) u.vesting_schedules;
        currency =
            cfg.set_lock to (locked_sum (now_of cfg locks s) (schedules_of to s) + m)
              (cfg.transfer from to m s.currency).1;
      }

  do_vested_transfer_ok :
      (from to : ℕ) (schedule : VestingSchedule) (s : State Cur)
      → IsCovered cfg locks to s
      → (do_vested_transfer cfg from to schedule s).0 ≡ ok tt
      → (m : ℕ) × (ensure_valid_vesting_schedule cfg schedule ≡ ok m)
        × (locked_sum (now_of cfg locks s) (schedules_of to s) + m ≤ cfg.max_balance)
        × ((do_vested_transfer cfg from to schedule s).1 ≡ transferred_state from to m schedule s)
        × ((cfg.transfer from to m s.currency).0 ≡ ok tt)
  unfolding do_vested_transfer try_append
  do_vested_transfer_ok from to schedule s c h =
      go (ensure_valid_vesting_schedule cfg schedule) refl
    where
      go :
          (r : Result Error ℕ)
          → ensure_valid_vesting_schedule cfg schedule ≡ r
          → (m : ℕ) × (ensure_valid_vesting_schedule cfg schedule ≡ ok m)
            × (locked_sum (now_of cfg locks s) (schedules_of to s) + m ≤ cfg.max_balance)
            × ((do_vested_transfer cfg from to schedule s).1
                ≡ transferred_state from to m schedule s)
            × ((cfg.transfer from to m s.currency).0 ≡ ok tt)
      go (ok m) e =
          let locked = locked_balance-pruned cfg locks to s c in
          (m, e, ground (arith, locked), ground (arith, locked), ground (arith, locked))
      go (err x) e = absurd (ground arith)

  schedules_of-transferred_state :
      (j from to m : ℕ) (schedule : VestingSchedule) (s : State Cur)
      → schedules_of j (transferred_state from to m schedule s) ≡ (
          if to == j
          then active (now_of cfg locks s) (schedules_of to s) ++ schedule ∷ []
          else schedules_of j s)
  schedules_of-transferred_state j from to m schedule s =
      let u = pruned cfg locks to s in
      let kept = schedules_of-pruned cfg locks to to s in
      ground (
        arith,
        kept,
        schedules_of-pruned cfg locks j to s,
        get-put j to (some (schedules_of to u ++ schedule ∷ [])) u.vesting_schedules,
      )

  lock_of-transferred_state :
      (j from to m : ℕ) (schedule : VestingSchedule) (s : State Cur)
      → (locks.lock_of j (transferred_state from to m schedule s).currency ≡ (
          if to == j
          then locked_sum (now_of cfg locks s) (schedules_of to s) + m
          else locks.lock_of j s.currency))
        × (now_of cfg locks (transferred_state from to m schedule s) ≡ now_of cfg locks s)
  lock_of-transferred_state j from to m schedule s =
      let n = locked_sum (now_of cfg locks s) (schedules_of to s) + m in
      let c = (cfg.transfer from to m s.currency).1 in
      ground (
        arith,
        locks.set_lock j to n c,
        locks.transfer j from to m s.currency,
        locks.now_set to n c,
        locks.now_moved from to m s.currency,
      )

  pub do_vested_transfer-IsCovered :
      (j from to : ℕ) (schedule : VestingSchedule) (s : State Cur)
      → schedule.period_count ≤ cfg.max_u32
      → IsCovered cfg locks to s
      → IsCovered cfg locks j s
      → (do_vested_transfer cfg from to schedule s).0 ≡ ok tt
      → IsCovered cfg locks j (do_vested_transfer cfg from to schedule s).1
  do_vested_transfer-IsCovered j from to schedule s fits ct cj h =
      let (m, valid, room, e, moved) = do_vested_transfer_ok from to schedule s ct h in
      let now = now_of cfg locks s in
      let l = schedules_of to s in
      let v = checked_schedule-IsValid cfg schedule m fits valid in
      let state = transferred_state from to m schedule s in
      let schedules = schedules_of-transferred_state j from to m schedule s in
      let lock = lock_of-transferred_state j from to m schedule s in
      rw e (elim (Bool-cases (to == j)) [
        | inl at ↦
            let here : schedules_of j state ≡ active now l ++ schedule ∷ [] =
              ground (arith, schedules) in
            record {
              valid = rw here (
                  append-AllValid cfg (active now l) schedule (active-AllValid cfg now l ct.valid)
                    v.0);
              covered =
                  rw (here, lock.1, locked_sum-append cfg now (active now l) schedule)
                    (ground (
                      arith,
                      lock.0,
                      locked_sum-active cfg now now l ct.valid (omega arith),
                      locked_at-le now schedule,
                      v.1,
                    ));
              bounded = ground (arith, lock.0, room);
            }
        | inr away ↦
            let there : schedules_of j state ≡ schedules_of j s = ground (arith, schedules) in
            let kept : locks.lock_of j state.currency ≡ locks.lock_of j s.currency =
              ground (arith, lock.0) in
            record {
              valid = rw there cj.valid;
              covered = rw (there, kept, lock.1) cj.covered;
              bounded = rw kept cj.bounded;
            }
      ])
