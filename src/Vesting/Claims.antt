-- ===== src/Vesting/Claims.antt =====
-- About what each operation of the vesting pallet does to schedules and locks (`do_claim`,
-- `do_vested_transfer` and `do_update_vesting_schedules` of vesting/src/lib.rs).
use open_runtime_module_libr.Storage.Laws.{get-put}
use open_runtime_module_libr.Vesting.Lists.{
  active-AllValid, locked_sum-active, AllValid, active, locked_sum,
}
use open_runtime_module_libr.Effect.{ok, Result}
use open_runtime_module_libr.Vesting.Calls.{store_schedules, with_currency, schedules_of, do_claim}
use open_runtime_module_libr.Vesting.Covered.{
  pruned, schedules_of-pruned, active-nil, locked_balance-pruned, now_of, IsCovered, HasLocks,
}
use open_runtime_module_libr.Vesting.Types.{Error, State, Config}
use open_runtime_module_libr.Prelude.{
  inr, inl, ltb, Bool-cases, nat_eq, none, ◌⊎◌, ◌<◌, is_zero, ◌==◌, if◌then◌else◌, ◌≡◌, ℕ, arith,
  refl,
}

module _ {Cur : Type 0} (cfg : Config Cur) (locks : HasLocks cfg) where
  -- What a claim does: it returns what is locked at this block, makes the lock exactly that, and keeps
  -- what the schedules lock at every later time.
  pub record HasClaimed (who : ℕ) (s : State Cur) (r : Result Error ℕ × State Cur) : Type 0 where
    pub result : r.0 ≡ ok (locked_sum (now_of cfg locks s) (schedules_of who s))
    pub lock : locks.lock_of who r.1.currency ≡ locked_sum (now_of cfg locks s) (schedules_of who s)
    pub later :
        (time : ℕ)
        → (time < now_of cfg locks s)
          ⊎ (locked_sum time (schedules_of who r.1) ≡ locked_sum time (schedules_of who s))
    pub others :
        (j : ℕ)
        → (j ≡ who)
          ⊎ ((schedules_of j r.1 ≡ schedules_of j s)
              × (locks.lock_of j r.1.currency ≡ locks.lock_of j s.currency))
    pub valid : AllValid cfg (schedules_of who r.1)
    pub now : now_of cfg locks r.1 ≡ now_of cfg locks s

  -- The state after a claim.
  abbrev claimed_state : (who : ℕ) → State Cur → State Cur
  claimed_state who s =
      let locked = locked_sum (now_of cfg locks s) (schedules_of who s) in
      if is_zero locked
      then with_currency (cfg.remove_lock who) (store_schedules who none (pruned cfg locks who s))
      else with_currency (cfg.set_lock who locked) (pruned cfg locks who s)

  do_claim-eq :
      (who : ℕ) (s : State Cur)
      → IsCovered cfg locks who s
      → do_claim cfg who s
        ≡ (ok (locked_sum (now_of cfg locks s) (schedules_of who s)), claimed_state who s)
  unfolding do_claim
  do_claim-eq who s c = ground (arith, locked_balance-pruned cfg locks who s c)

  schedules_of-claimed_state :
      (j who : ℕ) (s : State Cur)
      → schedules_of j (claimed_state who s)
        ≡ (if who == j then active (now_of cfg locks s) (schedules_of who s) else schedules_of j s)
  schedules_of-claimed_state j who s =
      let l = schedules_of who s in
      ground (
        arith,
        active-nil (now_of cfg locks s) l,
        schedules_of-pruned cfg locks j who s,
        get-put j who none (pruned cfg locks who s).vesting_schedules,
      )

  lock_of-claimed_state :
      (j who : ℕ) (s : State Cur)
      → (locks.lock_of j (claimed_state who s).currency ≡ (
          if who == j
          then locked_sum (now_of cfg locks s) (schedules_of who s)
          else locks.lock_of j s.currency))
        × (now_of cfg locks (claimed_state who s) ≡ now_of cfg locks s)
  lock_of-claimed_state j who s =
      let locked = locked_sum (now_of cfg locks s) (schedules_of who s) in
      ground (
        arith,
        locks.remove_lock j who s.currency,
        locks.set_lock j who locked s.currency,
        locks.now_removed who s.currency,
        locks.now_set who locked s.currency,
      )

  -- With a currency that keeps one vesting lock for each account, if the schedules of an account are
  -- valid and its lock covers them, a claim does not panic, returns what is locked at this block and
  -- makes the lock exactly that, changes at no later time what its schedules lock, and leaves other
  -- accounts alone.
  pub do_claim-HasClaimed :
      (who : ℕ) (s : State Cur) → IsCovered cfg locks who s → HasClaimed who s (do_claim cfg who s)
  do_claim-HasClaimed who s c =
      let now = now_of cfg locks s in
      let l = schedules_of who s in
      let kept : schedules_of who (claimed_state who s) ≡ active now l =
        ground (arith, schedules_of-claimed_state who who s) in
      rw (do_claim-eq who s c) (record {
        result = refl;
        lock = ground (arith, lock_of-claimed_state who who s);
        later = λ time. elim (Bool-cases (ltb time now)) [
          | inl before ↦ inl (ground arith)
          | inr after ↦ inr (rw kept (locked_sum-active cfg now time l c.valid (ground arith)))
        ];
        others =
            λ j. ground (arith, schedules_of-claimed_state j who s, lock_of-claimed_state j who s);
        valid = rw kept (active-AllValid cfg now l c.valid);
        now = (lock_of-claimed_state who who s).1;
      })
