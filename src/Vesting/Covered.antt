-- ===== src/Vesting/Covered.antt =====
-- About vesting schedules and the vesting lock (vesting/src/lib.rs): the lock against what the stored
-- schedules still lock.
use open_runtime_module_libr.Storage.{get}
use open_runtime_module_libr.Storage.Laws.{get-put}
use open_runtime_module_libr.Vesting.Lists.{retain_locked-active, active, AllValid, locked_sum}
use open_runtime_module_libr.Effect.{ok}
use open_runtime_module_libr.Vesting.Calls.{store_schedules, schedules_of, locked_balance}
use open_runtime_module_libr.Vesting.Types.{VestingSchedule, State, Config}
use open_runtime_module_libr.Prelude.{
  ◌+◌, min, nat_eq, some, none, is_zero, ◌==◌, ◌≤◌, Option, if◌then◌else◌, ◌≡◌, List, ℕ, [], ◌∷◌,
  arith, refl,
}

-- A currency with one vesting lock for each account, as `LockableCurrency` documents it: setting and
-- removing a lock concern one account, transfers leave locks alone, and the block number stays. A lock is
-- set whatever its amount and however many there are; the tokens pallet, in place of it, sets no lock of
-- amount 0 and none beyond its `MaxLocks`.
pub record HasLocks {Cur : Type 0} (cfg : Config Cur) : Type 0 where
  pub lock_of : (who : ℕ) → Cur → ℕ
  pub set_lock :
      (j who n : ℕ) (c : Cur)
      → lock_of j (cfg.set_lock who n c) ≡ (if who == j then n else lock_of j c)
  pub remove_lock :
      (j who : ℕ) (c : Cur)
      → lock_of j (cfg.remove_lock who c) ≡ (if who == j then 0 else lock_of j c)
  pub transfer : (j from to n : ℕ) (c : Cur) → lock_of j (cfg.transfer from to n c).1 ≡ lock_of j c
  pub now_set :
      (who n : ℕ) (c : Cur)
      → cfg.current_block_number (cfg.set_lock who n c) ≡ cfg.current_block_number c
  pub now_removed :
      (who : ℕ) (c : Cur)
      → cfg.current_block_number (cfg.remove_lock who c) ≡ cfg.current_block_number c
  pub now_moved :
      (from to n : ℕ) (c : Cur)
      → cfg.current_block_number (cfg.transfer from to n c).1 ≡ cfg.current_block_number c

pub active-nil : (now : ℕ) (l : List VestingSchedule) → locked_sum now l ≡ 0 → active now l ≡ []
active-nil now [] h = refl
active-nil now (s ∷ l) h = ground (arith, active-nil now l (omega arith))

module _ {Cur : Type 0} (cfg : Config Cur) (locks : HasLocks cfg) where
  abbrev pub now_of : State Cur → ℕ
  now_of s = cfg.current_block_number s.currency

  -- The schedules of an account are valid, and its lock covers what they still lock.
  pub record IsCovered (j : ℕ) (s : State Cur) : Type 0 where
    pub valid : AllValid cfg (schedules_of j s)
    pub covered : locked_sum (now_of s) (schedules_of j s) ≤ locks.lock_of j s.currency
    pub bounded : locks.lock_of j s.currency ≤ cfg.max_balance

  -- The state after `locked_balance`.
  abbrev pub pruned : (who : ℕ) → State Cur → State Cur
  pruned who s =
      let l = schedules_of who s in
      store_schedules who
        (if is_zero (locked_sum (now_of s) l) then none else some (active (now_of s) l)) s

  pub locked_balance-pruned :
      (who : ℕ) (s : State Cur)
      → IsCovered who s
      → locked_balance cfg who s ≡ (ok (locked_sum (now_of s) (schedules_of who s)), pruned who s)
  unfolding locked_balance
  locked_balance-pruned who s c = go (get who s.vesting_schedules) refl
    where
      go :
          (o : Option (List VestingSchedule))
          → get who s.vesting_schedules ≡ o
          → locked_balance cfg who s
            ≡ (ok (locked_sum (now_of s) (schedules_of who s)), pruned who s)
      go none h = ground arith
      go (some l) h =
          let same : schedules_of who s ≡ l = rw h refl in
          let loop = retain_locked-active cfg (now_of s) 0 l (rw same at c.valid) (omega arith) in
          let fits : min (0 + locked_sum (now_of s) l) cfg.max_balance ≡ locked_sum (now_of s) l =
            omega (arith, (rw same at c.covered), c.bounded) in
          ground (arith, loop, fits)

  pub schedules_of-pruned :
      (j who : ℕ) (s : State Cur)
      → schedules_of j (pruned who s)
        ≡ (if who == j then active (now_of s) (schedules_of who s) else schedules_of j s)
  schedules_of-pruned j who s =
      let l = schedules_of who s in
      ground (
        arith,
        active-nil (now_of s) l,
        get-put j who
            (if is_zero (locked_sum (now_of s) l) then none else some (active (now_of s) l))
            s.vesting_schedules,
      )
