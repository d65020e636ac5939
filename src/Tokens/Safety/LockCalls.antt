-- ===== src/Tokens/Safety/LockCalls.antt =====
-- About `set_lock`, `extend_lock` and `remove_lock` on the locks as a finite map (tokens/src/lib.rs).
use open_runtime_module_libr.Tokens.Account.{accounts}
use open_runtime_module_libr.Tokens.Adapter
use open_runtime_module_libr.Tokens.Monad.{deposit_event}
use open_runtime_module_libr.Tokens.Safety.Frozen.{IsFrozen-of, IsFrozen, update_locks-Stores}
use open_runtime_module_libr.Tokens.Safety.Locks.{
  length-retain, length-replace_lock, length-raise_lock, count_others, find_lock-le-max_lock,
  raise_lock-some, replace_lock-some, raised_to, find_lock-retain, find_lock,
}
use open_runtime_module_libr.Tokens.Locks.{
  max_lock, push_left, raise_lock, replace_lock, locks_of, report_locks,
}
use open_runtime_module_libr.Tokens.Locks.{set_lock, extend_lock, remove_lock}
use open_runtime_module_libr.Tokens.Books.{
  SameBooks-of_fields, SameBooks-trans, SameBooks-refl, SameBooks, HasQuietHooks,
}
use open_runtime_module_libr.Tokens.Types.{Event, DispatchError, err, ok, Result, State, Config}
use open_runtime_module_libr.Prelude.{
  is_some, ◌<◌, ◌+◌, ◌⊎◌, ◌≤◌, refl, [], not, retain, ◌==◌, some, if◌then◌else◌, ◌∷◌, false, ◌≡◌,
  none, is_zero, List, Option, ℕ, arith,
}

module _ {Sys : Type 0} (cfg : Config Sys) (quiet : HasQuietHooks cfg) where
  -- How many locks there are to be: the other ones, and the lock `id` unless it goes.
  abbrev pub count_with : (c who id : ℕ) → Option ℕ → State Sys → ℕ
  count_with c who id amount s =
      count_others id (locks_of who c s) + (if is_some amount then 1 else 0)

  -- If there are no more locks than allowed, the lock `id` becomes `amount` and every other lock stays,
  -- with the frozen balance in line; otherwise it is refused, and all stored ones stay.
  abbrev pub ChangesLock :
      (c who id j : ℕ) → Option ℕ → State Sys → Result (Unit {0}) × State Sys → Type 0
  ChangesLock c who id j amount s (ok _, s') =
      (count_with c who id amount s ≤ cfg.max_locks)
      × (find_lock j (locks_of who c s')
          ≡ (if j == id then amount else find_lock j (locks_of who c s)))
      × IsFrozen cfg c who s'
  ChangesLock c who id j amount s (err e, s') =
      (cfg.max_locks < count_with c who id amount s)
      × (e ≡ DispatchError.max_locks_exceeded)
      × (locks_of who c s' ≡ locks_of who c s)

  -- The same with the frozen balance as the loop computes it
  abbrev Computes : (c who id j : ℕ) → Option ℕ → State Sys → Result (Unit {0}) × State Sys → Type 0
  Computes c who id j amount s (ok _, s') =
      (count_with c who id amount s ≤ cfg.max_locks)
      × (find_lock j (locks_of who c s')
          ≡ (if j == id then amount else find_lock j (locks_of who c s)))
      × (((accounts who c s').frozen ≡ max_lock 0 (locks_of who c s'))
          ⊎ ((accounts who c s').free + (accounts who c s').reserved ≡ 0))
  Computes c who id j amount s (err e, s') =
      (cfg.max_locks < count_with c who id amount s)
      × (e ≡ DispatchError.max_locks_exceeded)
      × (locks_of who c s' ≡ locks_of who c s)

  ChangesLock-of :
      (c who id j : ℕ) (amount : Option ℕ) (s : State Sys) (r : Result (Unit {0}) × State Sys)
      → Computes c who id j amount s r
      → ChangesLock c who id j amount s r
  ChangesLock-of c who id j amount s (ok _, s') (fits, found, frozen) =
      (fits, found, IsFrozen-of cfg c who s' frozen)
  ChangesLock-of c who id j amount s (err e, s') refused = refused

  -- With hooks that leave the storage of the pallet alone, on locks as a finite map, setting a lock
  -- to a positive amount succeeds when the locks with other identifiers and this one are no more
  -- than MaxLocks, makes it that amount and leaves every other lock, and the frozen balance is then
  -- the greatest amount of a lock unless the account is empty; otherwise it fails with
  -- max_locks_exceeded and the stored locks stay.
  pub set_lock-ChangesLock :
      (id c who amount j : ℕ) (s : State Sys)
      → is_zero amount ≡ false
      → ChangesLock c who id j (some amount) s (set_lock cfg id c who amount s)
  unfolding set_lock
  set_lock-ChangesLock id c who amount j s nz =
      let old = locks_of who c s in
      let (locks, left) = replace_lock id (some (record { id = id; amount = amount })) old in
      ChangesLock-of c who id j (some amount) s (set_lock cfg id c who amount s) (
        rw nz (
          ground (
            arith,
            length-replace_lock id amount old,
            replace_lock-some id amount j old,
            update_locks-Stores cfg quiet c who (push_left locks left) s,
          )))

  -- With hooks that leave the storage of the pallet alone, when set_lock is refused for too many
  -- locks, the adapter, which drops the error, leaves the stored locks, but the frozen balance of an
  -- account that is not empty is at least the refused amount.
  pub set_lock-overfreezes :
      (id c who amount : ℕ) (s : State Sys)
      → is_zero amount ≡ false
      → (set_lock cfg id c who amount s).0 ≡ err DispatchError.max_locks_exceeded
      → let s' = Adapter.set_lock cfg c id who amount s in
        (locks_of who c s' ≡ locks_of who c s)
        × ((amount ≤ (accounts who c s').frozen)
            ⊎ ((accounts who c s').free + (accounts who c s').reserved ≡ 0))
  unfolding set_lock Adapter.set_lock
  set_lock-overfreezes id c who amount s nz h =
      let old = locks_of who c s in
      let (locks, left) = replace_lock id (some (record { id = id; amount = amount })) old in
      ground (
        arith,
        replace_lock-some id amount id old,
        find_lock-le-max_lock 0 id amount (push_left locks left),
        update_locks-Stores cfg quiet c who (push_left locks left) s,
      )

  -- With hooks that leave the storage of the pallet alone, on locks as a finite map, removing a lock
  -- leaves none of its identifier and every other lock, and the frozen balance is then the greatest
  -- lock unless the account is empty; or there are too many locks, and the stored ones stay.
  remove_lock-ChangesLock :
      (id c who j : ℕ) (s : State Sys) → ChangesLock c who id j none s (remove_lock cfg id c who s)
  unfolding remove_lock
  remove_lock-ChangesLock id c who j s =
      let old = locks_of who c s in
      ChangesLock-of c who id j none s (remove_lock cfg id c who s) (
        ground (
          arith,
          length-retain id old,
          find_lock-retain id j old,
          update_locks-Stores cfg quiet c who (retain (λ lock. not (lock.id == id)) old) s,
        ))

  report_locks-SameBooks :
      (id c who : ℕ) (amounts : List ℕ) (s : State Sys)
      → SameBooks (report_locks id c who amounts s) s
  unfolding report_locks
  report_locks-SameBooks id c who [] s = SameBooks-refl s
  report_locks-SameBooks id c who (amount ∷ amounts) s =
      SameBooks-trans (report_locks-SameBooks id c who amounts _)
        (SameBooks-of_fields _ s refl refl refl refl)

  -- With hooks that leave the storage of the pallet alone, on locks as a finite map, extending a
  -- lock by a positive amount makes it the greater of its amount and the new one and leaves every
  -- other lock, and the frozen balance is then the greatest lock unless the account is empty; or
  -- there would be too many locks, and the stored ones stay.
  extend_lock-ChangesLock :
      (id c who amount j : ℕ) (s : State Sys)
      → is_zero amount ≡ false
      → ChangesLock c who id j
          (some (raised_to (find_lock id (locks_of who c s)) amount))
          s
          (extend_lock cfg id c who amount s)
  unfolding extend_lock
  extend_lock-ChangesLock id c who amount j s nz =
      let old = locks_of who c s in
      let (locks, left, reported) =
        raise_lock id (some (record { id = id; amount = amount })) old in
      let s1 = report_locks id c who reported s in
      let same : locks_of who c s1 ≡ locks_of who c s =
        rw (report_locks-SameBooks id c who reported s).locks in
      let s2 : State Sys = elim left [
        | none ↦ s1
        | some l ↦ deposit_event (Event.lock_set id c who l.amount) s1
      ] in
      ChangesLock-of c who id j (some (raised_to (find_lock id old) amount)) s
        (extend_lock cfg id c who amount s)
        (rw nz (
          ground (
            arith,
            same,
            length-raise_lock id amount old,
            raise_lock-some id amount j old,
            update_locks-Stores cfg quiet c who (push_left locks left) s2,
          )))
