-- ===== src/Tokens/Locks.antt =====
-- Locks of the tokens pallet (tokens/src/lib.rs): `update_locks` and `MultiLockableCurrency`.
use open_runtime_module_libr.Prelude.{
  ℕ, Bool, true, false, not, Option, none, some, if◌then◌else◌, ltb, leb, is_zero, ◌==◌, max, List,
  [], ◌∷◌, ◌++◌, length, retain, is_some, unwrap_or, pair_eq,
}
use open_runtime_module_libr.Numeric.{saturating_sub}
use open_runtime_module_libr.Storage.{get, put}
use open_runtime_module_libr.Tokens.Types.{
  BalanceLock, DispatchError, ok, err, Event, State, Action, Config,
}
use open_runtime_module_libr.Tokens.Monad.{deposit_event, ◌>>◌, modify}
use open_runtime_module_libr.Tokens.Account.{mutate_account}

-- The `for` loop of `update_locks`: the greatest amount, from `acc`.
unfoldable pub max_lock : ℕ → List BalanceLock → ℕ
max_lock acc [] = acc
max_lock acc (lock ∷ locks) = max_lock (max acc lock.amount) locks

-- The `filter_map` of `set_lock`: the first lock with the identifier becomes the new one and later ones
-- with it go; the new lock is handed back if no lock took it.
unfoldable pub replace_lock :
    ℕ → Option BalanceLock → List BalanceLock → List BalanceLock × Option BalanceLock
replace_lock lock_id new_lock [] = ([], new_lock)
replace_lock lock_id new_lock (lock ∷ locks) =
    let (rest, left) = replace_lock lock_id (if lock.id == lock_id then none else new_lock) locks in
    if lock.id == lock_id
    then elim new_lock [ none ↦ (rest, left) | some l ↦ (l ∷ rest, left) ]
    else (lock ∷ rest, left)

-- The `filter_map` of `extend_lock`, which keeps the greater amount, with the amounts it reports.
unfoldable pub raise_lock :
    ℕ → Option BalanceLock → List BalanceLock → List BalanceLock × Option BalanceLock × List ℕ
raise_lock lock_id new_lock [] = ([], new_lock, [])
raise_lock lock_id new_lock (lock ∷ locks) =
    let (rest, left, reported) =
      raise_lock lock_id (if lock.id == lock_id then none else new_lock) locks in
    if lock.id == lock_id
    then elim new_lock [
      | none ↦ (rest, left, reported)
      | some l ↦ (
        record { id = lock.id; amount = max lock.amount l.amount } ∷ rest,
        left,
        max lock.amount l.amount ∷ reported,
      )
    ]
    else (lock ∷ rest, left, reported)

-- `locks.push(lock)` if the new lock is left.
abbrev pub push_left : List BalanceLock → Option BalanceLock → List BalanceLock
push_left locks none = locks
push_left locks (some lock) = locks ++ lock ∷ []

unfoldable pub report_locks :
    {Sys : Type 0} → (lock_id currency_id who : ℕ) → List ℕ → State Sys → State Sys
report_locks lock_id currency_id who [] s = s
report_locks lock_id currency_id who (amount ∷ amounts) s =
    report_locks lock_id currency_id who amounts
      (deposit_event (Event.lock_set lock_id currency_id who amount) s)

abbrev is_empty : List BalanceLock → Bool
is_empty [] = true
is_empty (lock ∷ locks) = false

module _ {Sys : Type 0} where
  -- The `Locks` getter.
  abbrev pub locks_of : ℕ → ℕ → State Sys → List BalanceLock
  locks_of who currency_id s = unwrap_or (get (who, currency_id) s.locks) []

  unfoldable pub report_frozen : (currency_id who before after : ℕ) → State Sys → State Sys
  report_frozen currency_id who before after s =
      if ltb before after
      then deposit_event (Event.locked currency_id who (saturating_sub after before)) s
      else if ltb after before
      then deposit_event (Event.unlocked currency_id who (saturating_sub before after)) s
      else s

module _ {Sys : Type 0} (cfg : Config Sys) where
  -- The write of `Locks` in `update_locks`, with the consumer count of the account.
  unfoldable pub store_locks : ℕ → ℕ → List BalanceLock → Action Sys (Unit {0})
  store_locks currency_id who locks s =
      let existed = is_some (get (who, currency_id) s.locks) in
      if is_empty locks
      then (
        ok tt,
        record s {
          locks = put (who, currency_id) none s.locks;
          system = if existed then cfg.dec_consumers who s.system else s.system;
        },
      )
      else if leb (length locks) cfg.max_locks
      then (
        ok tt,
        record s {
          locks = put (who, currency_id) (some locks) s.locks;
          system = if existed then s.system else cfg.inc_consumers who s.system;
        },
      )
      else (err DispatchError.max_locks_exceeded, s)

  -- `Pallet::update_locks`
  unfoldable pub update_locks : ℕ → ℕ → List BalanceLock → Action Sys (Unit {0})
  update_locks currency_id who locks s =
      let after = max_lock 0 locks in
      let ((before, _), s1) =
        mutate_account cfg who currency_id
          (λ account _ s'. ((account.frozen, record account { frozen = after }), s')) s in
      (do store_locks currency_id who locks; modify (report_frozen currency_id who before after)) s1

  -- `MultiLockableCurrency::set_lock`
  unfoldable pub set_lock : (lock_id currency_id who amount : ℕ) → Action Sys (Unit {0})
  set_lock lock_id currency_id who amount s =
      if is_zero amount
      then (ok tt, s)
      else (let new_lock : BalanceLock = record { id = lock_id; amount = amount } in
          let (locks, left) = replace_lock lock_id (some new_lock) (locks_of who currency_id s) in
          (do
            update_locks currency_id who (push_left locks left)
            modify (deposit_event (Event.lock_set lock_id currency_id who amount)))
            s)

  -- `MultiLockableCurrency::extend_lock`
  unfoldable pub extend_lock : (lock_id currency_id who amount : ℕ) → Action Sys (Unit {0})
  extend_lock lock_id currency_id who amount s =
      if is_zero amount
      then (ok tt, s)
      else (let new_lock : BalanceLock = record { id = lock_id; amount = amount } in
          let (locks, left, reported) =
            raise_lock lock_id (some new_lock) (locks_of who currency_id s) in
          let s1 = report_locks lock_id currency_id who reported s in
          let s2 : State Sys = elim left [
            | none ↦ s1
            | some l ↦ deposit_event (Event.lock_set lock_id currency_id who l.amount) s1
          ] in
          update_locks currency_id who (push_left locks left) s2)

  -- `MultiLockableCurrency::remove_lock`
  unfoldable pub remove_lock : (lock_id currency_id who : ℕ) → Action Sys (Unit {0})
  remove_lock lock_id currency_id who s =
      (do
        update_locks currency_id who
            (retain (λ lock. not (lock.id == lock_id)) (locks_of who currency_id s))
        modify (deposit_event (Event.lock_removed lock_id currency_id who)))
        s
