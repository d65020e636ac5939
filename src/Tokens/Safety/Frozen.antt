-- ===== src/Tokens/Safety/Frozen.antt =====
-- About the frozen balance and the stored locks (`update_locks` of tokens/src/lib.rs).
use open_runtime_module_libr.Tokens.Safety.Locks.{max_lock-IsGreatest, IsGreatest}
use open_runtime_module_libr.Storage.Laws.{get-put}
use open_runtime_module_libr.Tokens.Books.Settle.{settle-SameBooks}
use open_runtime_module_libr.Storage.{get}
use open_runtime_module_libr.Tokens.Monad.{modify, ◌>>◌}
use open_runtime_module_libr.Tokens.Locks.{
  update_locks, locks_of, max_lock, report_frozen, store_locks,
}
use open_runtime_module_libr.Tokens.Account.{mutate_account, settle, kept, accounts}
use open_runtime_module_libr.Tokens.Books.{HasQuietHooks}
use open_runtime_module_libr.Tokens.Types.{
  Result, DispatchError, err, ok, AccountData, BalanceLock, State, Config,
}
use open_runtime_module_libr.Prelude.{
  inr, ◌≤◌, inl, some, ◌∷◌, [], length, ◌<◌, none, length, ◌<◌, pair_eq, ◌+◌, is_some, ◌⊎◌, ◌≡◌,
  Bool, List, ℕ, arith,
}

module _ {Sys : Type 0} (cfg : Config Sys) where
  -- The frozen balance of an account is the greatest amount of its locks, unless the account is empty:
  -- then nothing of it is stored.
  abbrev pub IsFrozen : (c who : ℕ) → State Sys → Type 0
  IsFrozen c who s =
      IsGreatest (accounts who c s).frozen (locks_of who c s)
      ⊎ ((accounts who c s).free + (accounts who c s).reserved ≡ 0)

  pub IsFrozen-of :
      (c who : ℕ) (s : State Sys)
      → ((accounts who c s).frozen ≡ max_lock 0 (locks_of who c s))
        ⊎ ((accounts who c s).free + (accounts who c s).reserved ≡ 0)
      → IsFrozen c who s
  IsFrozen-of c who s (inl e) = inl (rw e (max_lock-IsGreatest (locks_of who c s)))
  IsFrozen-of c who s (inr empty) = inr empty

module _ {Sys : Type 0} (cfg : Config Sys) (quiet : HasQuietHooks cfg) where
  accounts-settle_frozen :
      (who c : ℕ) (existed : Bool) (a : AccountData) (s : State Sys)
      → ((accounts who c (settle cfg who c existed a s)).frozen ≡ a.frozen)
        ⊎ ((accounts who c (settle cfg who c existed a s)).free
              + (accounts who c (settle cfg who c existed a s)).reserved
            ≡ 0)
  unfolding kept
  accounts-settle_frozen who c existed a s =
      rw
        (
          (settle-SameBooks cfg quiet who c existed a s).accounts,
          get-put (who, c) (who, c) (kept cfg c a) s.accounts,
        )
        (ground (arith, quiet.max_value_pos))

  -- The first write of `update_locks`.
  abbrev frozen_state : (c who : ℕ) → List BalanceLock → State Sys → State Sys
  frozen_state c who locks s =
      settle cfg who c (is_some (get (who, c) s.accounts))
        (record (accounts who c s) { frozen = max_lock 0 locks }) s

  -- The rest of it.
  locks-store_locks :
      (c who : ℕ) (locks : List BalanceLock) (before after : ℕ) (s : State Sys)
      → let r = (store_locks cfg c who locks >> modify (report_frozen c who before after)) s in
        (r.1.accounts ≡ s.accounts)
        × (((r.0 ≡ ok tt) × (locks_of who c r.1 ≡ locks) × (length locks ≤ cfg.max_locks))
            ⊎ ((r.0 ≡ err DispatchError.max_locks_exceeded)
                × (r.1.locks ≡ s.locks)
                × (cfg.max_locks < length locks)))
  unfolding store_locks report_frozen
  locks-store_locks c who [] before after s =
      let now = get-put (who, c) (who, c) none s.locks in ground (arith, now)
  locks-store_locks c who (lock ∷ locks) before after s =
      let now = get-put (who, c) (who, c) (some (lock ∷ locks)) s.locks in ground (arith, now)

  -- What storing a list of locks does: the frozen balance becomes their greatest amount, whether they
  -- are stored or, if there are too many of them, the stored ones stay.
  abbrev Stores :
      (c who : ℕ) → List BalanceLock → State Sys → Result (Unit {0}) × State Sys → Type 0
  Stores c who locks s (ok _, s') =
      (locks_of who c s' ≡ locks)
      × (((accounts who c s').frozen ≡ max_lock 0 locks)
          ⊎ ((accounts who c s').free + (accounts who c s').reserved ≡ 0))
      × (length locks ≤ cfg.max_locks)
  Stores c who locks s (err e, s') =
      (e ≡ DispatchError.max_locks_exceeded)
      × (locks_of who c s' ≡ locks_of who c s)
      × (((accounts who c s').frozen ≡ max_lock 0 locks)
          ⊎ ((accounts who c s').free + (accounts who c s').reserved ≡ 0))
      × (cfg.max_locks < length locks)

  pub update_locks-Stores :
      (c who : ℕ) (locks : List BalanceLock) (s : State Sys)
      → Stores c who locks s (update_locks cfg c who locks s)
  unfolding update_locks mutate_account
  update_locks-Stores c who locks s =
      let s1 = frozen_state c who locks s in
      let before =
        (settle-SameBooks cfg quiet who c (is_some (get (who, c) s.accounts))
          (record (accounts who c s) { frozen = max_lock 0 locks }) s).locks in
      ground (
        arith,
        before,
        accounts-settle_frozen who c (is_some (get (who, c) s.accounts))
            (record (accounts who c s) { frozen = max_lock 0 locks }) s,
        locks-store_locks c who locks (accounts who c s).frozen (max_lock 0 locks) s1,
      )
