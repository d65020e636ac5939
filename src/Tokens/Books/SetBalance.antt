-- ===== src/Tokens/Books/SetBalance.antt =====
-- About the call `set_balance` and the books (`set_balance` of tokens/src/lib.rs).
use open_runtime_module_libr.Storage.Laws.{get-put}
use open_runtime_module_libr.Tokens.Books.Settle.{settle-SameBooks, held-settle}
use open_runtime_module_libr.Tokens.Books.Supply.{whole-le-max_value, holding-le-held}
use open_runtime_module_libr.Storage.{get}
use open_runtime_module_libr.Tokens.Books.{IsBacked, HasQuietHooks}
use open_runtime_module_libr.Tokens.Monad.{◌>>=◌, reading, pure, ◌>>◌, deposit_event}
use open_runtime_module_libr.Tokens.Account.{
  try_mutate_account, settle, accounts, total_issuance, set_total_issuance_value,
}
use open_runtime_module_libr.Tokens.Calls
use open_runtime_module_libr.Tokens.Calls.{dispatched, set_account, adjust_issuance}
use open_runtime_module_libr.Tokens.Types.{
  DispatchError, Action, err, Result, Event, total, ok, AccountData, State, Config,
}
use open_runtime_module_libr.Prelude.{
  inl, inr, refl, nat_eq, pair_eq, some, is_some, ◌<◌, ◌<◌, arith, ◌-◌, ◌⊎◌, ◌-◌, ◌⊎◌, ◌≤◌, ◌+◌,
  ◌≤◌, ◌+◌, ◌==◌, ◌==◌, if◌then◌else◌, if◌then◌else◌, ◌≡◌, ◌≡◌, ℕ,
}

module _ {Sys : Type 0} (cfg : Config Sys) where
  -- The total issuance after an accepted change.
  abbrev adjusted : (c old new : ℕ) → State Sys → State Sys
  adjusted c old new s =
      if old == new then s else set_total_issuance_value c ((total_issuance c s + new) - old) s

  adjust_issuance_ok :
      (c old new : ℕ) (s : State Sys)
      → (adjust_issuance cfg c old new s).0 ≡ ok tt
      → ((adjust_issuance cfg c old new s).1 ≡ adjusted c old new s)
        × (old ≤ total_issuance c s + new)
        × ((total_issuance c s + new ≤ cfg.max_value + old) ⊎ (new ≤ old))
  unfolding adjust_issuance
  adjust_issuance_ok c old new s h = ground arith

  set_account_ok :
      (c who new_free new_reserved : ℕ) (a a' : AccountData) (s : State Sys)
      → (set_account cfg c who new_free new_reserved a s).0 ≡ ok (tt, a')
      → let new = a'.free + a'.reserved in
        let s1 = (adjust_issuance cfg c (total cfg.max_value a) new s).1 in
        (((set_account cfg c who new_free new_reserved a s).1
            ≡ deposit_event (Event.balance_set c who a'.free a'.reserved) s1)
          × ((adjust_issuance cfg c (total cfg.max_value a) new s).0 ≡ ok tt))
        × (((a'.free ≡ new_free) × (a'.reserved ≡ new_reserved))
            ⊎ ((a'.free ≡ 0)
                × (a'.reserved ≡ 0)
                × (new_free + new_reserved < cfg.existential_deposits c)))
  unfolding set_account
  set_account_ok c who new_free new_reserved a a' s h = ground arith

  -- The steps of the call once the account is known.
  abbrev set_for : (c who new_free new_reserved : ℕ) → Action Sys (Unit {0})
  set_for c who new_free new_reserved =
      try_mutate_account cfg who c
        (λ account _. set_account cfg c who new_free new_reserved account)
      >> pure tt

  set_for_ok :
      (c who new_free new_reserved : ℕ) (a' : AccountData) (s : State Sys)
      → (set_account cfg c who new_free new_reserved (accounts who c s) s).0 ≡ ok (tt, a')
      → (set_for c who new_free new_reserved s).1
        ≡ settle cfg who c
            (is_some (get (who, c) s.accounts))
            a'
            (set_account cfg c who new_free new_reserved (accounts who c s) s).1
  unfolding try_mutate_account
  set_for_ok c who new_free new_reserved a' s h = ground arith

  set_for_err :
      (c who new_free new_reserved : ℕ) (e : DispatchError) (s : State Sys)
      → (set_account cfg c who new_free new_reserved (accounts who c s) s).0 ≡ err e
      → (set_for c who new_free new_reserved s).0 ≡ err e
  unfolding try_mutate_account
  set_for_err c who new_free new_reserved e s h = ground arith

  dispatched-cases :
      {A : Type 0} (m : Action Sys A) (s : State Sys)
      → ((dispatched m s).1 ≡ s) ⊎ ((a : A) × ((m s).0 ≡ ok a) × ((dispatched m s).1 ≡ (m s).1))
  dispatched-cases {A} m s = go (m s)
    where
      go :
          (r : Result A × State Sys)
          → ((dispatched (λ _. r) s).1 ≡ s)
            ⊎ ((a : A) × (r.0 ≡ ok a) × ((dispatched (λ _. r) s).1 ≡ r.1))
      go (ok a, t) = inr (a, refl, refl)
      go (err e, t) = inl refl

module _ {Sys Origin Source : Type 0} (cfg : Config Sys) (quiet : HasQuietHooks cfg)
    (ensure_signed : Origin → Result ℕ) (ensure_root : Origin → Result (Unit {0}))
    (lookup : Source → Result ℕ) where
  adjusted-settle-IsBacked :
      (c who : ℕ) (a' : AccountData) (s : State Sys)
      → IsBacked cfg c s
      → let a = accounts who c s in
        let s1 = adjusted cfg c (a.free + a.reserved) (a'.free + a'.reserved) s in
        let t = deposit_event (Event.balance_set c who a'.free a'.reserved) s1 in
        ((total_issuance c s + (a'.free + a'.reserved) ≤ cfg.max_value + (a.free + a.reserved))
          ⊎ (a'.free + a'.reserved ≤ a.free + a.reserved))
        → IsBacked cfg c (settle cfg who c (is_some (get (who, c) s.accounts)) a' t)
  adjusted-settle-IsBacked c who a' s b fits =
      let a = accounts who c s in
      let s1 = adjusted cfg c (a.free + a.reserved) (a'.free + a'.reserved) s in
      let t = deposit_event (Event.balance_set c who a'.free a'.reserved) s1 in
      let x = is_some (get (who, c) s.accounts) in
      let whole = holding-le-held cfg c who c s in
      let now = held-settle cfg quiet c who c x a' t in
      let same = (settle-SameBooks cfg quiet who c x a' t).total_issuance in
      let put_back =
        get-put c c (some ((total_issuance c s + (a'.free + a'.reserved)) - (a.free + a.reserved)))
          s.total_issuance in
      record {
        backed = rw same (ground (arith, b.backed, whole, now, put_back));
        bounded = rw same (ground (arith, b.backed, b.bounded, whole, put_back));
      }

  -- With hooks that leave the storage of the pallet alone, from backed books, the call set_balance
  -- leaves the books of its currency backed, whether it succeeds or not.
  pub set_balance-IsBacked :
      (origin : Origin) (source : Source) (c new_free new_reserved : ℕ) (s : State Sys)
      → IsBacked cfg c s
      → IsBacked cfg c
          (Calls.set_balance cfg ensure_signed ensure_root lookup origin source c new_free
            new_reserved s).1
  unfolding Calls.set_balance
  set_balance-IsBacked origin source c new_free new_reserved s b =
      elim (dispatched-cases cfg steps s) [
        | inl e ↦ rw e b
        | inr (a, h, e) ↦ rw e (go (ensure_root origin) (lookup source) refl refl h)
      ]
    where
      steps : Action Sys (Unit {0})
      steps = do
        reading (λ _. ensure_root origin)
        who ← reading (λ _. lookup source)
        set_for cfg c who new_free new_reserved

      set_ok :
          (who : ℕ) (q : Result (Unit {0} × AccountData))
          → (set_account cfg c who new_free new_reserved (accounts who c s) s).0 ≡ q
          → (set_for cfg c who new_free new_reserved s).0 ≡ ok tt
          → IsBacked cfg c (set_for cfg c who new_free new_reserved s).1
      set_ok who (ok (_, a')) hq done =
          let whole = whole-le-max_value cfg quiet c who s b in
          let facts = set_account_ok cfg c who new_free new_reserved (accounts who c s) a' s hq in
          let exact : total cfg.max_value (accounts who c s)
              ≡ (accounts who c s).free + (accounts who c s).reserved =
            omega arith in
          let moved =
            adjust_issuance_ok cfg c (total cfg.max_value (accounts who c s))
              (a'.free + a'.reserved) s facts.0.1 in
          let backed = adjusted-settle-IsBacked c who a' s b (rw exact at moved.2) in
          rw (set_for_ok cfg c who new_free new_reserved a' s hq, facts.0.0, moved.0, exact) backed
      set_ok who (err e) hq done =
          absurd (ground (arith, set_for_err cfg c who new_free new_reserved e s hq))

      go :
          (r : Result (Unit {0})) (l : Result ℕ)
          → ensure_root origin ≡ r
          → lookup source ≡ l
          → (steps s).0 ≡ ok tt
          → IsBacked cfg c (steps s).1
      go (err e) l hr hl h = absurd (ground arith)
      go (ok _) (err e) hr hl h = absurd (ground arith)
      go (ok _) (ok who) hr hl h =
          rw (hr, hl)
            (set_ok who (set_account cfg c who new_free new_reserved (accounts who c s) s).0 refl
              (rw (hr, hl) at h))
