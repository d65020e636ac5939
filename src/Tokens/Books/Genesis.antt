-- ===== src/Tokens/Books/Genesis.antt =====
-- About the genesis build and the books (`GenesisConfig::build` of tokens/src/lib.rs).
use mathlib.Core.Option
use open_runtime_module_libr.Storage.Sum.{total_of}
use open_runtime_module_libr.Storage.Laws.{get-put}
use open_runtime_module_libr.Tokens.Safety.Transfer.{accounts-settle_away}
use open_runtime_module_libr.Tokens.Books.Settle.{settle-SameBooks, held-settle}
use open_runtime_module_libr.Storage.{get}
use open_runtime_module_libr.Tokens.Account.{
  total_issuance, set_total_issuance_value, accounts, settle, mutate_account,
}
use open_runtime_module_libr.Tokens.Calls.{endow_all, build_genesis, are_unique, is_endowed, endow}
use open_runtime_module_libr.Tokens.Books.{IsBacked, HasQuietHooks}
use open_runtime_module_libr.Tokens.Types.{State, Config}
use open_runtime_module_libr.Prelude.{
  none, Option, true, nat_eq, ◌≤◌, pair_eq, false, some, is_some, ◌+◌, ◌≡◌, List, ℕ, arith, refl,
  [], ◌∷◌,
}

module _ {Sys : Type 0} (cfg : Config Sys) where
  -- The account written by one endowment.
  abbrev endowed_account : (who c initial : ℕ) → State Sys → State Sys
  endowed_account who c initial s =
      settle cfg who c (is_some (get (who, c) s.accounts))
        (record (accounts who c s) { free = initial }) s

  endow_ok :
      (who c initial : ℕ) (s s' : State Sys)
      → endow cfg who c initial s ≡ some s'
      → let s1 = endowed_account who c initial s in
        (s' ≡ set_total_issuance_value c (total_issuance c s1 + initial) s1)
        × (total_issuance c s1 + initial ≤ cfg.max_value)
  unfolding endow mutate_account
  endow_ok who c initial s s' h = ground arith

  -- The accounts still to be endowed hold nothing.
  abbrev IsFresh : List (ℕ × ℕ × ℕ) → State Sys → Type 0
  IsFresh [] s = Unit
  IsFresh ((who, c, _) ∷ balances) s =
      ((accounts who c s).free + (accounts who c s).reserved ≡ 0) × IsFresh balances s

  IsFresh-empty :
      (balances : List (ℕ × ℕ × ℕ)) (s : State Sys) → s.accounts ≡ [] → IsFresh balances s
  IsFresh-empty [] s h = tt
  IsFresh-empty ((who, c, _) ∷ balances) s h = (rw h refl, IsFresh-empty balances s h)

module _ {Sys : Type 0} (cfg : Config Sys) (quiet : HasQuietHooks cfg) where
  IsFresh-endow :
      (who c initial : ℕ) (balances : List (ℕ × ℕ × ℕ)) (s s' : State Sys)
      → endow cfg who c initial s ≡ some s'
      → is_endowed cfg who c balances ≡ false
      → IsFresh cfg balances s
      → IsFresh cfg balances s'
  unfolding is_endowed
  IsFresh-endow who c initial [] s s' h new fresh = tt
  IsFresh-endow who c initial ((w, d, _) ∷ balances) s s' h new (empty, fresh) =
      let away =
        accounts-settle_away cfg quiet w d who c (is_some (get (who, c) s.accounts))
          (record (accounts who c s) { free = initial }) s in
      let done = endow_ok cfg who c initial s s' h in
      (
        ground (arith, away, done.0),
        IsFresh-endow who c initial balances s s' h (ground arith) fresh,
      )

  endow-IsBacked :
      (d who c initial : ℕ) (s s' : State Sys)
      → endow cfg who c initial s ≡ some s'
      → (accounts who c s).free + (accounts who c s).reserved ≡ 0
      → IsBacked cfg d s
      → IsBacked cfg d s'
  endow-IsBacked d who c initial s s' h empty b =
      let a = record (accounts who c s) { free = initial } in
      let x = is_some (get (who, c) s.accounts) in
      let s1 = endowed_account cfg who c initial s in
      let done = endow_ok cfg who c initial s s' h in
      let now = held-settle cfg quiet d who c x a s in
      let same = (settle-SameBooks cfg quiet who c x a s).total_issuance in
      let issued = get-put d c (some (total_issuance c s1 + initial)) s1.total_issuance in
      rw (done.0) (record {
        backed = ground (arith, now, same, issued, b.backed);
        bounded = ground (arith, same, issued, done.1, b.bounded);
      })

  endow_all-IsBacked :
      (d : ℕ) (balances : List (ℕ × ℕ × ℕ)) (s s' : State Sys)
      → are_unique cfg balances ≡ true
      → endow_all cfg balances s ≡ some s'
      → IsFresh cfg balances s
      → IsBacked cfg d s
      → IsBacked cfg d s'
  unfolding are_unique endow_all Option.bind
  endow_all-IsBacked d [] s s' unique h fresh b = ground (arith, h, b)
  endow_all-IsBacked d ((who, c, initial) ∷ balances) s s' unique h (empty, fresh) b =
      go (endow cfg who c initial s) refl h
        (λ t later fresh' b'. endow_all-IsBacked d balances t s' (ground arith) later fresh' b')
    where
      go :
          (o : Option (State Sys))
          → endow cfg who c initial s ≡ o
          → Option.bind o (endow_all cfg balances) ≡ some s'
          → ((t : State Sys)
              → endow_all cfg balances t ≡ some s'
              → IsFresh cfg balances t
              → IsBacked cfg d t
              → IsBacked cfg d s')
          → IsBacked cfg d s'
      go none e h rest = absurd (ground arith)
      go (some t) e h rest =
          rest t h (IsFresh-endow who c initial balances s t e (ground arith) fresh)
            (endow-IsBacked d who c initial s t e empty b)

  -- With hooks that leave the storage of the pallet alone, a genesis build that no assertion stops,
  -- from a storage with no accounts and no issuance, leaves every currency backed.
  pub build_genesis-IsBacked :
      (d : ℕ) (balances : List (ℕ × ℕ × ℕ)) (s s' : State Sys)
      → s.accounts ≡ []
      → s.total_issuance ≡ []
      → build_genesis cfg balances s ≡ some s'
      → IsBacked cfg d s'
  unfolding build_genesis total_of
  build_genesis-IsBacked d balances s s' none_held none_issued h =
      endow_all-IsBacked d balances s s' (ground arith) (ground arith)
        (IsFresh-empty cfg balances s none_held)
        (record {
          backed = rw (none_held, none_issued) refl;
          bounded = rw none_issued (omega arith);
        })
