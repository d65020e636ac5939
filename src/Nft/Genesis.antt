-- ===== src/Nft/Genesis.antt =====
-- About the genesis of the nft pallet, and about burning what was minted (nft/src/lib.rs).
use open_runtime_module_libr.Nft.Made.{mint-IsConsistent, create_class-IsConsistent}
use open_runtime_module_libr.Effect.{err, Result, ok}
use open_runtime_module_libr.Nft.Consistent.{issuance_of, IsConsistent}
use open_runtime_module_libr.Storage.{put, get}
use open_runtime_module_libr.Prelude.{
  refl, none, ◌-◌, unwrap_or, ap, ◌+◌, Option, suc, arith, is_some, subst, some, ◌≡◌, ℕ, List, [],
  ◌∷◌, pair_eq, nat_eq,
}
use open_runtime_module_libr.Storage.Laws.{get-put}
use open_runtime_module_libr.Nft.Types.{Error, triple_eq, State, TokenInfo, ClassInfo, Config}
use open_runtime_module_libr.Nft.Calls.{
  take, give, mint, create_class, mint_all, build_genesis, burn, next_token,
}
use mathlib.Core.Option

module _ {ClassData TokenData : Type 0} (cfg : Config) where
  mint_all-IsConsistent :
      (class_id : ℕ) (tokens : List (ℕ × (List ℕ × TokenData))) (s t : State ClassData TokenData)
      → IsConsistent s
      → mint_all cfg class_id tokens s ≡ some t
      → IsConsistent t
  unfolding mint_all
  mint_all-IsConsistent class_id [] s t k h = subst IsConsistent (ap (λ o. unwrap_or o s) h) k
  mint_all-IsConsistent class_id ((owner, (metadata, properties)) ∷ tokens) s t k h =
      let r = mint cfg owner class_id metadata properties s in
      mint_all-IsConsistent class_id tokens r.1 t
        (mint-IsConsistent cfg owner class_id metadata properties s k) (rest r refl h)
    where
      rest :
          (r : Result Error ℕ × State ClassData TokenData)
          → mint cfg owner class_id metadata properties s ≡ r
          → mint_all cfg class_id ((owner, (metadata, properties)) ∷ tokens) s ≡ some t
          → mint_all cfg class_id tokens r.1 ≡ some t
      rest (ok n, u) e h = ground (arith, e)
      rest (err x, u) e h = absurd (ground (arith, e))

  build_genesis-IsConsistent :
      (classes : List (ℕ × (List ℕ × (ClassData × List (ℕ × (List ℕ × TokenData))))))
      (s t : State ClassData TokenData)
      → IsConsistent s
      → build_genesis cfg classes s ≡ some t
      → IsConsistent t
  unfolding build_genesis Option.bind
  build_genesis-IsConsistent [] s t k h = subst IsConsistent (ap (λ o. unwrap_or o s) h) k
  build_genesis-IsConsistent ((owner, (metadata, (properties, minted))) ∷ classes) s t k h =
      let r = create_class cfg owner metadata properties s in
      let (n, u, e, m) = rest r refl h in
      build_genesis-IsConsistent classes u t
        (mint_all-IsConsistent n minted r.1 u
          (create_class-IsConsistent cfg owner metadata properties s k) e)
        m
    where
      inner :
          (n : ℕ) (v : State ClassData TokenData) (o : Option (State ClassData TokenData))
          → mint_all cfg n minted v ≡ o
          → create_class cfg owner metadata properties s ≡ (ok n, v)
          → build_genesis cfg ((owner, (metadata, (properties, minted))) ∷ classes) s ≡ some t
          → (n : ℕ) × (u : State ClassData TokenData) × (mint_all cfg n minted v ≡ some u)
            × (build_genesis cfg classes u ≡ some t)
      inner n v none f e h = absurd (ground (arith, e, f))
      inner n v (some u) f e h = (n, u, f, ground (arith, e, f))

      rest :
          (r : Result Error ℕ × State ClassData TokenData)
          → create_class cfg owner metadata properties s ≡ r
          → build_genesis cfg ((owner, (metadata, (properties, minted))) ∷ classes) s ≡ some t
          → (n : ℕ) × (u : State ClassData TokenData) × (mint_all cfg n minted r.1 ≡ some u)
            × (build_genesis cfg classes u ≡ some t)
      rest (ok n, v) e h = inner n v (mint_all cfg n minted v) refl e h
      rest (err x, v) e h = absurd (ground (arith, e))

  -- After burning a token just minted
  pub record HasUndone (class_id : ℕ) (s t : State ClassData TokenData) : Type 0 where
    pub tokens : (c i : ℕ) → get (c, i) t.tokens ≡ get (c, i) s.tokens
    pub issuance : issuance_of (get class_id t.classes) ≡ issuance_of (get class_id s.classes)
    pub index :
        (o c i : ℕ)
        → is_some (get (o, (c, i)) t.tokens_by_owner) ≡ is_some (get (o, (c, i)) s.tokens_by_owner)
    pub next : next_token class_id t ≡ suc (next_token class_id s)

  -- If the index, the issuances and the next ids agree with the stored tokens, then after a mint
  -- that returns an id its owner can burn that token, which leaves the stored tokens, the index and
  -- the issuance of the class as before the mint, and the next id one higher.
  pub burn-mint :
      (owner class_id n : ℕ) (metadata : List ℕ) (properties : TokenData)
      (s : State ClassData TokenData)
      → IsConsistent s
      → (mint cfg owner class_id metadata properties s).0 ≡ ok n
      → ((burn owner class_id n (mint cfg owner class_id metadata properties s).1).0 ≡ ok tt)
        × HasUndone class_id s
            (burn owner class_id n (mint cfg owner class_id metadata properties s).1).1
  unfolding mint burn
  burn-mint owner class_id n metadata properties s k h = go (get class_id s.classes) refl
    where
      go :
          (q : Option (ClassInfo ClassData))
          → get class_id s.classes ≡ q
          → ((burn owner class_id n (mint cfg owner class_id metadata properties s).1).0 ≡ ok tt)
            × HasUndone class_id s
                (burn owner class_id n (mint cfg owner class_id metadata properties s).1).1
      go none f = absurd (ground (arith, f))
      go (some info) f =
          let id = next_token class_id s in
          let v : Option (TokenInfo TokenData) =
            some (record { metadata = metadata; owner = owner; properties = properties }) in
          let w : Option (ClassInfo ClassData) =
            some record info { total_issuance = info.total_issuance + 1 } in
          let u : State ClassData TokenData = record s {
            next_token_id = put class_id (some (id + 1)) s.next_token_id;
            classes = put class_id w s.classes;
            tokens = put (class_id, id) v s.tokens;
            tokens_by_owner = give owner class_id id s.tokens_by_owner;
          } in
          let t : State ClassData TokenData = record u {
            classes =
                put class_id (some record info { total_issuance = (info.total_issuance + 1) - 1 })
                  u.classes;
            tokens = put (class_id, id) none u.tokens;
            tokens_by_owner = take owner class_id id u.tokens_by_owner;
          } in
          let at : n ≡ id = ground (arith, f) in
          let minted : (mint cfg owner class_id metadata properties s).1 ≡ u = ground (arith, f) in
          let token : get (class_id, id) u.tokens ≡ v =
            ground (arith, get-put (class_id, id) (class_id, id) v s.tokens) in
          let class1 : get class_id u.classes ≡ w =
            ground (arith, get-put class_id class_id w s.classes) in
          let burnt : burn owner class_id id u ≡ (ok tt, t) = ground (arith, token, class1) in
          let unused : get (class_id, id) s.tokens ≡ none = ground (arith, k.ids class_id id) in
          rw (minted, at, burnt)
            (
              refl,
              record {
                tokens = λ c i. ground (
                  arith,
                  unused,
                  get-put (c, i) (class_id, id) none u.tokens,
                  get-put (c, i) (class_id, id) v s.tokens,
                );
                issuance = ground (
                  arith,
                  f,
                  get-put class_id class_id
                      (some record info { total_issuance = (info.total_issuance + 1) - 1 })
                      u.classes,
                );
                index = λ o c i. ground (
                  arith,
                  unused,
                  k.owners o c i,
                  get-put (o, (c, i)) (owner, (class_id, id)) none u.tokens_by_owner,
                  get-put (o, (c, i)) (owner, (class_id, id)) (some tt) s.tokens_by_owner,
                );
                next = ground (arith, get-put class_id class_id (some (id + 1)) s.next_token_id);
              },
            )
