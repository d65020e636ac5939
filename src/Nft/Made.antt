-- ===== src/Nft/Made.antt =====
-- About new classes and tokens of the nft pallet (`create_class` and `mint` of nft/src/lib.rs).
use open_runtime_module_libr.Storage.{put, get}
use open_runtime_module_libr.Nft.Consistent.{in_class, IsConsistent}
use open_runtime_module_libr.Prelude.{
  refl, inr, none, inl, some, ◌+◌, ◌&&◌, arith, length, leb, Option, ◌≡◌, Bool-cases, List, ℕ,
  pair_eq, nat_eq,
}
use open_runtime_module_libr.Storage.Sum.{total_of-put}
use open_runtime_module_libr.Storage.Laws.{get-put}
use open_runtime_module_libr.Nft.Types.{triple_eq, State, TokenInfo, ClassInfo, Config}
use open_runtime_module_libr.Nft.Calls.{mint, create_class, give, next_token}

module _ {ClassData TokenData : Type 0} (cfg : Config) where
  pub create_class-IsConsistent :
      (owner : ℕ) (metadata : List ℕ) (properties : ClassData) (s : State ClassData TokenData)
      → IsConsistent s
      → IsConsistent (create_class cfg owner metadata properties s).1
  unfolding create_class
  create_class-IsConsistent owner metadata properties s k =
      let id = s.next_class_id in
      elim (Bool-cases
        (leb (length metadata) cfg.max_class_metadata && leb (id + 1) cfg.max_class_id)) [
          | inl made ↦
              let w : Option (ClassInfo ClassData) = some (record {
                metadata = metadata;
                total_issuance = 0;
                owner = owner;
                properties = properties;
              }) in
              let t : State ClassData TokenData = record s {
                next_class_id = id + 1;
                classes = put id w s.classes;
              } in
              let same : (create_class cfg owner metadata properties s).1 ≡ t = ground arith in
              rw same (record {
                owners = k.owners;
                issuances =
                    λ c. ground (arith, k.issuances c, k.class_ids id, get-put c id w s.classes);
                ids = k.ids;
                class_ids = λ c. ground (arith, k.class_ids c, get-put c id w s.classes);
              })
          | inr refused ↦
              let same : (create_class cfg owner metadata properties s).1 ≡ s = ground arith in
              rw same k
        ]

  pub mint-IsConsistent :
      (owner class_id : ℕ) (metadata : List ℕ) (properties : TokenData)
      (s : State ClassData TokenData)
      → IsConsistent s
      → IsConsistent (mint cfg owner class_id metadata properties s).1
  unfolding mint
  mint-IsConsistent owner class_id metadata properties s k = go (get class_id s.classes) refl
    where
      stays :
          (mint cfg owner class_id metadata properties s).1 ≡ s
          → IsConsistent (mint cfg owner class_id metadata properties s).1
      stays same = rw same k

      go :
          (q : Option (ClassInfo ClassData))
          → get class_id s.classes ≡ q
          → IsConsistent (mint cfg owner class_id metadata properties s).1
      go none f = stays (ground (arith, f))
      go (some info) f =
          let id = next_token class_id s in
          elim (Bool-cases (
            leb (length metadata) cfg.max_token_metadata
            && (leb (id + 1) cfg.max_token_id && leb (info.total_issuance + 1) cfg.max_token_id))) [
              | inl mints ↦
                  let v : Option (TokenInfo TokenData) =
                    some (record { metadata = metadata; owner = owner; properties = properties }) in
                  let w : Option (ClassInfo ClassData) =
                    some record info { total_issuance = info.total_issuance + 1 } in
                  let t : State ClassData TokenData = record s {
                    next_token_id = put class_id (some (id + 1)) s.next_token_id;
                    classes = put class_id w s.classes;
                    tokens = put (class_id, id) v s.tokens;
                    tokens_by_owner = give owner class_id id s.tokens_by_owner;
                  } in
                  let same : (mint cfg owner class_id metadata properties s).1 ≡ t =
                    ground (arith, f) in
                  let unused : get (class_id, id) s.tokens ≡ none =
                    ground (arith, k.ids class_id id) in
                  rw same (record {
                    owners = λ o c i. ground (
                      arith,
                      unused,
                      k.owners o c i,
                      get-put (c, i) (class_id, id) v s.tokens,
                      get-put (o, (c, i)) (owner, (class_id, id)) (some tt) s.tokens_by_owner,
                    );
                    issuances = λ c. ground (
                      arith,
                      unused,
                      f,
                      k.issuances c,
                      get-put c class_id w s.classes,
                      total_of-put (in_class c) (class_id, id) v s.tokens,
                    );
                    ids = λ c i. ground (
                      arith,
                      k.ids c i,
                      get-put (c, i) (class_id, id) v s.tokens,
                      get-put c class_id (some (id + 1)) s.next_token_id,
                    );
                    class_ids = λ c. ground (
                      arith,
                      f,
                      k.class_ids c,
                      k.class_ids class_id,
                      get-put c class_id w s.classes,
                    );
                  })
              | inr other ↦ stays (ground (arith, f))
            ]
