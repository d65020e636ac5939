-- ===== src/Nft/Kept.antt =====
-- About the operations of the nft pallet (nft/src/lib.rs): each leaves owners, issuances and ids in
-- agreement.
use open_runtime_module_libr.Storage.{put, get}
use open_runtime_module_libr.Nft.Consistent.{in_class, IsConsistent}
use open_runtime_module_libr.Prelude.{
  refl, inr, none, ◌-◌, inl, not, leb, is_zero, ◌&&◌, ◌==◌, Bool-cases, some, arith, Option, ◌≡◌, ℕ,
  pair_eq, nat_eq,
}
use open_runtime_module_libr.Storage.Sum.{total_of-put, weigh-le-total_of}
use open_runtime_module_libr.Storage.Laws.{get-put}
use open_runtime_module_libr.Nft.Types.{triple_eq, State, TokenInfo, ClassInfo}
use open_runtime_module_libr.Nft.Calls.{give, destroy_class, transfer, burn, take}

module _ {ClassData TokenData : Type 0} where
  pub transfer-IsConsistent :
      (from to class_id token_id : ℕ) (s : State ClassData TokenData)
      → IsConsistent s
      → IsConsistent (transfer from to class_id token_id s).1
  unfolding transfer
  transfer-IsConsistent from to class_id token_id s k = go (get (class_id, token_id) s.tokens) refl
    where
      go :
          (o : Option (TokenInfo TokenData))
          → get (class_id, token_id) s.tokens ≡ o
          → IsConsistent (transfer from to class_id token_id s).1
      go none e =
          let same : (transfer from to class_id token_id s).1 ≡ s = ground (arith, e) in rw same k
      go (some info) e = elim (Bool-cases (info.owner == from && not (from == to))) [
        | inl moves ↦
            let v : Option (TokenInfo TokenData) = some record info { owner = to } in
            let taken = take from class_id token_id s.tokens_by_owner in
            let t : State ClassData TokenData = record s {
              tokens = put (class_id, token_id) v s.tokens;
              tokens_by_owner = give to class_id token_id taken;
            } in
            let same : (transfer from to class_id token_id s).1 ≡ t = ground (arith, e) in
            rw same (record {
              owners = λ o c i. ground (
                arith,
                e,
                k.owners o c i,
                get-put (c, i) (class_id, token_id) v s.tokens,
                get-put (o, (c, i)) (to, (class_id, token_id)) (some tt) taken,
                get-put (o, (c, i)) (from, (class_id, token_id)) none s.tokens_by_owner,
              );
              issuances = λ c. ground (
                arith,
                e,
                k.issuances c,
                total_of-put (in_class c) (class_id, token_id) v s.tokens,
              );
              ids = λ c i. ground (
                arith,
                e,
                k.ids c i,
                k.ids class_id token_id,
                get-put (c, i) (class_id, token_id) v s.tokens,
              );
              class_ids = k.class_ids;
            })
        | inr stays ↦
            let same : (transfer from to class_id token_id s).1 ≡ s = ground (arith, e) in rw same k
      ]

  pub burn-IsConsistent :
      (owner class_id token_id : ℕ) (s : State ClassData TokenData)
      → IsConsistent s
      → IsConsistent (burn owner class_id token_id s).1
  unfolding burn
  burn-IsConsistent owner class_id token_id s k =
      go (get (class_id, token_id) s.tokens) (get class_id s.classes) refl refl
    where
      stays :
          (burn owner class_id token_id s).1 ≡ s → IsConsistent (burn owner class_id token_id s).1
      stays same = rw same k

      go :
          (o : Option (TokenInfo TokenData)) (q : Option (ClassInfo ClassData))
          → get (class_id, token_id) s.tokens ≡ o
          → get class_id s.classes ≡ q
          → IsConsistent (burn owner class_id token_id s).1
      go none q e f = stays (ground (arith, e))
      go (some info) none e f = stays (ground (arith, e, f))
      go (some info) (some class1) e f =
          elim (Bool-cases (info.owner == owner && leb 1 class1.total_issuance)) [
            | inl burns ↦
                let w : Option (ClassInfo ClassData) =
                  some record class1 { total_issuance = class1.total_issuance - 1 } in
                let t : State ClassData TokenData = record s {
                  classes = put class_id w s.classes;
                  tokens = put (class_id, token_id) none s.tokens;
                  tokens_by_owner = take owner class_id token_id s.tokens_by_owner;
                } in
                let same : (burn owner class_id token_id s).1 ≡ t = ground (arith, e, f) in
                rw same (record {
                  owners = λ o c i. ground (
                    arith,
                    e,
                    k.owners o c i,
                    get-put (c, i) (class_id, token_id) none s.tokens,
                    get-put (o, (c, i)) (owner, (class_id, token_id)) none s.tokens_by_owner,
                  );
                  issuances = λ c. ground (
                    arith,
                    e,
                    f,
                    k.issuances c,
                    get-put c class_id w s.classes,
                    total_of-put (in_class c) (class_id, token_id) none s.tokens,
                  );
                  ids = λ c i.
                      ground (arith, k.ids c i, get-put (c, i) (class_id, token_id) none s.tokens);
                  class_ids = λ c. ground (
                    arith,
                    f,
                    k.class_ids c,
                    k.class_ids class_id,
                    get-put c class_id w s.classes,
                  );
                })
            | inr other ↦ stays (ground (arith, e, f))
          ]

  pub destroy_class-IsConsistent :
      (owner class_id : ℕ) (s : State ClassData TokenData)
      → IsConsistent s
      → IsConsistent (destroy_class owner class_id s).1
  unfolding destroy_class
  destroy_class-IsConsistent owner class_id s k = go (get class_id s.classes) refl
    where
      stays :
          (destroy_class owner class_id s).1 ≡ s → IsConsistent (destroy_class owner class_id s).1
      stays same = rw same k

      go :
          (q : Option (ClassInfo ClassData))
          → get class_id s.classes ≡ q
          → IsConsistent (destroy_class owner class_id s).1
      go none f = stays (ground (arith, f))
      go (some info) f = elim (Bool-cases (info.owner == owner && is_zero info.total_issuance)) [
        | inl destroys ↦
            let t : State ClassData TokenData = record s {
              classes = put class_id none s.classes;
              next_token_id = put class_id none s.next_token_id;
            } in
            let same : (destroy_class owner class_id s).1 ≡ t = ground (arith, f) in
            rw same (record {
              owners = k.owners;
              issuances = λ c. ground (arith, f, k.issuances c, get-put c class_id none s.classes);
              ids = λ c i. ground (
                arith,
                f,
                k.ids c i,
                k.issuances class_id,
                weigh-le-total_of (in_class class_id) (c, i) s.tokens,
                get-put c class_id none s.next_token_id,
              );
              class_ids = λ c. ground (arith, k.class_ids c, get-put c class_id none s.classes);
            })
        | inr other ↦ stays (ground (arith, f))
      ]
