-- ===== src/Nft/Consistent.antt =====
-- About the storage of the nft pallet (nft/src/lib.rs): owners, issuances and ids agree.
use open_runtime_module_libr.Nft.Calls.{next_token}
use open_runtime_module_libr.Storage.{get}
use open_runtime_module_libr.Prelude.{
  nat_eq, ◌⊎◌, ◌<◌, ◌≡◌, false, none, ◌==◌, some, is_some, if◌then◌else◌, Bool, ℕ, Option, pair_eq,
}
use open_runtime_module_libr.Storage.Sum.{total_of}
use open_runtime_module_libr.Nft.Types.{triple_eq, State, TokenInfo, ClassInfo}

abbrev pub owned_by : {TokenData : Type 0} → ℕ → Option (TokenInfo TokenData) → Bool
owned_by owner none = false
owned_by owner (some info) = info.owner == owner

abbrev pub issuance_of : {ClassData : Type 0} → Option (ClassInfo ClassData) → ℕ
issuance_of none = 0
issuance_of (some info) = info.total_issuance

abbrev pub in_class : {TokenData : Type 0} → ℕ → ℕ × ℕ → TokenInfo TokenData → ℕ
in_class class_id (c, t) info = if c == class_id then 1 else 0

module _ {ClassData TokenData : Type 0} where
  -- The index lists exactly the owners of tokens, the issuance of a class is the number of its tokens,
  -- and the next ids are above those in use.
  pub record IsConsistent (s : State ClassData TokenData) : Type 0 where
    pub owners :
        (owner class_id token_id : ℕ)
        → is_some (get (owner, (class_id, token_id)) s.tokens_by_owner)
          ≡ owned_by owner (get (class_id, token_id) s.tokens)
    pub issuances :
        (class_id : ℕ)
        → total_of (in_class class_id) s.tokens ≡ issuance_of (get class_id s.classes)
    pub ids :
        (class_id token_id : ℕ)
        → (token_id < next_token class_id s) ⊎ (get (class_id, token_id) s.tokens ≡ none)
    pub class_ids : (class_id : ℕ) → (class_id < s.next_class_id) ⊎ (get class_id s.classes ≡ none)
