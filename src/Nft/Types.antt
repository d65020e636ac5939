-- ===== src/Nft/Types.antt =====
-- Data of the nft pallet (nft/src/lib.rs), for any data of classes and of tokens.
use open_runtime_module_libr.Storage.{Map}
use open_runtime_module_libr.Prelude.{arith, ◌&&◌, ◌↔◌, ◌==◌, true, Bool, ◌≡◌, List, ℕ, Eq}

pub record ClassInfo (ClassData : Type 0) : Type 0 where
  pub metadata : List ℕ
  pub total_issuance : ℕ
  pub owner : ℕ
  pub properties : ClassData

pub record TokenInfo (TokenData : Type 0) : Type 0 where
  pub metadata : List ℕ
  pub owner : ℕ
  pub properties : TokenData

-- The errors of the pallet, and `ArithmeticError::Overflow`.
pub data Error : Type 0 where
  no_available_class_id no_available_token_id token_not_found class_not_found : Error
  no_permission cannot_destroy_class max_metadata_exceeded overflow : Error

abbrev pub triple_beq : ℕ × (ℕ × ℕ) → ℕ × (ℕ × ℕ) → Bool
triple_beq (a, (b, c)) (d, (e, f)) = a == d && (b == e && c == f)

pub triple_beq_iff : (p q : ℕ × (ℕ × ℕ)) → (triple_beq p q ≡ true) ↔ (p ≡ q)
triple_beq_iff (a, (b, c)) (d, (e, f)) = ground arith

instance abbrev pub triple_eq : Eq (ℕ × (ℕ × ℕ))
triple_eq = record { beq = triple_beq; beq_iff = triple_beq_iff }

-- A token is named by its class and its id; `tokens_by_owner` by owner, class and id.
pub record State (ClassData TokenData : Type 0) : Type 0 where
  pub next_class_id : ℕ
  pub next_token_id : Map ℕ ℕ
  pub classes : Map ℕ (ClassInfo ClassData)
  pub tokens : Map (ℕ × ℕ) (TokenInfo TokenData)
  pub tokens_by_owner : Map (ℕ × (ℕ × ℕ)) (Unit {0})

pub record Config : Type 0 where
  pub max_class_id : ℕ
  pub max_token_id : ℕ
  pub max_class_metadata : ℕ
  pub max_token_metadata : ℕ
