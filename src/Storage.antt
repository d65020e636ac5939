-- ===== src/Storage.antt =====
-- A storage map of the runtime (`StorageMap`, `StorageDoubleMap`) as an association list. A removed
-- key keeps its place with no value, so a key is listed once.
pub mod Sum
pub mod Laws
use open_runtime_module_libr.Prelude.{
  ℕ, ◌≡◌, refl, Bool, true, false, Option, none, some, List, [], ◌∷◌, arith, if◌then◌else◌, Eq,
  Bool-cases, inl, inr, is_some, unwrap_or, ==_iff,
}

abbrev pub Map {ℓ κ} : Type ℓ → Type κ → Type (ℓ ⊔ κ)
Map K V = List (K × Option V)

module _ {ℓ κ} {K : Type ℓ} {V : Type κ} ⦃e : Eq K⦄ where
  abbrev pub get : K → Map K V → Option V
  get k [] = none
  get k ((j, v) ∷ m) = if e.beq j k then v else get k m

  -- Write a value, or remove the key by `none`.
  abbrev pub put : K → Option V → Map K V → Map K V
  put k v [] = (k, v) ∷ []
  put k v ((j, w) ∷ m) = if e.beq j k then (k, v) ∷ m else (j, w) ∷ put k v m
