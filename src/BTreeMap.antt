-- ===== src/BTreeMap.antt =====
-- `BTreeMap` with natural numbers for keys: an association list in ascending order of its keys.
use open_runtime_module_libr.Prelude.{
  refl, [], arith, ◌==◌, some, if◌then◌else◌, none, Option, ◌≡◌, ◌∷◌, List, ℕ, ltb,
}

abbrev pub BTreeMap {ℓ} : Type ℓ → Type ℓ
BTreeMap V = List (ℕ × V)

module _ {ℓ} {V : Type ℓ} where
  abbrev pub lookup : ℕ → BTreeMap V → Option V
  lookup k [] = none
  lookup k ((j, v) ∷ m) = if j == k then some v else lookup k m

  abbrev pub insert : ℕ → V → BTreeMap V → BTreeMap V
  insert k v [] = (k, v) ∷ []
  insert k v ((j, w) ∷ m) =
      let rest = insert k v m in
      if ltb k j then (k, v) ∷ (j, w) ∷ m else if k == j then (k, v) ∷ m else (j, w) ∷ rest

  abbrev pub remove : ℕ → BTreeMap V → BTreeMap V
  remove k [] = []
  remove k ((j, w) ∷ m) = let rest = remove k m in if j == k then m else (j, w) ∷ rest

  -- `entry(key).and_modify(f).or_insert(d)`
  abbrev pub upsert : ℕ → (V → V) → V → BTreeMap V → BTreeMap V
  upsert k f d m = insert k (elim (lookup k m) [ none ↦ d | some v ↦ f v ]) m

  pub lookup-insert :
      (j k : ℕ) (v : V) (m : BTreeMap V)
      → lookup j (insert k v m) ≡ (if k == j then some v else lookup j m)
  lookup-insert j k v [] = refl
  lookup-insert j k v ((i, w) ∷ m) = ground (arith, lookup-insert j k v m)
