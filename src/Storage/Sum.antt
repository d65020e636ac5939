-- ===== src/Storage/Sum.antt =====
-- Sums over the values of a storage map.
use open_runtime_module_libr.Prelude.{
  false, ℕ, ◌+◌, ◌≡◌, ◌≤◌, Option, none, some, [], ◌∷◌, arith, Eq,
}
use open_runtime_module_libr.Storage.{Map, get, put}

module _ {ℓ κ} {K : Type ℓ} {V : Type κ} (weight : K → V → ℕ) where
  -- What one entry adds to a sum; a removed entry adds nothing.
  abbrev pub weigh : K → Option V → ℕ
  weigh k none = 0
  weigh k (some v) = weight k v

  unfoldable pub total_of : Map K V → ℕ
  total_of [] = 0
  total_of ((k, v) ∷ m) = weigh k v + total_of m

module _ {ℓ κ} {K : Type ℓ} {V : Type κ} ⦃e : Eq K⦄ (weight : K → V → ℕ) where
  -- A write exchanges the weight of the old entry for that of the new one.
  pub total_of-put :
      (k : K) (v : Option V) (m : Map K V)
      → total_of weight (put k v m) + weigh weight k (get k m)
        ≡ total_of weight m + weigh weight k v
  unfolding total_of
  total_of-put k v [] = omega arith
  total_of-put k v ((i, w) ∷ m) = ground (arith, e.beq_iff i k, total_of-put k v m)

  -- No entry outweighs the whole map.
  pub weigh-le-total_of : (k : K) (m : Map K V) → weigh weight k (get k m) ≤ total_of weight m
  unfolding total_of
  weigh-le-total_of k [] = omega arith
  weigh-le-total_of k ((i, w) ∷ m) = ground (arith, e.beq_iff i k, weigh-le-total_of k m)

  -- Nor do the entries of two keys together.
  pub two-le-total_of :
      (j k : K) (m : Map K V)
      → e.beq j k ≡ false
      → weigh weight j (get j m) + weigh weight k (get k m) ≤ total_of weight m
  unfolding total_of
  two-le-total_of j k [] h = omega arith
  two-le-total_of j k ((i, w) ∷ m) h = ground (
    arith,
    e.beq_iff i k,
    e.beq_iff i j,
    e.beq_iff j k,
    two-le-total_of j k m h,
    weigh-le-total_of j m,
    weigh-le-total_of k m,
  )
