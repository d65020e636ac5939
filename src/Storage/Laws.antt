-- ===== src/Storage/Laws.antt =====
-- Lookup laws of a storage map, for every key type with an equality test.
use open_runtime_module_libr.Prelude.{◌≡◌, refl, Option, [], ◌∷◌, arith, if◌then◌else◌, Eq}
use open_runtime_module_libr.Storage.{Map, get, put}

module _ {ℓ κ} {K : Type ℓ} {V : Type κ} ⦃e : Eq K⦄ where
  -- What a key holds after a write.
  pub get-put :
      (j k : K) (v : Option V) (m : Map K V)
      → get j (put k v m) ≡ (if e.beq k j then v else get j m)
  get-put j k v [] = refl
  get-put j k v ((i, w) ∷ m) =
      ground (arith, e.beq_iff i k, e.beq_iff k j, e.beq_iff i j, get-put j k v m)
