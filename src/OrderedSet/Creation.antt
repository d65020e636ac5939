-- ===== src/OrderedSet/Creation.antt =====
-- About the creation of an ordered set from a vector (`from` of utilities/src/ordered_set.rs).
use open_runtime_module_libr.Prelude.{
  subst, inr, inl, ltb, refl, ◌||◌, ◌==◌, ◌≡◌, arith, ◌≤◌, Bool-cases, ℕ, List, [], ◌∷◌,
}
use open_runtime_module_libr.OrderedSet.{from, sort, sort_in, dedup, dedup_after}
use open_runtime_module_libr.OrderedSet.Lists.{member, IsSorted}

-- In ascending order from `n` on, with repetitions.
abbrev IsAscending : ℕ → List ℕ → Type 0
IsAscending n [] = Unit
IsAscending n (x ∷ v) = (n ≤ x) × IsAscending x v

sort_in-IsAscending :
    (n value : ℕ) (v : List ℕ) → n ≤ value → IsAscending n v → IsAscending n (sort_in value v)
unfolding sort_in
sort_in-IsAscending n value [] le a = (le, tt)
sort_in-IsAscending n value (x ∷ v) le (lx, a) = elim (Bool-cases (ltb x value)) [
  | inl after ↦ rw after (lx, sort_in-IsAscending x value v (ground arith) a)
  | inr before ↦ rw before (le, (ground arith, a))
]

sort-IsAscending : (v : List ℕ) → IsAscending 0 (sort v)
unfolding sort
sort-IsAscending [] = tt
sort-IsAscending (x ∷ v) = sort_in-IsAscending 0 x (sort v) (omega arith) (sort-IsAscending v)

sort_in-member :
    (w value : ℕ) (v : List ℕ) → member w (sort_in value v) ≡ (value == w || member w v)
unfolding sort_in
sort_in-member w value [] = refl
sort_in-member w value (x ∷ v) = ground (arith, sort_in-member w value v)

sort-member : (w : ℕ) (v : List ℕ) → member w (sort v) ≡ member w v
unfolding sort
sort-member w [] = refl
sort-member w (x ∷ v) = ground (arith, sort_in-member w x (sort v), sort-member w v)

-- What follows `last` is above it and rises strictly.
dedup_after-IsSorted :
    (last : ℕ) (v : List ℕ) → IsAscending last v → IsSorted (last ∷ dedup_after last v)
unfolding dedup_after
dedup_after-IsSorted last [] a = (tt, tt)
dedup_after-IsSorted last (x ∷ v) (le, a) = elim (Bool-cases (x == last)) [
  | inl same ↦
      let at : x ≡ last = ground arith in
      rw same (dedup_after-IsSorted last v (subst (λ y. IsAscending y v) at a))
  | inr other ↦ rw other (ground arith, dedup_after-IsSorted x v a)
]

dedup_after-member :
    (w last : ℕ) (v : List ℕ)
    → (last == w || member w (dedup_after last v)) ≡ (last == w || member w v)
unfolding dedup_after
dedup_after-member w last [] = refl
dedup_after-member w last (x ∷ v) =
    ground (arith, dedup_after-member w last v, dedup_after-member w x v)

dedup-IsSorted : (n : ℕ) (v : List ℕ) → IsAscending n v → IsSorted (dedup v)
unfolding dedup
dedup-IsSorted n [] a = tt
dedup-IsSorted n (x ∷ v) (le, a) = dedup_after-IsSorted x v a

dedup-member : (w : ℕ) (v : List ℕ) → member w (dedup v) ≡ member w v
unfolding dedup
dedup-member w [] = refl
dedup-member w (x ∷ v) = dedup_after-member w x v

-- The set made from a vector is sorted without repetition and has the same members.
pub from-IsSorted :
    (bv : List ℕ) → IsSorted (from bv) × ((w : ℕ) → member w (from bv) ≡ member w bv)
unfolding from
from-IsSorted bv = (
  dedup-IsSorted 0 (sort bv) (sort-IsAscending bv),
  λ w. ground (arith, dedup-member w (sort bv), sort-member w bv),
)
