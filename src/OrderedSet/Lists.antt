-- ===== src/OrderedSet/Lists.antt =====
-- About sorted lists (utilities/src/ordered_set.rs): searching, inserting and removing at an index against
-- membership.
use open_runtime_module_libr.Prelude.{
  suc, ◌≤◌, length, subst, inr, inl, Bool-cases, ltb, if◌then◌else◌, ◌||◌, ◌==◌, arith, refl, true,
  false, Bool, ◌<◌, ◌≡◌, ℕ, List, [], ◌∷◌,
}
use open_runtime_module_libr.OrderedSet.{
  Search, found, missing, next, binary_search, insert_at, remove_at, binary_search, remove_at,
  missing, found, next, Search,
}

abbrev pub member : ℕ → List ℕ → Bool
member v [] = false
member v (x ∷ set) = x == v || member v set

abbrev IsBelow : ℕ → List ℕ → Type 0
IsBelow n [] = Unit
IsBelow n (x ∷ set) = n < x

abbrev pub IsSorted : List ℕ → Type 0
IsSorted [] = Unit
IsSorted (x ∷ set) = IsBelow x set × IsSorted set

-- What is below the first element is no member.
below_member : (v : ℕ) (set : List ℕ) → IsSorted set → IsBelow v set → member v set ≡ false
below_member v [] s b = refl
below_member v (x ∷ []) s b = ground arith
below_member v (x ∷ y ∷ set) (lt, s) b = ground (arith, below_member v (y ∷ set) s (omega arith))

abbrev is_found : Search → Bool
is_found (found i) = true
is_found (missing i) = false

next_found : (r : Search) → is_found (next r) ≡ is_found r
next_found (found i) = refl
next_found (missing i) = refl

pub search-member :
    (v : ℕ) (set : List ℕ) → IsSorted set → is_found (binary_search v set) ≡ member v set
unfolding binary_search
search-member v [] s = refl
search-member v (x ∷ set) (b, s) = ground (
  arith,
  next_found (binary_search v set),
  search-member v set s,
  below_member v (x ∷ set) (b, s),
)

-- The same in one pass: with `v` in its place, and without `v`.
abbrev pub placed : ℕ → List ℕ → List ℕ
placed v [] = v ∷ []
placed v (x ∷ set) =
    let rest = placed v set in if x == v then x ∷ set else if ltb v x then v ∷ x ∷ set else x ∷ rest

abbrev pub dropped : ℕ → List ℕ → List ℕ
dropped v [] = []
dropped v (x ∷ set) = let rest = dropped v set in if x == v then set else x ∷ rest

abbrev insert_found : ℕ → Search → List ℕ → List ℕ
insert_found v (found i) set = set
insert_found v (missing i) set = insert_at i v set

abbrev remove_found : Search → List ℕ → List ℕ
remove_found (found i) set = remove_at i set
remove_found (missing i) set = set

next_insert :
    (v x : ℕ) (r : Search) (set : List ℕ)
    → insert_found v (next r) (x ∷ set) ≡ x ∷ insert_found v r set
unfolding insert_at
next_insert v x (found i) set = refl
next_insert v x (missing i) set = refl

next_remove :
    (x : ℕ) (r : Search) (set : List ℕ) → remove_found (next r) (x ∷ set) ≡ x ∷ remove_found r set
unfolding remove_at
next_remove x (found i) set = refl
next_remove x (missing i) set = refl

pub insert_found-placed :
    (v : ℕ) (set : List ℕ) → insert_found v (binary_search v set) set ≡ placed v set
unfolding binary_search insert_at
insert_found-placed v [] = refl
insert_found-placed v (x ∷ set) =
    ground (arith, next_insert v x (binary_search v set) set, insert_found-placed v set)

dropped-below : (v : ℕ) (set : List ℕ) → member v set ≡ false → dropped v set ≡ set
dropped-below v [] h = refl
dropped-below v (x ∷ set) h = ground (arith, dropped-below v set)

pub remove_found-dropped :
    (v : ℕ) (set : List ℕ) → IsSorted set → remove_found (binary_search v set) set ≡ dropped v set
unfolding binary_search remove_at
remove_found-dropped v [] s = refl
remove_found-dropped v (x ∷ set) (b, s) = elim (Bool-cases (x == v)) [
  | inl here ↦ ground arith
  | inr away ↦ elim (Bool-cases (ltb v x)) [
    | inl early ↦
        let gone : member v set ≡ false = ground (arith, below_member v (x ∷ set) (b, s)) in
        let same = dropped-below v set gone in ground arith
    | inr late ↦
        ground (arith, next_remove x (binary_search v set) set, remove_found-dropped v set s)
  ]
]

placed-IsBelow : (v n : ℕ) (set : List ℕ) → n < v → IsBelow n set → IsBelow n (placed v set)
placed-IsBelow v n [] lt b = lt
placed-IsBelow v n (x ∷ set) lt b = ground arith

pub placed-IsSorted : (v : ℕ) (set : List ℕ) → IsSorted set → IsSorted (placed v set)
placed-IsSorted v [] s = (tt, tt)
placed-IsSorted v (x ∷ set) (b, s) = ground (arith, placed-IsSorted v set s, placed-IsBelow v x set)

pub placed-member : (v w : ℕ) (set : List ℕ) → member w (placed v set) ≡ (v == w || member w set)
placed-member v w [] = refl
placed-member v w (x ∷ set) = ground (arith, placed-member v w set)

dropped-IsBelow :
    (v n : ℕ) (set : List ℕ) → IsSorted set → IsBelow n set → IsBelow n (dropped v set)
dropped-IsBelow v n [] s b = tt
dropped-IsBelow v n (x ∷ []) s b = ground arith
dropped-IsBelow v n (x ∷ y ∷ set) (lt, s) b = ground arith

pub dropped-IsSorted : (v : ℕ) (set : List ℕ) → IsSorted set → IsSorted (dropped v set)
dropped-IsSorted v [] s = tt
dropped-IsSorted v (x ∷ set) (b, s) =
    ground (arith, dropped-IsSorted v set s, dropped-IsBelow v x set s b)

pub dropped-member :
    (v w : ℕ) (set : List ℕ)
    → IsSorted set
    → member w (dropped v set) ≡ (if v == w then false else member w set)
dropped-member v w [] s = ground arith
dropped-member v w (x ∷ set) (b, s) = elim (Bool-cases (x == v)) [
  | inl here ↦ elim (Bool-cases (x == w)) [
    | inl also ↦
        let gone : member x set ≡ false = below_member x set s b in
        let same : x ≡ w = ground arith in
        let absent : member w set ≡ false = subst (λ y. member y set ≡ false) same gone in
        ground arith
    | inr other ↦ ground arith
  ]
  | inr away ↦ ground (arith, dropped-member v w set s)
]

pub length-placed :
    (v : ℕ) (set : List ℕ)
    → IsSorted set
    → length (placed v set) ≡ (if member v set then length set else suc (length set))
length-placed v [] s = refl
length-placed v (x ∷ set) (b, s) = elim (Bool-cases (ltb v x)) [
  | inl early ↦
      let gone : member v (x ∷ set) ≡ false = below_member v (x ∷ set) (b, s) (ground arith) in
      let other : (x == v) ≡ false = ground arith in rw (gone, other, early) refl
  | inr late ↦ ground (arith, length-placed v set s)
]

pub length-dropped : (v : ℕ) (set : List ℕ) → length (dropped v set) ≤ length set
length-dropped v [] = omega arith
length-dropped v (x ∷ set) = ground (arith, length-dropped v set)
