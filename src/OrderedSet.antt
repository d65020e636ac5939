-- ===== src/OrderedSet.antt =====
-- `OrderedSet` (utilities/src/ordered_set.rs): a set as a sorted vector of bounded length. Elements are
-- natural numbers, and the slice methods of the standard library are modelled on lists: a binary search
-- in a sorted list is the search for the first element that is not less.
pub mod Lists
pub mod Refinement
mod Creation
mod Tests
use open_runtime_module_libr.Prelude.{
  length, false, ◌==◌, ltb, true, Bool, if◌then◌else◌, List, ℕ, [], ◌∷◌, zero, suc,
}

-- The result of `binary_search`.
pub data Search : Type 0 where
  found missing : ℕ → Search

abbrev pub next : Search → Search
next (found i) = found (suc i)
next (missing i) = missing (suc i)

unfoldable pub binary_search : (value : ℕ) → List ℕ → Search
binary_search value [] = missing 0
binary_search value (x ∷ set) =
    if x == value
    then found 0
    else if ltb value x
    then missing 0
    else next (binary_search value set)

-- `Vec::insert` and `Vec::remove` at an index that a search gave.
unfoldable pub insert_at : (loc value : ℕ) → List ℕ → List ℕ
insert_at zero value set = value ∷ set
insert_at (suc i) value [] = value ∷ []
insert_at (suc i) value (x ∷ set) = x ∷ insert_at i value set

unfoldable pub remove_at : (loc : ℕ) → List ℕ → List ℕ
remove_at i [] = []
remove_at zero (x ∷ set) = set
remove_at (suc i) (x ∷ set) = x ∷ remove_at i set

-- `Vec::sort` and `Vec::dedup`
unfoldable pub sort_in : ℕ → List ℕ → List ℕ
sort_in value [] = value ∷ []
sort_in value (x ∷ v) =
    let rest = sort_in value v in if ltb x value then x ∷ rest else value ∷ x ∷ v

unfoldable pub sort : List ℕ → List ℕ
sort [] = []
sort (x ∷ v) = sort_in x (sort v)

unfoldable pub dedup_after : ℕ → List ℕ → List ℕ
dedup_after last [] = []
dedup_after last (x ∷ v) =
    let same = dedup_after last v in
    let other = dedup_after x v in if x == last then same else x ∷ other

unfoldable pub dedup : List ℕ → List ℕ
dedup [] = []
dedup (x ∷ v) = x ∷ dedup_after x v

-- `OrderedSet::from`
unfoldable pub from : List ℕ → List ℕ
from bv = dedup (sort bv)

-- `OrderedSet::insert`, for a vector of at most `bound` elements
unfoldable pub insert : (bound value : ℕ) → List ℕ → Bool × List ℕ
insert bound value set = elim (binary_search value set) [
  | found _ ↦ (false, set)
  | missing loc ↦ if ltb (length set) bound then (true, insert_at loc value set) else (false, set)
]

-- `OrderedSet::remove`
unfoldable pub remove : (value : ℕ) → List ℕ → Bool × List ℕ
remove value set = elim (binary_search value set) [
  | found loc ↦ (true, remove_at loc set)
  | missing _ ↦ (false, set)
]

-- `OrderedSet::contains`
unfoldable pub contains : (value : ℕ) → List ℕ → Bool
contains value set = elim (binary_search value set) [ found _ ↦ true | missing _ ↦ false ]

-- `OrderedSet::clear`
abbrev pub clear : List ℕ → List ℕ
clear set = []
