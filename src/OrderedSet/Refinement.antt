-- ===== src/OrderedSet/Refinement.antt =====
-- About the operations of an ordered set (utilities/src/ordered_set.rs) against sets as predicates.
use open_runtime_module_libr.OrderedSet.Lists.{
  length-dropped, dropped-IsSorted, dropped-member, length-placed, placed-IsSorted, placed-member,
  remove_found-dropped, insert_found-placed, placed, search-member, dropped, IsSorted, member,
}
use open_runtime_module_libr.Prelude.{
  ◌≤◌, not, ◌&&◌, length, subst, inr, inl, Bool-cases, ltb, if◌then◌else◌, ◌||◌, ◌==◌, arith, refl,
  true, false, Bool, ◌≡◌, ℕ, List,
}
use open_runtime_module_libr.OrderedSet.{
  contains, remove, insert, Search, found, missing, binary_search, binary_search, missing, found,
  Search,
}

pub data Call : Type 0 where
  inserting removing asking : ℕ → Call

-- A call of the code: its answer and the set after it.
abbrev pub call : (bound : ℕ) → Call → List ℕ → Bool × List ℕ
call bound (inserting v) set = insert bound v set
call bound (removing v) set = remove v set
call bound (asking v) set = (contains v set, set)

-- What a set answers, and whether `w` is a member after the call.
abbrev pub answer : (bound : ℕ) → Call → List ℕ → Bool
answer bound (inserting v) set = not (member v set) && ltb (length set) bound
answer bound (removing v) set = member v set
answer bound (asking v) set = member v set

abbrev pub member_after : (bound : ℕ) → Call → ℕ → List ℕ → Bool
member_after bound (inserting v) w set = member w set || (v == w && ltb (length set) bound)
member_after bound (removing v) w set = not (v == w) && member w set
member_after bound (asking v) w set = member w set

pub record Refines (bound : ℕ) (c : Call) (set : List ℕ) : Type 0 where
  pub answers : (call bound c set).0 ≡ answer bound c set
  pub members : (w : ℕ) → member w (call bound c set).1 ≡ member_after bound c w set
  pub sorted : IsSorted (call bound c set).1
  pub fits : length (call bound c set).1 ≤ bound

same_member : (v w : ℕ) (set : List ℕ) → (v == w) ≡ true → member w set ≡ member v set
same_member v w set h =
    let same : v ≡ w = ground arith in subst (λ u. member u set ≡ member v set) same refl

insert-eq :
    (bound v : ℕ) (set : List ℕ)
    → IsSorted set
    → insert bound v set ≡ (
        if not (member v set) && ltb (length set) bound then (true, placed v set) else (false, set))
unfolding insert
insert-eq bound v set s = go (binary_search v set) refl
  where
    go :
        (r : Search)
        → binary_search v set ≡ r
        → insert bound v set ≡ (
            if not (member v set) && ltb (length set) bound
            then (true, placed v set)
            else (false, set))
    go (found i) e = ground (arith, search-member v set s)
    go (missing i) e = ground (arith, search-member v set s, insert_found-placed v set)

remove-eq : (v : ℕ) (set : List ℕ) → IsSorted set → remove v set ≡ (member v set, dropped v set)
unfolding remove
remove-eq v set s = go (binary_search v set) refl
  where
    go : (r : Search) → binary_search v set ≡ r → remove v set ≡ (member v set, dropped v set)
    go (found i) e = ground (arith, search-member v set s, remove_found-dropped v set s)
    go (missing i) e = ground (arith, search-member v set s, remove_found-dropped v set s)

contains-member : (v : ℕ) (set : List ℕ) → IsSorted set → contains v set ≡ member v set
unfolding contains
contains-member v set s = go (binary_search v set) refl
  where
    go : (r : Search) → binary_search v set ≡ r → contains v set ≡ member v set
    go (found i) e = ground (arith, search-member v set s)
    go (missing i) e = ground (arith, search-member v set s)

-- On a sorted list within the bound, insert, remove and contains answer and change the members as
-- on a set, where an insertion beyond the bound is refused, and leave the list sorted and within
-- the bound.
pub call-Refines :
    (bound : ℕ) (c : Call) (set : List ℕ) → IsSorted set → length set ≤ bound → Refines bound c set
call-Refines bound (inserting v) set s fits =
    elim (Bool-cases (not (member v set) && ltb (length set) bound)) [
      | inl goes ↦
          let same : insert bound v set ≡ (true, placed v set) =
            ground (arith, insert-eq bound v set s) in
          record {
            answers = ground arith;
            members = λ w. ground (arith, placed-member v w set);
            sorted = rw same (placed-IsSorted v set s);
            fits = ground (arith, length-placed v set s);
          }
      | inr stays ↦
          let same : insert bound v set ≡ (false, set) = ground (arith, insert-eq bound v set s) in
          record {
            answers = ground arith;
            members = λ w. rw same (ground (arith, same_member v w set));
            sorted = rw same s;
            fits = rw same fits;
          }
    ]
call-Refines bound (removing v) set s fits =
    let same = remove-eq v set s in
    record {
      answers = ground (arith, same);
      members = λ w. ground (arith, same, dropped-member v w set s);
      sorted = rw same (dropped-IsSorted v set s);
      fits = ground (arith, same, length-dropped v set);
    }
call-Refines bound (asking v) set s fits = record {
  answers = contains-member v set s;
  members = λ w. refl;
  sorted = s;
  fits = fits;
}
