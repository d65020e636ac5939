-- ===== src/OrderedSet/Tests.antt =====
-- Ordered sets on concrete data.
use open_runtime_module_libr.Prelude.{arith, ℕ, refl, ◌≡◌, [], ◌∷◌}
use open_runtime_module_libr.OrderedSet.{from, sort, sort_in, dedup, dedup_after}
use open_runtime_module_libr.OrderedSet.Refinement.{inserting, Refines, call-Refines}
use open_runtime_module_libr.OrderedSet.Lists.{member, IsSorted}
use open_runtime_module_libr.OrderedSet.Creation.{from-IsSorted}

call-Refines_example : Refines 4 (inserting 3) (1 ∷ 5 ∷ [])
call-Refines_example =
    call-Refines 4 (inserting 3) (1 ∷ 5 ∷ []) (omega arith, (tt, tt)) (omega arith)

from-IsSorted_example :
    IsSorted (from (4 ∷ 2 ∷ 4 ∷ []))
    × ((w : ℕ) → member w (from (4 ∷ 2 ∷ 4 ∷ [])) ≡ member w (4 ∷ 2 ∷ 4 ∷ []))
from-IsSorted_example = from-IsSorted (4 ∷ 2 ∷ 4 ∷ [])

from_sorts : from (4 ∷ 2 ∷ 3 ∷ 4 ∷ 3 ∷ 1 ∷ []) ≡ 1 ∷ 2 ∷ 3 ∷ 4 ∷ []
unfolding from sort sort_in dedup dedup_after
from_sorts = refl
