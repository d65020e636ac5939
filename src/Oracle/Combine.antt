-- ===== src/Oracle/Combine.antt =====
-- `DefaultCombineData` (oracle/src/default_combine_data.rs): the median of the values that have not
-- expired. `select_nth_unstable_by` of the standard library is modelled by a stable sort by value.
use open_runtime_module_libr.Numeric.{saturating_add}
use open_runtime_module_libr.Prelude.{
  ◌%◌, ◌^◌, ◌/◌, is_zero, some, ◌||◌, length, ltb, none, Option, retain, if◌then◌else◌, List, ℕ, [],
  ◌∷◌, zero, suc,
}
use open_runtime_module_libr.Oracle.Types.{TimestampedValue}

unfoldable pub sort_in : TimestampedValue → List TimestampedValue → List TimestampedValue
sort_in x [] = x ∷ []
sort_in x (y ∷ v) = let rest = sort_in x v in if ltb y.value x.value then y ∷ rest else x ∷ y ∷ v

unfoldable pub sort_by_value : List TimestampedValue → List TimestampedValue
sort_by_value [] = []
sort_by_value (x ∷ v) = sort_in x (sort_by_value v)

unfoldable pub nth : ℕ → List TimestampedValue → Option TimestampedValue
nth n [] = none
nth zero (x ∷ v) = some x
nth (suc n) (x ∷ v) = nth n v

-- The values that have not expired
abbrev pub unexpired :
    (max_moment expires_in now : ℕ) → List TimestampedValue → List TimestampedValue
unexpired max_moment expires_in now values =
    retain (λ x. ltb now (saturating_add max_moment x.timestamp expires_in)) values

-- `DefaultCombineData::combine_data`, with the count as a `u32`; `nth` is `none` where the selection would panic.
unfoldable pub combine_data :
    (max_moment minimum_count expires_in now : ℕ)
    → List TimestampedValue
    → (prev_value : Option TimestampedValue) → Option TimestampedValue
combine_data max_moment minimum_count expires_in now values prev_value =
    let fresh = unexpired max_moment expires_in now values in
    let count = length fresh % 2 ^ 32 in
    if ltb count minimum_count || is_zero count
    then prev_value
    else nth (count / 2) (sort_by_value fresh)
