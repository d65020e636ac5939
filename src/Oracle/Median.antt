-- ===== src/Oracle/Median.antt =====
-- About the combined value (oracle/src/default_combine_data.rs): it is a median.
use open_runtime_module_libr.Prelude.{
  ◌⊎◌, ◌+◌, length, some, ltb, leb, Option, ◌*◌, ◌<◌, ◌≡◌, if◌then◌else◌, ◌≤◌, List, ℕ, [], ◌∷◌,
}
use open_runtime_module_libr.Oracle.Types.{TimestampedValue}

-- How many values are below a bound, and how many are not above it.
abbrev pub below : ℕ → List TimestampedValue → ℕ
below b [] = 0
below b (x ∷ v) = (if ltb x.value b then 1 else 0) + below b v

abbrev pub up_to : ℕ → List TimestampedValue → ℕ
up_to b [] = 0
up_to b (x ∷ v) = (if leb x.value b then 1 else 0) + up_to b v

-- In ascending order from `n` on.
abbrev IsAscending : ℕ → List TimestampedValue → Type 0
IsAscending n [] = Unit
IsAscending n (x ∷ v) = (n ≤ x.value) × IsAscending x.value v

-- Half of the values are not above it, and half are not below it.
pub record IsMedian (x : TimestampedValue) (values : List TimestampedValue) : Type 0 where
  pub few_below : 2 * below x.value values ≤ length values
  pub many_up_to : length values < 2 * up_to x.value values

-- What a combination returns.
pub data Combines (minimum_count : ℕ) (fresh : List TimestampedValue)
    (prev_value r : Option TimestampedValue) : Type 0 where
  too_few :
      (length fresh < minimum_count) ⊎ (length fresh ≡ 0)
      → r ≡ prev_value
      → Combines minimum_count fresh prev_value r
  median :
      (x : TimestampedValue)
      → r ≡ some x
      → IsMedian x fresh
      → Combines minimum_count fresh prev_value r

-- `fresh` are those of the values, in order, whose timestamp and lifetime together, cut at the greatest
-- moment, are later than now.
pub data AreLive (max_moment expires_in now : ℕ)
    : (values fresh : List TimestampedValue) → Type 0 where
  nothing : AreLive max_moment expires_in now [] []
  live :
      (x : TimestampedValue) (values fresh : List TimestampedValue)
      → now < x.timestamp + expires_in
      → now < max_moment
      → AreLive max_moment expires_in now values fresh
      → AreLive max_moment expires_in now (x ∷ values) (x ∷ fresh)
  expired :
      (x : TimestampedValue) (values fresh : List TimestampedValue)
      → (x.timestamp + expires_in ≤ now) ⊎ (max_moment ≤ now)
      → AreLive max_moment expires_in now values fresh
      → AreLive max_moment expires_in now (x ∷ values) fresh
