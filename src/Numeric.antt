-- ===== src/Numeric.antt =====
-- Unsigned machine integers with the largest value `max_value`: the checked and saturating
-- operations of `sp_runtime::traits` that the pallets call on balances, shares and block numbers.
-- The `defensive_` variants only log besides.
use open_runtime_module_libr.Prelude.{
  ◌/◌, is_zero, ◌*◌, ℕ, ◌+◌, ◌-◌, Option, none, some, leb, if◌then◌else◌, min,
}

abbrev pub checked_add : ℕ → ℕ → ℕ → Option ℕ
checked_add max_value a b = if leb (a + b) max_value then some (a + b) else none

abbrev pub checked_sub : ℕ → ℕ → Option ℕ
checked_sub a b = if leb b a then some (a - b) else none

abbrev pub saturating_add : ℕ → ℕ → ℕ → ℕ
saturating_add max_value a b = min (a + b) max_value

-- Subtraction on ℕ stops at 0 already.
abbrev pub saturating_sub : ℕ → ℕ → ℕ
saturating_sub a b = a - b

abbrev pub checked_mul : ℕ → ℕ → ℕ → Option ℕ
checked_mul max_value a b = if leb (a * b) max_value then some (a * b) else none

abbrev pub checked_div : ℕ → ℕ → Option ℕ
checked_div a b = if is_zero b then none else some (a / b)
