-- ===== src/Tokens/Imbalances.antt =====
-- The imbalances of the tokens pallet (tokens/src/imbalances.rs): amounts created or destroyed without a
-- counterpart, which square up the total issuance when they are dropped.
use open_runtime_module_libr.Tokens.Account.{total_issuance, set_total_issuance_value}
use open_runtime_module_libr.Numeric.{saturating_add, saturating_sub}
use open_runtime_module_libr.Tokens.Types.{State}
use open_runtime_module_libr.Prelude.{some, none, Option, ℕ, if◌then◌else◌, ltb, min, is_zero}

pub data PositiveImbalance : Type 0 where
  positive : ℕ → PositiveImbalance

pub data NegativeImbalance : Type 0 where
  negative : ℕ → NegativeImbalance

-- `SameOrOther`, the result of an offset.
pub data SameOrOther (A B : Type 0) : Type 0 where
  same : A → SameOrOther A B
  other : B → SameOrOther A B
  nothing : SameOrOther A B

unfoldable pub peek_positive : PositiveImbalance → ℕ
peek_positive (positive a) = a

unfoldable pub peek_negative : NegativeImbalance → ℕ
peek_negative (negative a) = a

-- `drop_zero`: the imbalance is handed back unless it is zero.
unfoldable drop_zero_positive : PositiveImbalance → Option PositiveImbalance
drop_zero_positive (positive a) = if is_zero a then none else some (positive a)

unfoldable drop_zero_negative : NegativeImbalance → Option NegativeImbalance
drop_zero_negative (negative a) = if is_zero a then none else some (negative a)

unfoldable pub split_positive : PositiveImbalance → ℕ → PositiveImbalance × PositiveImbalance
split_positive (positive a) amount =
    let first = min a amount in (positive first, positive (saturating_sub a first))

unfoldable pub split_negative : NegativeImbalance → ℕ → NegativeImbalance × NegativeImbalance
split_negative (negative a) amount =
    let first = min a amount in (negative first, negative (saturating_sub a first))

-- `merge` and `subsume`
unfoldable pub merge_positive : ℕ → PositiveImbalance → PositiveImbalance → PositiveImbalance
merge_positive max_value (positive a) (positive b) = positive (saturating_add max_value a b)

unfoldable pub merge_negative : ℕ → NegativeImbalance → NegativeImbalance → NegativeImbalance
merge_negative max_value (negative a) (negative b) = negative (saturating_add max_value a b)

-- `offset`: the greater amount less the smaller one.
unfoldable pub offset_positive :
    PositiveImbalance → NegativeImbalance → SameOrOther PositiveImbalance NegativeImbalance
offset_positive (positive a) (negative b) =
    if ltb b a
    then same (positive (saturating_sub a b))
    else if ltb a b
    then other (negative (saturating_sub b a))
    else nothing

unfoldable offset_negative :
    NegativeImbalance → PositiveImbalance → SameOrOther NegativeImbalance PositiveImbalance
offset_negative (negative a) (positive b) =
    if ltb b a
    then same (negative (saturating_sub a b))
    else if ltb a b
    then other (positive (saturating_sub b a))
    else nothing

module _ {Sys : Type 0} where
  -- `Drop`
  unfoldable pub drop_positive :
      (max_value currency_id : ℕ) → PositiveImbalance → State Sys → State Sys
  drop_positive max_value currency_id (positive a) s =
      set_total_issuance_value currency_id
        (saturating_add max_value (total_issuance currency_id s) a) s

  unfoldable pub drop_negative : (currency_id : ℕ) → NegativeImbalance → State Sys → State Sys
  drop_negative currency_id (negative a) s =
      set_total_issuance_value currency_id (saturating_sub (total_issuance currency_id s) a) s
