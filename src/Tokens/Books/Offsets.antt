-- ===== src/Tokens/Books/Offsets.antt =====
-- About splitting, merging, offsetting and dropping imbalances (tokens/src/imbalances.rs).
use open_runtime_module_libr.Tokens.Monad.{deposit_event}
use open_runtime_module_libr.Storage.Laws.{get-put}
use open_runtime_module_libr.Numeric.{saturating_add}
use open_runtime_module_libr.Tokens.Account.{set_total_issuance_value, total_issuance}
use open_runtime_module_libr.Tokens.Types.{Event, State, Config}
use open_runtime_module_libr.Tokens.Imbalances.{
  negative, nothing, positive, other, merge_positive, same, merge_negative, NegativeImbalance,
  split_positive, split_negative, PositiveImbalance, drop_positive, offset_positive, drop_negative,
  peek_negative, peek_positive, SameOrOther,
}
use open_runtime_module_libr.Prelude.{
  nat_eq, some, leb, ◌-◌, min, if◌then◌else◌, ◌≡◌, ◌≤◌, ◌+◌, ℕ, arith,
}
use open_runtime_module_libr.Tokens.Adapter

-- If a positive imbalance is a value of the balance type, its two parts after a split merge back
-- into it, and the first is the amount asked for or all there is.
merge_positive-split_positive :
    (max_value amount : ℕ) (imbalance : PositiveImbalance)
    → peek_positive imbalance ≤ max_value
    → let (first, second) = split_positive imbalance amount in
      (merge_positive max_value first second ≡ imbalance)
      × (peek_positive first ≡ min (peek_positive imbalance) amount)
unfolding peek_positive split_positive merge_positive
merge_positive-split_positive max_value amount (positive a) le = ground arith

-- If a negative imbalance is a value of the balance type, its two parts after a split merge back
-- into it, and the first is the amount asked for or all there is.
merge_negative-split_negative :
    (max_value amount : ℕ) (imbalance : NegativeImbalance)
    → peek_negative imbalance ≤ max_value
    → let (first, second) = split_negative imbalance amount in
      (merge_negative max_value first second ≡ imbalance)
      × (peek_negative first ≡ min (peek_negative imbalance) amount)
unfolding peek_negative split_negative merge_negative
merge_negative-split_negative max_value amount (negative a) le = ground arith

module _ {Sys : Type 0} (max_value c : ℕ) where
  -- The drop of what an offset leaves.
  abbrev pub drop_rest : SameOrOther PositiveImbalance NegativeImbalance → State Sys → State Sys
  drop_rest (same p) s = drop_positive max_value c p s
  drop_rest (other n) s = drop_negative c n s
  drop_rest nothing s = s

  issuance-drop_positive :
      (p : PositiveImbalance) (s : State Sys)
      → total_issuance c (drop_positive max_value c p s)
        ≡ saturating_add max_value (total_issuance c s) (peek_positive p)
  unfolding drop_positive peek_positive
  issuance-drop_positive (positive a) s =
      ground (
        arith,
        get-put c c (some (saturating_add max_value (total_issuance c s) a)) s.total_issuance,
      )

  issuance-drop_negative :
      (n : NegativeImbalance) (s : State Sys)
      → total_issuance c (drop_negative c n s) ≡ total_issuance c s - peek_negative n
  unfolding drop_negative peek_negative
  issuance-drop_negative (negative a) s =
      ground (arith, get-put c c (some (total_issuance c s - a)) s.total_issuance)

  -- If the total issuance with a positive imbalance is a value of the balance type, dropping what
  -- its offset with a negative one leaves has the same effect on the total issuance as dropping the
  -- positive and then the negative one.
  pub offset_positive-drop :
      (p : PositiveImbalance) (n : NegativeImbalance) (s : State Sys)
      → total_issuance c s + peek_positive p ≤ max_value
      → total_issuance c (drop_rest (offset_positive p n) s)
        ≡ total_issuance c (drop_negative c n (drop_positive max_value c p s))
  unfolding offset_positive peek_positive peek_negative
  offset_positive-drop (positive a) (negative b) s fits = ground (
    arith,
    issuance-drop_positive (positive a) s,
    issuance-drop_negative (negative b) (drop_positive max_value c (positive a) s),
    issuance-drop_positive (positive (a - b)) s,
    issuance-drop_negative (negative (b - a)) s,
  )

module _ {Sys : Type 0} (cfg : Config Sys) (c : ℕ) where
  -- If the total issuance is a value of the balance type, burning lowers it by exactly the imbalance
  -- returned, and dropping that imbalance restores it.
  burn-drop_positive :
      (amount : ℕ) (s : State Sys)
      → total_issuance c s ≤ cfg.max_value
      → let (imbalance, s') = Adapter.burn cfg c amount s in
        (total_issuance c s' + peek_positive imbalance ≡ total_issuance c s)
        × (total_issuance c (drop_positive cfg.max_value c imbalance s') ≡ total_issuance c s)
  unfolding Adapter.burn peek_positive
  burn-drop_positive amount s fits =
      let n = if leb amount (total_issuance c s) then amount else total_issuance c s in
      let s1 = set_total_issuance_value c (total_issuance c s - n) s in
      ground (
        arith,
        get-put c c (some (total_issuance c s - n)) s.total_issuance,
        issuance-drop_positive cfg.max_value c (positive n)
            (deposit_event (Event.total_issuance_set c (total_issuance c s1)) s1),
        issuance-drop_positive cfg.max_value c (positive 0) s,
      )

  -- If the total issuance is a value of the balance type, issuing raises it by exactly the imbalance
  -- returned to another such value, and dropping that imbalance restores it.
  issue-drop_negative :
      (amount : ℕ) (s : State Sys)
      → total_issuance c s ≤ cfg.max_value
      → let (imbalance, s') = Adapter.issue cfg c amount s in
        (total_issuance c s' ≡ total_issuance c s + peek_negative imbalance)
        × (total_issuance c s' ≤ cfg.max_value)
        × (total_issuance c (drop_negative c imbalance s') ≡ total_issuance c s)
  unfolding Adapter.issue peek_negative
  issue-drop_negative amount s fits =
      let fitting = leb (total_issuance c s + amount) cfg.max_value in
      let n = if fitting then amount else cfg.max_value - total_issuance c s in
      let after = if fitting then total_issuance c s + amount else cfg.max_value in
      let s1 = set_total_issuance_value c after s in
      ground (
        arith,
        get-put c c (some after) s.total_issuance,
        issuance-drop_negative cfg.max_value c (negative n)
            (deposit_event (Event.total_issuance_set c (total_issuance c s1)) s1),
        issuance-drop_negative cfg.max_value c (negative 0) s,
      )
