-- ===== src/Rewards/Amounts.antt =====
-- Amounts of rewards (rewards/src/lib.rs): proportions, the loops over the rewards of a pool, and what
-- one claim pays. `none` is a panic of the conversion from `U256` to `u128`.
use open_runtime_module_libr.Prelude.{[], ◌∷◌}
use open_runtime_module_libr.Numeric.{saturating_add, saturating_sub}
use open_runtime_module_libr.BTreeMap.{upsert, remove, insert, lookup, BTreeMap}
use open_runtime_module_libr.Prelude.{
  leb, ◌/◌, ◌*◌, is_zero, none, if◌then◌else◌, some, unwrap_or, min, Option, List, ℕ,
}
use open_runtime_module_libr.Rewards.Types.{Config}
use mathlib.Core.Option

module _ {H : Type 0} (cfg : Config H) where
  -- `a * b / c` in `U256`, where a product of two `u128` always fits, then as a balance.
  unfoldable pub proportion : (a b c : ℕ) → Option ℕ
  proportion a b c =
      let q =
        if is_zero (min c cfg.max_u128)
        then 0
        else min a cfg.max_u128 * min b cfg.max_u128 / min c cfg.max_u128 in
      if leb q cfg.max_u128 then some (min q cfg.max_balance) else none

  -- `Pallet::reward_to_withdraw`
  unfoldable pub reward_to_withdraw :
      (share total_reward total_shares withdrawn_reward total_withdrawn_reward : ℕ) → Option ℕ
  reward_to_withdraw share total_reward total_shares withdrawn_reward total_withdrawn_reward =
      Option.map
        (λ whole.
          min (saturating_sub whole withdrawn_reward)
            (saturating_sub total_reward total_withdrawn_reward))
        (proportion share total_reward total_shares)

  -- `Pallet::claim_one`: the withdrawn rewards of the account, the withdrawn reward of the pool, and
  -- the handler.
  unfoldable pub claim_one :
      (who pool reward_currency share total_reward total_shares total_withdrawn_reward : ℕ)
      → BTreeMap ℕ
      → H
      → Option (BTreeMap ℕ × ℕ × H)
  claim_one who pool reward_currency share total_reward total_shares total_withdrawn_reward
        withdrawn_rewards h =
      let withdrawn_reward = unwrap_or (lookup reward_currency withdrawn_rewards) 0 in
      Option.map
        (λ reward. if is_zero reward then (withdrawn_rewards, total_withdrawn_reward, h) else (
          insert reward_currency (saturating_add cfg.max_balance withdrawn_reward reward)
              withdrawn_rewards,
          saturating_add cfg.max_balance total_withdrawn_reward reward,
          cfg.payout who pool reward_currency reward h,
        ))
        (reward_to_withdraw share total_reward total_shares withdrawn_reward total_withdrawn_reward)

  -- The loop of `Pallet::claim_rewards`
  unfoldable pub claim_each :
      (who pool share total_shares : ℕ)
      → BTreeMap (ℕ × ℕ)
      → BTreeMap ℕ
      → H
      → Option (BTreeMap (ℕ × ℕ) × BTreeMap ℕ × H)
  claim_each who pool share total_shares [] withdrawn_rewards h = some ([], withdrawn_rewards, h)
  claim_each who pool share total_shares ((currency, (total_reward, total_withdrawn)) ∷ rewards)
        withdrawn_rewards h =
      Option.bind
        (claim_one who pool currency share total_reward total_shares total_withdrawn
          withdrawn_rewards h)
        λ (withdrawn, total', h').
          Option.map
            (λ (rest, withdrawn', h'').
              ((currency, (total_reward, total')) ∷ rest, withdrawn', h''))
            (claim_each who pool share total_shares rewards withdrawn h')

  -- The first loop of `Pallet::add_share`: the rewards grow with the shares, as withdrawn already.
  unfoldable pub inflate :
      (add_amount initial_total_shares : ℕ)
      → BTreeMap (ℕ × ℕ)
      → Option (BTreeMap (ℕ × ℕ) × List (ℕ × ℕ))
  inflate add_amount initial_total_shares [] = some ([], [])
  inflate add_amount initial_total_shares ((currency, (total_reward, total_withdrawn)) ∷ rewards) =
      Option.bind
        (if is_zero initial_total_shares
          then some 0
          else proportion add_amount total_reward initial_total_shares)
        λ inflation.
          Option.map
            (λ (rest, withdrawn_inflation). (
              (
                currency,
                (
                  saturating_add cfg.max_balance total_reward inflation,
                  saturating_add cfg.max_balance total_withdrawn inflation,
                ),
              )
                  ∷ rest,
              (currency, inflation) ∷ withdrawn_inflation,
            ))
            (inflate add_amount initial_total_shares rewards)

  -- The second loop of `Pallet::add_share`
  unfoldable pub add_withdrawn : List (ℕ × ℕ) → BTreeMap ℕ → BTreeMap ℕ
  add_withdrawn [] withdrawn_rewards = withdrawn_rewards
  add_withdrawn ((currency, inflation) ∷ withdrawn_inflation) withdrawn_rewards =
      add_withdrawn withdrawn_inflation (
        upsert currency (λ w. saturating_add cfg.max_balance w inflation) inflation
          withdrawn_rewards)

  -- One reward of a pool when some of it goes with removed shares
  unfoldable pub shrink : (currency amount : ℕ) → BTreeMap (ℕ × ℕ) → BTreeMap (ℕ × ℕ)
  shrink currency amount rewards = elim (lookup currency rewards) [
    | none ↦ rewards
    | some (total_reward, total_withdrawn) ↦
        if is_zero (saturating_sub total_reward amount)
        then remove currency rewards
        else insert currency
            (saturating_sub total_reward amount, saturating_sub total_withdrawn amount) rewards
  ]

  -- The loop of `Pallet::remove_share`
  unfoldable pub deflate :
      (remove_amount share : ℕ)
      → BTreeMap ℕ
      → BTreeMap (ℕ × ℕ)
      → Option (BTreeMap ℕ × BTreeMap (ℕ × ℕ))
  deflate remove_amount share [] rewards = some ([], rewards)
  deflate remove_amount share ((currency, withdrawn) ∷ withdrawn_rewards) rewards =
      Option.bind (proportion remove_amount withdrawn share) λ amount.
        Option.map
          (λ (rest, rewards'). ((currency, saturating_sub withdrawn amount) ∷ rest, rewards'))
          (deflate remove_amount share withdrawn_rewards (shrink currency amount rewards))

  -- The loop of `Pallet::transfer_share_and_rewards`, for `move_share` below `share`
  unfoldable pub split_rewards :
      (move_share share : ℕ) → BTreeMap ℕ → BTreeMap ℕ → BTreeMap ℕ × BTreeMap ℕ
  split_rewards move_share share [] increased_rewards = ([], increased_rewards)
  split_rewards move_share share ((currency, balance) ∷ rewards) increased_rewards =
      let q = min balance cfg.max_u128 * min move_share cfg.max_u128 / min share cfg.max_u128 in
      let move_balance = min q cfg.max_balance in
      let grown =
        upsert currency (λ r. saturating_add cfg.max_balance r move_balance) move_balance
          increased_rewards in
      let (kept, increased) = split_rewards move_share share rewards grown in
      let (skipped, same) = split_rewards move_share share rewards increased_rewards in
      if leb q cfg.max_u128
      then ((currency, saturating_sub balance move_balance) ∷ kept, increased)
      else ((currency, balance) ∷ skipped, same)
