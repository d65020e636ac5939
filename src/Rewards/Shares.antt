-- ===== src/Rewards/Shares.antt =====
-- The operations of the rewards pallet (rewards/src/lib.rs). `none` is a panic.
use open_runtime_module_libr.Rewards.Amounts.{
  claim_one, inflate, add_withdrawn, claim_each, split_rewards, deflate,
}
use open_runtime_module_libr.Storage.{put, get}
use open_runtime_module_libr.Numeric.{saturating_add, saturating_sub}
use open_runtime_module_libr.BTreeMap.{insert, upsert, lookup, BTreeMap}
use open_runtime_module_libr.Effect.{err, ok, Action}
use open_runtime_module_libr.Prelude.{
  min, some, nat_eq, pair_eq, [], none, ltb, is_zero, unwrap_or, if◌then◌else◌, Option, ℕ,
}
use open_runtime_module_libr.Rewards.Types.{default_pool, Error, PoolInfo, ShareInfo, State, Config}
use mathlib.Core.Option

module _ {H : Type 0} where
  abbrev pub share_info : (who pool : ℕ) → State H → ShareInfo
  share_info who pool s = unwrap_or (get (pool, who) s.shares_and_withdrawn_rewards) (0, [])

  abbrev pub pool_info : ℕ → State H → PoolInfo
  pool_info pool s = unwrap_or (get pool s.pool_infos) default_pool

  abbrev pub put_share : (who pool : ℕ) → Option ShareInfo → State H → State H
  put_share who pool v s = record s {
    shares_and_withdrawn_rewards = put (pool, who) v s.shares_and_withdrawn_rewards;
  }

  abbrev pub put_pool : ℕ → Option PoolInfo → State H → State H
  put_pool pool v s = record s { pool_infos = put pool v s.pool_infos }

module _ {H : Type 0} (cfg : Config H) where
  -- `Pallet::accumulate_reward`
  unfoldable pub accumulate_reward :
      (pool reward_currency reward_increment : ℕ) → Action (State H) Error (Unit {0})
  accumulate_reward pool reward_currency reward_increment s =
      if is_zero reward_increment then (ok tt, s) else elim (get pool s.pool_infos) [
        | none ↦ (err Error.pool_does_not_exist, s)
        | some info ↦ (
          ok tt,
          put_pool pool
              (some record info {
                rewards =
                    upsert reward_currency
                      (λ (total_reward, withdrawn).
                        (saturating_add cfg.max_balance total_reward reward_increment, withdrawn))
                      (reward_increment, 0) info.rewards;
              })
              s,
        )
      ]

  -- `Pallet::add_share`
  unfoldable pub add_share : (who pool add_amount : ℕ) → State H → Option (State H)
  add_share who pool add_amount s =
      let info = pool_info pool s in
      let (share, withdrawn_rewards) = share_info who pool s in
      if is_zero add_amount
      then some s
      else Option.map
          (λ (rewards, withdrawn_inflation).
            put_pool pool
              (some (record {
                total_shares = saturating_add cfg.max_share info.total_shares add_amount;
                rewards = rewards;
              }))
              (put_share who pool
                (some (
                  saturating_add cfg.max_share share add_amount,
                  add_withdrawn cfg withdrawn_inflation withdrawn_rewards,
                ))
                s))
          (inflate cfg add_amount info.total_shares info.rewards)

  -- `Pallet::claim_rewards`
  unfoldable pub claim_rewards : (who pool : ℕ) → State H → Option (State H)
  claim_rewards who pool s = elim (get (pool, who) s.shares_and_withdrawn_rewards) [
    | none ↦ some s
    | some (share, withdrawn_rewards) ↦
        if is_zero share then some s else elim (get pool s.pool_infos) [
          | none ↦ some s
          | some info ↦
              Option.map
                (λ (rewards, withdrawn, h).
                  put_pool pool (some record info { rewards = rewards })
                    (put_share who pool (some (share, withdrawn)) record s { handler = h }))
                (claim_each cfg who pool share info.total_shares info.rewards withdrawn_rewards
                  s.handler)
        ]
  ]

  -- `Pallet::claim_reward`: a pool that does not exist becomes the default one.
  unfoldable pub claim_reward : (who pool reward_currency : ℕ) → State H → Option (State H)
  claim_reward who pool reward_currency s =
      let info = pool_info pool s in
      elim (get (pool, who) s.shares_and_withdrawn_rewards) [
        | none ↦ some s
        | some (share, withdrawn_rewards) ↦
            if is_zero share then some s else elim (lookup reward_currency info.rewards) [
              | none ↦ some (put_pool pool (some info) s)
              | some (total_reward, total_withdrawn) ↦
                  Option.map
                    (λ (withdrawn, total', h).
                      put_pool pool
                        (some record info {
                          rewards = insert reward_currency (total_reward, total') info.rewards;
                        })
                        (put_share who pool (some (share, withdrawn)) record s { handler = h }))
                    (claim_one cfg who pool reward_currency share total_reward info.total_shares
                      total_withdrawn withdrawn_rewards s.handler)
            ]
      ]

  -- The pool when `remove_amount` of the `share` of an account goes
  unfoldable pub remove_from_pool :
      (who pool remove_amount share : ℕ) → BTreeMap ℕ → State H → Option (State H)
  remove_from_pool who pool remove_amount share withdrawn_rewards s =
      let left = saturating_sub share remove_amount in
      elim (get pool s.pool_infos) [
        | none ↦
            some
              (put_share who pool (if is_zero left then none else some (left, withdrawn_rewards)) s)
        | some info ↦
            let total = saturating_sub info.total_shares remove_amount in
            Option.map
              (λ (withdrawn, rewards).
                put_pool pool
                  (if is_zero total
                    then none
                    else some (record { total_shares = total; rewards = rewards }))
                  (put_share who pool (if is_zero left then none else some (left, withdrawn)) s))
              (deflate cfg remove_amount share withdrawn_rewards info.rewards)
      ]

  -- `Pallet::remove_share` once the rewards are claimed
  unfoldable pub remove_claimed : (who pool remove_amount : ℕ) → State H → Option (State H)
  remove_claimed who pool remove_amount s = elim (get (pool, who) s.shares_and_withdrawn_rewards) [
    | none ↦ some s
    | some (share, withdrawn_rewards) ↦
        if is_zero (min remove_amount share)
        then some (put_share who pool none s)
        else remove_from_pool who pool (min remove_amount share) share withdrawn_rewards s
  ]

  -- `Pallet::remove_share`
  unfoldable pub remove_share : (who pool remove_amount : ℕ) → State H → Option (State H)
  remove_share who pool remove_amount s =
      if is_zero remove_amount
      then some s
      else Option.bind (claim_rewards who pool s) (remove_claimed who pool remove_amount)

  -- `Pallet::set_share`
  unfoldable pub set_share : (who pool new_share : ℕ) → State H → Option (State H)
  set_share who pool new_share s =
      let share = (share_info who pool s).0 in
      if ltb share new_share
      then add_share who pool (saturating_sub new_share share) s
      else remove_share who pool (saturating_sub share new_share) s

  -- `Pallet::transfer_share_and_rewards`: the entry of `other` is read first and written last, on an
  -- error too.
  unfoldable pub transfer_share_and_rewards :
      (who pool move_share other : ℕ) → Action (State H) Error (Unit {0})
  transfer_share_and_rewards who pool move_share other s =
      let (increased_share, increased_rewards) = share_info other pool s in
      elim (get (pool, who) s.shares_and_withdrawn_rewards) [
        | none ↦ (
          err Error.share_does_not_exist,
          put_share other pool (some (increased_share, increased_rewards)) s,
        )
        | some (share, rewards) ↦
            let (kept, increased) = split_rewards cfg move_share share rewards increased_rewards in
            if ltb move_share share
            then (
              ok tt,
              put_share other pool
                  (some (saturating_add cfg.max_share increased_share move_share, increased))
                  (put_share who pool (some (saturating_sub share move_share, kept)) s),
            )
            else (
              err Error.can_split_only_less_than_share,
              put_share other pool (some (increased_share, increased_rewards)) s,
            )
      ]
