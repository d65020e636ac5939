-- ===== src/Rewards/Payouts.antt =====
-- About what claims pay (`claim_one` and `claim_rewards` of rewards/src/lib.rs).
use open_runtime_module_libr.Storage.{get}
use open_runtime_module_libr.Rewards.Shares.{put_share, put_pool, pool_info, claim_rewards}
use open_runtime_module_libr.Prelude.{nat_eq, pair_eq, [], ◌∷◌}
use open_runtime_module_libr.Rewards.Balanced.{share-le-sum, IsBalanced}
use open_runtime_module_libr.Storage.Laws.{get-put}
use open_runtime_module_libr.Numeric.{saturating_add}
use open_runtime_module_libr.BTreeMap.{lookup-insert, insert, lookup, BTreeMap}
use open_runtime_module_libr.Prelude.{
  refl, none, inr, inl, Bool-cases, is_zero, ◌-◌, if◌then◌else◌, Option, unwrap_or, min, arith,
  some, ◌/◌, ◌*◌, ◌≡◌, ◌≤◌, ℕ,
}
use open_runtime_module_libr.Rewards.Types.{PoolInfo, ShareInfo, State, Config}
use open_runtime_module_libr.Rewards.Amounts.{claim_each, reward_to_withdraw, proportion, claim_one}
use native.Mathlib.Nat.{div-le_of_le-mul}
use mathlib.Core.Option

mul_mono : (a b c : ℕ) → a ≤ b → a * c ≤ b * c
mul_mono a b c h = grind arith

module _ {H : Type 0} (cfg : Config H) where
  -- A part of an amount is no more than the amount.
  proportion-le :
      (a b c : ℕ)
      → a ≤ c
      → b ≤ cfg.max_u128
      → (q : ℕ) × (proportion cfg a b c ≡ some q) × (q ≤ b) × (q ≤ cfg.max_balance)
  unfolding proportion
  proportion-le a b c part fits =
      let A = min a cfg.max_u128 in
      let B = min b cfg.max_u128 in
      let C = min c cfg.max_u128 in
      let q = if is_zero C then 0 else A * B / C in
      let le : q ≤ b = ground (arith, div-le_of_le-mul C (mul_mono A C B (omega arith))) in
      (min q cfg.max_balance, ground (arith, le), ground (arith, le), ground arith)

  proportion-bounded : (a b c q : ℕ) → proportion cfg a b c ≡ some q → q ≤ cfg.max_balance
  unfolding proportion
  proportion-bounded a b c q h = ground arith

  -- If no more of a reward is withdrawn than there is, a claim that returns withdraws no more than
  -- there is, and a second claim right after it changes and pays nothing.
  pub claim_one-once :
      (who pool currency share total_reward total_shares total_withdrawn total' : ℕ)
      (withdrawn withdrawn' : BTreeMap ℕ) (h h' : H)
      → total_withdrawn ≤ total_reward
      → total_reward ≤ cfg.max_balance
      → claim_one cfg who pool currency share total_reward total_shares total_withdrawn withdrawn h
        ≡ some (withdrawn', total', h')
      → (claim_one cfg who pool currency share total_reward total_shares total' withdrawn' h'
          ≡ some (withdrawn', total', h'))
        × (total_withdrawn ≤ total')
        × (total' ≤ total_reward)
  unfolding claim_one reward_to_withdraw
  claim_one-once who pool currency share total_reward total_shares total_withdrawn total' withdrawn
        withdrawn' h h' solvent fits e =
      go (proportion cfg share total_reward total_shares) refl
    where
      go :
          (o : Option ℕ)
          → proportion cfg share total_reward total_shares ≡ o
          → (claim_one cfg who pool currency share total_reward total_shares total' withdrawn' h'
              ≡ some (withdrawn', total', h'))
            × (total_withdrawn ≤ total')
            × (total' ≤ total_reward)
      go none p = absurd (ground arith)
      go (some q) p =
          let bound = proportion-bounded share total_reward total_shares q p in
          let taken = unwrap_or (lookup currency withdrawn) 0 in
          let reward = min (q - taken) (total_reward - total_withdrawn) in
          elim (Bool-cases (is_zero reward)) [
            | inl idle ↦ ground arith
            | inr on ↦
                let found =
                  lookup-insert currency currency (saturating_add cfg.max_balance taken reward)
                    withdrawn in
                ground (arith, found)
          ]

  -- The rewards of a pool, of which no more is withdrawn than there is.
  abbrev pub AllSolvent : BTreeMap (ℕ × ℕ) → Type 0
  AllSolvent [] = Unit
  AllSolvent ((currency, (total_reward, total_withdrawn)) ∷ rewards) =
      ((total_withdrawn ≤ total_reward) × (total_reward ≤ cfg.max_balance)) × AllSolvent rewards

  claim_one-returns :
      (who pool currency share total_reward total_shares total_withdrawn : ℕ)
      (withdrawn : BTreeMap ℕ) (h : H)
      → share ≤ total_shares
      → total_reward ≤ cfg.max_u128
      → (withdrawn' : BTreeMap ℕ) × (total' : ℕ) × (h' : H) × (claim_one cfg who pool currency share
            total_reward total_shares total_withdrawn withdrawn h
          ≡ some (withdrawn', total', h'))
  unfolding claim_one reward_to_withdraw
  claim_one-returns who pool currency share total_reward total_shares total_withdrawn withdrawn h
        part fits =
      let (q, e, le, bound) = proportion-le share total_reward total_shares part fits in
      let taken = unwrap_or (lookup currency withdrawn) 0 in
      let reward = min (q - taken) (total_reward - total_withdrawn) in
      elim (Bool-cases (is_zero reward)) [
        | inl idle ↦ (withdrawn, total_withdrawn, h, ground (arith, e))
        | inr on ↦ (
          insert currency (saturating_add cfg.max_balance taken reward) withdrawn,
          saturating_add cfg.max_balance total_withdrawn reward,
          cfg.payout who pool currency reward h,
          ground (arith, e),
        )
      ]

  claim_each-returns :
      (who pool share total_shares : ℕ) (rewards : BTreeMap (ℕ × ℕ)) (withdrawn : BTreeMap ℕ)
      (h : H)
      → share ≤ total_shares
      → cfg.max_balance ≤ cfg.max_u128
      → AllSolvent rewards
      → (rewards' : BTreeMap (ℕ × ℕ)) × (withdrawn' : BTreeMap ℕ) × (h' : H) × (claim_each cfg who
            pool share total_shares rewards withdrawn h
          ≡ some (rewards', withdrawn', h'))
        × AllSolvent rewards'
  unfolding claim_each Option.bind
  claim_each-returns who pool share total_shares [] withdrawn h part wide solvent =
      ([], withdrawn, h, refl, tt)
  claim_each-returns who pool share total_shares
        ((currency, (total_reward, total_withdrawn)) ∷ rewards) withdrawn h part wide
        ((solvent, fits), others) =
      let (taken, total', h', first) =
        claim_one-returns who pool currency share total_reward total_shares total_withdrawn
          withdrawn h part (omega arith) in
      let (same, up, down) =
        claim_one-once who pool currency share total_reward total_shares total_withdrawn total'
          withdrawn taken h h' solvent fits first in
      let (rest, withdrawn', h'', loop, left) =
        claim_each-returns who pool share total_shares rewards taken h' part wide others in
      (
        (currency, (total_reward, total')) ∷ rest,
        withdrawn',
        h'',
        ground (arith, first, loop),
        ((down, fits), left),
      )

  -- In a pool whose shares sum to its total and of whose rewards no more is withdrawn than there is,
  -- if balances fit in u128, claiming all rewards does not panic, and then no more is withdrawn than
  -- there is.
  pub claim_rewards-returns :
      (who p : ℕ) (s : State H)
      → cfg.max_balance ≤ cfg.max_u128
      → IsBalanced cfg p s
      → AllSolvent (pool_info p s).rewards
      → (t : State H) × (claim_rewards cfg who p s ≡ some t) × AllSolvent (pool_info p t).rewards
  unfolding claim_rewards
  claim_rewards-returns who p s wide b solvent =
      go (get (p, who) s.shares_and_withdrawn_rewards) (get p s.pool_infos) refl refl
    where
      go :
          (o : Option ShareInfo) (q : Option PoolInfo)
          → get (p, who) s.shares_and_withdrawn_rewards ≡ o
          → get p s.pool_infos ≡ q
          → (t : State H) × (claim_rewards cfg who p s ≡ some t)
            × AllSolvent (pool_info p t).rewards
      go none q d e = (s, ground arith, solvent)
      go (some (share, withdrawn)) none d e = (s, ground arith, solvent)
      go (some (share, withdrawn)) (some info) d e = elim (Bool-cases (is_zero share)) [
        | inl idle ↦ (s, ground arith, solvent)
        | inr on ↦
            let known : pool_info p s ≡ info = rw e refl in
            let part : share ≤ info.total_shares = ground (arith, share-le-sum who p s, b.sums) in
            let (rewards, taken, left, loop, kept) =
              claim_each-returns who p share info.total_shares info.rewards withdrawn s.handler part
                wide (rw known at solvent) in
            let pool : PoolInfo = record info { rewards = rewards } in
            let state : State H = record s { handler = left } in
            let t = put_pool p (some pool) (put_share who p (some (share, taken)) state) in
            let stored : pool_info p t ≡ pool =
              ground (arith, get-put p p (some pool) s.pool_infos) in
            (t, ground (arith, loop), rw stored kept)
      ]
