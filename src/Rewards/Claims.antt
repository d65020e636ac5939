-- ===== src/Rewards/Claims.antt =====
-- About claims and shares (`claim_rewards` and `claim_reward` of rewards/src/lib.rs).
use open_runtime_module_libr.Rewards.Amounts.{claim_one, claim_each}
use open_runtime_module_libr.BTreeMap.{insert, lookup, BTreeMap}
use open_runtime_module_libr.Storage.{get}
use open_runtime_module_libr.Rewards.Types.{ShareInfo, PoolInfo, State, Config}
use open_runtime_module_libr.Storage.Laws.{get-put}
use open_runtime_module_libr.Prelude.{
  none, nat_eq, refl, inr, inl, Bool-cases, arith, false, is_zero, Option, some, ◌≡◌, ℕ, pair_eq,
}
use open_runtime_module_libr.Rewards.Shares.{
  claim_reward, pool_info, put_share, put_pool, claim_rewards,
}
use open_runtime_module_libr.Rewards.Balanced.{
  total_shares, total-put_pool, share_of, Shifts, written-Shifts, nothing-Shifts,
}

module _ {H : Type 0} (cfg : Config H) where
  -- Claims keep the share.
  pub claim_rewards-keeps :
      (who p : ℕ) (s t : State H)
      → claim_rewards cfg who p s ≡ some t
      → Shifts cfg p 0 0 s t
        × (share_of (get (p, who) t.shares_and_withdrawn_rewards)
            ≡ share_of (get (p, who) s.shares_and_withdrawn_rewards))
  unfolding claim_rewards
  claim_rewards-keeps who p s t h =
      go (get (p, who) s.shares_and_withdrawn_rewards) (get p s.pool_infos) refl refl
    where
      unmoved :
          t ≡ s
          → Shifts cfg p 0 0 s t
            × (share_of (get (p, who) t.shares_and_withdrawn_rewards)
                ≡ share_of (get (p, who) s.shares_and_withdrawn_rewards))
      unmoved e = rw e (nothing-Shifts cfg p s, refl)

      paid :
          (share : ℕ) (withdrawn : BTreeMap ℕ) (info : PoolInfo)
          (r : Option (BTreeMap (ℕ × ℕ) × BTreeMap ℕ × H))
          → get (p, who) s.shares_and_withdrawn_rewards ≡ some (share, withdrawn)
          → get p s.pool_infos ≡ some info
          → is_zero share ≡ false
          → claim_each cfg who p share info.total_shares info.rewards withdrawn s.handler ≡ r
          → Shifts cfg p 0 0 s t
            × (share_of (get (p, who) t.shares_and_withdrawn_rewards)
                ≡ share_of (get (p, who) s.shares_and_withdrawn_rewards))
      paid share withdrawn info none d e f g = absurd (ground arith)
      paid share withdrawn info (some (rewards, taken, left)) d e f g =
          let pool : PoolInfo = record info { rewards = rewards } in
          let state : State H = record s { handler = left } in
          let same : t ≡ put_pool p (some pool) (put_share who p (some (share, taken)) state) =
            ground arith in
          rw same (
            written-Shifts cfg who p 0 0 (some (share, taken)) (some pool) left s (ground arith)
                (ground arith) (ground arith),
            ground (
              arith,
              get-put (p, who) (p, who) (some (share, taken)) s.shares_and_withdrawn_rewards,
            ),
          )

      go :
          (o : Option ShareInfo) (q : Option PoolInfo)
          → get (p, who) s.shares_and_withdrawn_rewards ≡ o
          → get p s.pool_infos ≡ q
          → Shifts cfg p 0 0 s t
            × (share_of (get (p, who) t.shares_and_withdrawn_rewards)
                ≡ share_of (get (p, who) s.shares_and_withdrawn_rewards))
      go none q d e = unmoved (ground arith)
      go (some (share, withdrawn)) none d e = unmoved (ground arith)
      go (some (share, withdrawn)) (some info) d e = elim (Bool-cases (is_zero share)) [
        | inl idle ↦ unmoved (ground arith)
        | inr on ↦
            paid share withdrawn info
              (claim_each cfg who p share info.total_shares info.rewards withdrawn s.handler) d e on
              refl
      ]

  -- A pool that is only read becomes the default one if it was missing.
  pool_read-Shifts :
      (p : ℕ) (s : State H) → Shifts cfg p 0 0 s (put_pool p (some (pool_info p s)) s)
  pool_read-Shifts p s = record {
    sums = λ pool. omega arith;
    totals = λ pool. ground (arith, total-put_pool pool p (some (pool_info p s)) s);
    fits = λ pool. ground (arith, total-put_pool pool p (some (pool_info p s)) s);
  }

  -- Claiming one reward, which may make a default pool.
  pub claim_reward-Shifts :
      (who p currency : ℕ) (s t : State H)
      → claim_reward cfg who p currency s ≡ some t
      → Shifts cfg p 0 0 s t
  unfolding claim_reward
  claim_reward-Shifts who p currency s t h =
      go (get (p, who) s.shares_and_withdrawn_rewards) (lookup currency (pool_info p s).rewards)
        refl refl
    where
      unmoved : t ≡ s → Shifts cfg p 0 0 s t
      unmoved e = rw e (nothing-Shifts cfg p s)

      paid :
          (share total_reward total_withdrawn : ℕ) (withdrawn : BTreeMap ℕ)
          (r : Option (BTreeMap ℕ × ℕ × H))
          → get (p, who) s.shares_and_withdrawn_rewards ≡ some (share, withdrawn)
          → lookup currency (pool_info p s).rewards ≡ some (total_reward, total_withdrawn)
          → is_zero share ≡ false
          → claim_one cfg who p currency share total_reward
              (total_shares p s)
              total_withdrawn
              withdrawn
              s.handler
            ≡ r
          → Shifts cfg p 0 0 s t
      paid share total_reward total_withdrawn withdrawn none d e f g = absurd (ground arith)
      paid share total_reward total_withdrawn withdrawn (some (taken, total', left)) d e f g =
          let pool : PoolInfo = record (pool_info p s) {
            rewards = insert currency (total_reward, total') (pool_info p s).rewards;
          } in
          let same : t
              ≡ put_pool p (some pool)
                  (put_share who p (some (share, taken)) record s { handler = left }) =
            ground arith in
          rw same (
            written-Shifts cfg who p 0 0 (some (share, taken)) (some pool) left s (ground arith)
              (ground arith) (ground arith))

      go :
          (o : Option ShareInfo) (q : Option (ℕ × ℕ))
          → get (p, who) s.shares_and_withdrawn_rewards ≡ o
          → lookup currency (pool_info p s).rewards ≡ q
          → Shifts cfg p 0 0 s t
      go none q d e = unmoved (ground arith)
      go (some (share, withdrawn)) q d e = elim (Bool-cases (is_zero share)) [
        | inl idle ↦ unmoved (ground arith)
        | inr on ↦ next share withdrawn q d e on
      ]
        where
          next :
              (share : ℕ) (withdrawn : BTreeMap ℕ) (q : Option (ℕ × ℕ))
              → get (p, who) s.shares_and_withdrawn_rewards ≡ some (share, withdrawn)
              → lookup currency (pool_info p s).rewards ≡ q
              → is_zero share ≡ false
              → Shifts cfg p 0 0 s t
          next share withdrawn none d e on =
              let same : t ≡ put_pool p (some (pool_info p s)) s = ground arith in
              rw same (pool_read-Shifts p s)
          next share withdrawn (some (total_reward, total_withdrawn)) d e on =
              paid share total_reward total_withdrawn withdrawn
                (claim_one cfg who p currency share total_reward (total_shares p s) total_withdrawn
                  withdrawn s.handler)
                d e on refl
