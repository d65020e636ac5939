-- ===== src/Rewards/Steps.antt =====
-- About runs of the rewards pallet: its operations in any order (rewards/src/lib.rs).
use open_runtime_module_libr.Numeric.{saturating_add}
use open_runtime_module_libr.BTreeMap.{upsert}
use open_runtime_module_libr.Storage.{get}
use open_runtime_module_libr.Rewards.Claims.{claim_reward-Shifts, claim_rewards-keeps}
use open_runtime_module_libr.Rewards.Balanced.{
  total-put_pool, nothing-Shifts, add_share-adds, Shifts-IsBalanced, total_shares, IsBalanced,
  Shifts,
}
use open_runtime_module_libr.Prelude.{
  refl, none, nat_eq, inr, inl, is_zero, Bool-cases, arith, Option, ◌≢◌, some, ◌≤◌, ◌+◌, ◌-◌, ◌≡◌,
  subst, ℕ,
}
use open_runtime_module_libr.Rewards.Types.{PoolInfo, State, Config}
use open_runtime_module_libr.Rewards.Shares.{
  put_pool, transfer_share_and_rewards, claim_reward, remove_share, set_share, share_info,
  accumulate_reward, add_share, claim_rewards,
}
use open_runtime_module_libr.Rewards.Removal.{set_share-sets, remove_share-removes}
use open_runtime_module_libr.Rewards.Moves.{transfer-Shifts}

module _ {H : Type 0} (cfg : Config H) where
  -- One operation that returns. What is added fits in the total, and no one transfers to oneself.
  pub data Step (s t : State H) : Type 0 where
    by_accumulate_reward :
        (pool currency increment : ℕ)
        → (accumulate_reward cfg pool currency increment s).1 ≡ t
        → Step s t
    by_set_share :
        (who pool new_share : ℕ)
        → total_shares pool s - (share_info who pool s).0 + new_share ≤ cfg.max_share
        → set_share cfg who pool new_share s ≡ some t
        → Step s t
    by_add_share :
        (who pool add_amount : ℕ)
        → total_shares pool s + add_amount ≤ cfg.max_share
        → add_share cfg who pool add_amount s ≡ some t
        → Step s t
    by_remove_share :
        (who pool remove_amount : ℕ) → remove_share cfg who pool remove_amount s ≡ some t → Step s t
    by_claim_rewards : (who pool : ℕ) → claim_rewards cfg who pool s ≡ some t → Step s t
    by_claim_reward :
        (who pool currency : ℕ) → claim_reward cfg who pool currency s ≡ some t → Step s t
    by_transfer :
        (who pool move_share other : ℕ)
        → who ≢ other
        → (transfer_share_and_rewards cfg who pool move_share other s).1 ≡ t
        → Step s t

  pub data Reach (s : State H) : State H → Type 0 where
    start : Reach s s
    step : {t u : State H} → Reach s t → Step t u → Reach s u

  abbrev pub AllBalanced : State H → Type 0
  AllBalanced s = (pool : ℕ) → IsBalanced cfg pool s

  accumulate_reward-Shifts :
      (p currency n : ℕ) (s : State H) → Shifts cfg p 0 0 s (accumulate_reward cfg p currency n s).1
  unfolding accumulate_reward
  accumulate_reward-Shifts p currency n s = go (get p s.pool_infos) refl
    where
      go :
          (o : Option PoolInfo)
          → get p s.pool_infos ≡ o
          → Shifts cfg p 0 0 s (accumulate_reward cfg p currency n s).1
      go none e =
          let same : (accumulate_reward cfg p currency n s).1 ≡ s = ground (arith, e) in
          rw same (nothing-Shifts cfg p s)
      go (some info) e = elim (Bool-cases (is_zero n)) [
        | inl idle ↦
            let same : (accumulate_reward cfg p currency n s).1 ≡ s = ground (arith, e) in
            rw same (nothing-Shifts cfg p s)
        | inr on ↦
            let pool : PoolInfo = record info {
              rewards =
                  upsert currency
                    (λ (total_reward, withdrawn).
                      (saturating_add cfg.max_balance total_reward n, withdrawn))
                    (n, 0) info.rewards;
            } in
            let same : (accumulate_reward cfg p currency n s).1 ≡ put_pool p (some pool) s =
              ground (arith, e) in
            rw same (record {
              sums = λ q. omega arith;
              totals = λ q. ground (arith, e, total-put_pool q p (some pool) s);
              fits = λ q. ground (arith, e, total-put_pool q p (some pool) s);
            })
      ]

  Step-AllBalanced : (s t : State H) → Step s t → AllBalanced s → AllBalanced t
  Step-AllBalanced s t (by_accumulate_reward p currency n e) b q =
      subst (IsBalanced cfg q) e
        (Shifts-IsBalanced cfg q p 0 0 s _ (accumulate_reward-Shifts p currency n s) (b q))
  Step-AllBalanced s t (by_set_share who p n room e) b q =
      let (old, new, shifted, now) = set_share-sets cfg who p n s t (b p) (ground arith) e in
      Shifts-IsBalanced cfg q p old new s t shifted (b q)
  Step-AllBalanced s t (by_add_share who p n room e) b q =
      Shifts-IsBalanced cfg q p 0 n s t (add_share-adds cfg who p n s t (b p) room e).0 (b q)
  Step-AllBalanced s t (by_remove_share who p n e) b q =
      Shifts-IsBalanced cfg q p _ 0 s t (remove_share-removes cfg who p n s t (b p) e).0 (b q)
  Step-AllBalanced s t (by_claim_rewards who p e) b q =
      Shifts-IsBalanced cfg q p 0 0 s t (claim_rewards-keeps cfg who p s t e).0 (b q)
  Step-AllBalanced s t (by_claim_reward who p currency e) b q =
      Shifts-IsBalanced cfg q p 0 0 s t (claim_reward-Shifts cfg who p currency s t e) (b q)
  Step-AllBalanced s t (by_transfer who p n other away e) b q =
      subst (IsBalanced cfg q) e
        (Shifts-IsBalanced cfg q p 0 0 s _ (transfer-Shifts cfg who p n other s away (b p)) (b q))

  -- If in a state the shares of all accounts sum to the total of every pool, which is a share value,
  -- then this is so in every state that operations which return lead to, where what is added fits in
  -- the total and no account transfers to itself.
  pub Reach-AllBalanced : (s t : State H) → AllBalanced s → Reach s t → AllBalanced t
  Reach-AllBalanced s t b start = b
  Reach-AllBalanced s u b (step {t} r n) = Step-AllBalanced t u n (Reach-AllBalanced s t b r)
