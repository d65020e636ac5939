-- ===== src/Rewards/Balanced.antt =====
-- About shares (rewards/src/lib.rs): the shares of all accounts in a pool against its total.
use open_runtime_module_libr.Numeric.{saturating_add}
use open_runtime_module_libr.Rewards.Amounts.{add_withdrawn, inflate}
use open_runtime_module_libr.BTreeMap.{BTreeMap}
use open_runtime_module_libr.Storage.{get}
use open_runtime_module_libr.Rewards.Types.{default_pool, ShareInfo, PoolInfo, State, Config}
use open_runtime_module_libr.Storage.Sum.{total_of, total_of-put, weigh-le-total_of}
use open_runtime_module_libr.Storage.Laws.{get-put}
use open_runtime_module_libr.Prelude.{
  refl, inr, Bool-cases, false, is_zero, List, inl, nat_eq, ◌⊎◌, unwrap_or, ◌==◌, none, ◌≤◌, some,
  arith, if◌then◌else◌, ◌+◌, ◌≡◌, Option, ℕ, pair_eq,
}
use open_runtime_module_libr.Rewards.Shares.{share_info, pool_info, put_share, put_pool, add_share}

abbrev pub share_weight : ℕ → ℕ × ℕ → ShareInfo → ℕ
share_weight pool (p, who) (share, _) = if p == pool then share else 0

abbrev pub share_of : Option ShareInfo → ℕ
share_of none = 0
share_of (some (share, _)) = share

module _ {H : Type 0} where
  abbrev pub sum_of_shares : ℕ → State H → ℕ
  sum_of_shares pool s = total_of (share_weight pool) s.shares_and_withdrawn_rewards

  abbrev pub total_shares : ℕ → State H → ℕ
  total_shares pool s = (pool_info pool s).total_shares

  pub sum-put_share :
      (pool who p : ℕ) (v : Option ShareInfo) (s : State H)
      → sum_of_shares pool (put_share who p v s)
          + (if p == pool then share_of (get (p, who) s.shares_and_withdrawn_rewards) else 0)
        ≡ sum_of_shares pool s + (if p == pool then share_of v else 0)
  sum-put_share pool who p v s =
      ground (arith, total_of-put (share_weight pool) (p, who) v s.shares_and_withdrawn_rewards)

  pub total-put_pool :
      (pool p : ℕ) (v : Option PoolInfo) (s : State H)
      → total_shares pool (put_pool p v s)
        ≡ (if p == pool then (unwrap_or v default_pool).total_shares else total_shares pool s)
  total-put_pool pool p v s = ground (arith, get-put pool p v s.pool_infos)

  pub share-le-sum :
      (who p : ℕ) (s : State H)
      → share_of (get (p, who) s.shares_and_withdrawn_rewards) ≤ sum_of_shares p s
  share-le-sum who p s =
      ground (arith, weigh-le-total_of (share_weight p) (p, who) s.shares_and_withdrawn_rewards)

module _ {H : Type 0} (cfg : Config H) where
  -- The total of a pool is the sum of its shares.
  pub record IsBalanced (pool : ℕ) (s : State H) : Type 0 where
    pub sums : sum_of_shares pool s ≡ total_shares pool s
    pub fits : total_shares pool s ≤ cfg.max_share

  -- The shares and the total of pool `p` change alike, from a part `old` to a part `new`.
  pub record Shifts (p old new : ℕ) (s t : State H) : Type 0 where
    pub sums :
        (pool : ℕ)
        → sum_of_shares pool t + (if p == pool then old else 0)
          ≡ sum_of_shares pool s + (if p == pool then new else 0)
    pub totals :
        (pool : ℕ)
        → total_shares pool t + (if p == pool then old else 0)
          ≡ total_shares pool s + (if p == pool then new else 0)
    pub fits :
        (pool : ℕ)
        → (total_shares pool t ≤ total_shares pool s) ⊎ (total_shares pool t ≤ cfg.max_share)

  pub Shifts-IsBalanced :
      (pool p old new : ℕ) (s t : State H)
      → Shifts p old new s t
      → IsBalanced pool s
      → IsBalanced pool t
  Shifts-IsBalanced pool p old new s t h b = record {
    sums = omega (arith, h.sums pool, h.totals pool, b.sums);
    fits = ground (arith, h.fits pool, b.fits);
  }

  -- One account and its pool written alike.
  pub written-Shifts :
      (who p old new : ℕ) (v : Option ShareInfo) (w : Option PoolInfo) (h : H) (s : State H)
      → share_of v + old ≡ share_of (get (p, who) s.shares_and_withdrawn_rewards) + new
      → (unwrap_or w default_pool).total_shares + old ≡ total_shares p s + new
      → ((unwrap_or w default_pool).total_shares ≤ total_shares p s)
        ⊎ ((unwrap_or w default_pool).total_shares ≤ cfg.max_share)
      → Shifts p old new s (put_pool p w (put_share who p v record s { handler = h }))
  written-Shifts who p old new v w h s share total fits = record {
    sums = λ pool. ground (arith, sum-put_share pool who p v s);
    totals = λ pool.
        ground (arith, total-put_pool pool p w (put_share who p v record s { handler = h }));
    fits = λ pool.
        ground (arith, total-put_pool pool p w (put_share who p v record s { handler = h }));
  }

  pub nothing-Shifts : (p : ℕ) (s : State H) → Shifts p 0 0 s s
  nothing-Shifts p s = record {
    sums = λ pool. omega arith;
    totals = λ pool. omega arith;
    fits = λ pool. inl (omega arith);
  }

  -- What is added to the share, and the shift.
  abbrev pub HasAdded : (who p n : ℕ) → State H → State H → Type 0
  HasAdded who p n s t =
      Shifts p 0 n s t
      × (share_of (get (p, who) t.shares_and_withdrawn_rewards)
          ≡ share_of (get (p, who) s.shares_and_withdrawn_rewards) + n)

  pub add_share-adds :
      (who p n : ℕ) (s t : State H)
      → IsBalanced p s
      → total_shares p s + n ≤ cfg.max_share
      → add_share cfg who p n s ≡ some t
      → HasAdded who p n s t
  unfolding add_share
  add_share-adds who p n s t b room h = elim (Bool-cases (is_zero n)) [
    | inl none_added ↦
        let same : t ≡ s = ground arith in
        let zero_added : n ≡ 0 = ground arith in
        rw (same, zero_added) (nothing-Shifts p s, omega arith)
    | inr added ↦ go (inflate cfg n (total_shares p s) (pool_info p s).rewards) refl added
  ]
    where
      go :
          (r : Option (BTreeMap (ℕ × ℕ) × List (ℕ × ℕ)))
          → inflate cfg n (total_shares p s) (pool_info p s).rewards ≡ r
          → is_zero n ≡ false
          → HasAdded who p n s t
      go none e added = absurd (ground arith)
      go (some (rewards, inflation)) e added =
          let info : PoolInfo = record {
            total_shares = saturating_add cfg.max_share (total_shares p s) n;
            rewards = rewards;
          } in
          let share : ShareInfo = (
            saturating_add cfg.max_share (share_info who p s).0 n,
            add_withdrawn cfg inflation (share_info who p s).1,
          ) in
          let same : t ≡ put_pool p (some info) (put_share who p (some share) s) = ground arith in
          rw same (
            written-Shifts who p 0 n (some share) (some info) s.handler s
                (ground (arith, share-le-sum who p s, b.sums)) (ground arith) (ground arith),
            ground (
              arith,
              share-le-sum who p s,
              b.sums,
              get-put (p, who) (p, who) (some share) s.shares_and_withdrawn_rewards,
            ),
          )
