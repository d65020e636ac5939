-- ===== src/Rewards/Removal.antt =====
-- About removed and set shares (`remove_share` and `set_share` of rewards/src/lib.rs).
use open_runtime_module_libr.Rewards.Claims.{claim_rewards-keeps}
use open_runtime_module_libr.Rewards.Amounts.{deflate}
use open_runtime_module_libr.BTreeMap.{BTreeMap}
use open_runtime_module_libr.Storage.{get}
use open_runtime_module_libr.Rewards.Types.{ShareInfo, PoolInfo, State, Config}
use open_runtime_module_libr.Storage.Laws.{get-put}
use open_runtime_module_libr.Prelude.{
  ltb, inr, ◌+◌, inl, Bool-cases, refl, nat_eq, ◌≤◌, none, if◌then◌else◌, arith, false, is_zero,
  Option, ◌-◌, min, some, ◌≡◌, ℕ, pair_eq,
}
use open_runtime_module_libr.Rewards.Shares.{
  set_share, remove_share, put_share, put_pool, remove_from_pool, remove_claimed, claim_rewards,
}
use open_runtime_module_libr.Rewards.Balanced.{
  add_share-adds, Shifts-IsBalanced, total_shares, sum-put_share, share-le-sum, Shifts, share_of,
  IsBalanced, written-Shifts, nothing-Shifts,
}
use mathlib.Core.Option

module _ {H : Type 0} (cfg : Config H) where
  -- What is left of the share, and the shift.
  abbrev HasRemoved : (who p n : ℕ) → State H → State H → Type 0
  HasRemoved who p n s t =
      let share = share_of (get (p, who) s.shares_and_withdrawn_rewards) in
      Shifts cfg p (min n share) 0 s t
      × (share_of (get (p, who) t.shares_and_withdrawn_rewards) ≡ share - n)

  -- The entry of an account written with the same share.
  pub same_share-Shifts :
      (who p : ℕ) (v : Option ShareInfo) (s : State H)
      → share_of v ≡ share_of (get (p, who) s.shares_and_withdrawn_rewards)
      → Shifts cfg p 0 0 s (put_share who p v s)
  same_share-Shifts who p v s h = record {
    sums = λ pool. ground (arith, sum-put_share pool who p v s);
    totals = λ pool. omega arith;
    fits = λ pool. inl (omega arith);
  }

  remove_claimed-removes :
      (who p n : ℕ) (s t : State H)
      → is_zero n ≡ false
      → IsBalanced cfg p s
      → remove_claimed cfg who p n s ≡ some t
      → HasRemoved who p n s t
  unfolding remove_claimed remove_from_pool
  remove_claimed-removes who p n s t some_n b h =
      go (get (p, who) s.shares_and_withdrawn_rewards) (get p s.pool_infos) refl refl
    where
      taken :
          (share : ℕ) (withdrawn : BTreeMap ℕ) (info : PoolInfo)
          (r : Option (BTreeMap ℕ × BTreeMap (ℕ × ℕ)))
          → get (p, who) s.shares_and_withdrawn_rewards ≡ some (share, withdrawn)
          → get p s.pool_infos ≡ some info
          → is_zero (min n share) ≡ false
          → deflate cfg (min n share) share withdrawn info.rewards ≡ r
          → HasRemoved who p n s t
      taken share withdrawn info none d e f g = absurd (ground arith)
      taken share withdrawn info (some (kept, rewards)) d e f g =
          let m = min n share in
          let total = info.total_shares - m in
          let w : Option PoolInfo =
            if is_zero total
            then none
            else some (record { total_shares = total; rewards = rewards }) in
          let v : Option ShareInfo = if is_zero (share - m) then none else some (share - m, kept) in
          let same : t ≡ put_pool p w (put_share who p v s) = ground arith in
          let below : share ≤ info.total_shares = ground (arith, share-le-sum who p s, b.sums) in
          rw same (
            ground (
              arith,
              written-Shifts cfg who p m 0 v w s.handler s (ground arith) (ground arith)
                  (ground arith),
            ),
            ground (arith, get-put (p, who) (p, who) v s.shares_and_withdrawn_rewards),
          )

      go :
          (o : Option ShareInfo) (q : Option PoolInfo)
          → get (p, who) s.shares_and_withdrawn_rewards ≡ o
          → get p s.pool_infos ≡ q
          → HasRemoved who p n s t
      go none q d e =
          let same : t ≡ s = ground arith in
          let nothing : share_of (get (p, who) s.shares_and_withdrawn_rewards) ≡ 0 = rw d refl in
          let least : min n 0 ≡ 0 = omega arith in
          rw (same, nothing, least) (nothing-Shifts cfg p s, omega arith)
      go (some (share, withdrawn)) q d e = elim (Bool-cases (is_zero (min n share))) [
        | inl idle ↦
            let same : t ≡ put_share who p none s = ground arith in
            let nothing : share_of (get (p, who) s.shares_and_withdrawn_rewards) ≡ 0 =
              ground arith in
            let least : min n 0 ≡ 0 = omega arith in
            rw (same, nothing, least)
              (
                same_share-Shifts who p none s (ground arith),
                ground (arith, get-put (p, who) (p, who) none s.shares_and_withdrawn_rewards),
              )
        | inr on ↦ next share withdrawn q d e on
      ]
        where
          next :
              (share : ℕ) (withdrawn : BTreeMap ℕ) (q : Option PoolInfo)
              → get (p, who) s.shares_and_withdrawn_rewards ≡ some (share, withdrawn)
              → get p s.pool_infos ≡ q
              → is_zero (min n share) ≡ false
              → HasRemoved who p n s t
          next share withdrawn none d e on = absurd (ground (arith, share-le-sum who p s, b.sums))
          next share withdrawn (some info) d e on =
              taken share withdrawn info (deflate cfg (min n share) share withdrawn info.rewards) d
                e on refl

  pub remove_share-removes :
      (who p n : ℕ) (s t : State H)
      → IsBalanced cfg p s
      → remove_share cfg who p n s ≡ some t
      → HasRemoved who p n s t
  unfolding remove_share Option.bind
  remove_share-removes who p n s t b h = elim (Bool-cases (is_zero n)) [
    | inl idle ↦
        let same : t ≡ s = ground arith in
        let zero_removed : n ≡ 0 = ground arith in
        let least : min 0 (share_of (get (p, who) s.shares_and_withdrawn_rewards)) ≡ 0 =
          omega arith in
        rw (same, zero_removed, least) (nothing-Shifts cfg p s, omega arith)
    | inr on ↦ go (claim_rewards cfg who p s) refl on
  ]
    where
      go :
          (r : Option (State H))
          → claim_rewards cfg who p s ≡ r
          → is_zero n ≡ false
          → HasRemoved who p n s t
      go none e on = absurd (ground arith)
      go (some u) e on =
          let (claimed, share) = claim_rewards-keeps cfg who p s u e in
          let (removed, left) =
            remove_claimed-removes who p n u t on (Shifts-IsBalanced cfg p p 0 0 s u claimed b)
              (ground arith) in
          (
            record {
              sums = λ pool. ground (arith, claimed.sums pool, removed.sums pool, share);
              totals = λ pool. ground (arith, claimed.totals pool, removed.totals pool, share);
              fits = λ pool. ground (arith, claimed.fits pool, removed.fits pool);
            },
            ground (arith, left, share),
          )

  -- Setting a share adds to it or removes from it.
  pub set_share-sets :
      (who p n : ℕ) (s t : State H)
      → IsBalanced cfg p s
      → (total_shares p s - share_of (get (p, who) s.shares_and_withdrawn_rewards)) + n
        ≤ cfg.max_share
      → set_share cfg who p n s ≡ some t
      → (old : ℕ) × (new : ℕ) × Shifts cfg p old new s t
        × (share_of (get (p, who) t.shares_and_withdrawn_rewards) ≡ n)
  unfolding set_share
  set_share-sets who p n s t b room h =
      let share = share_of (get (p, who) s.shares_and_withdrawn_rewards) in
      elim (Bool-cases (ltb share n)) [
        | inl up ↦
            let (added, now) =
              add_share-adds cfg who p (n - share) s t b
                (ground (arith, share-le-sum who p s, b.sums)) (ground arith) in
            (0, n - share, added, ground (arith, now))
        | inr down ↦
            let (removed, left) = remove_share-removes who p (share - n) s t b (ground arith) in
            (min (share - n) share, 0, removed, ground (arith, left))
      ]

  -- In a pool whose shares sum to its total, setting a share that fits in the total, if it returns,
  -- makes the share of the account exactly the new one and keeps the sum.
  pub set_share-HasShare :
      (who p n : ℕ) (s t : State H)
      → IsBalanced cfg p s
      → (total_shares p s - share_of (get (p, who) s.shares_and_withdrawn_rewards)) + n
        ≤ cfg.max_share
      → set_share cfg who p n s ≡ some t
      → IsBalanced cfg p t × (share_of (get (p, who) t.shares_and_withdrawn_rewards) ≡ n)
  set_share-HasShare who p n s t b room h =
      let (old, new, shifted, now) = set_share-sets who p n s t b room h in
      (Shifts-IsBalanced cfg p p old new s t shifted b, now)
