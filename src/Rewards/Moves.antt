-- ===== src/Rewards/Moves.antt =====
-- About moved shares (`transfer_share_and_rewards` of rewards/src/lib.rs).
use open_runtime_module_libr.Rewards.Removal.{same_share-Shifts}
use open_runtime_module_libr.Numeric.{saturating_add}
use open_runtime_module_libr.Effect.{ok}
use open_runtime_module_libr.Rewards.Amounts.{split_rewards}
use open_runtime_module_libr.BTreeMap.{BTreeMap}
use open_runtime_module_libr.Storage.{put, get}
use open_runtime_module_libr.Rewards.Types.{ShareInfo, State, Config}
use open_runtime_module_libr.Storage.Sum.{two-le-total_of}
use open_runtime_module_libr.Storage.Laws.{get-put}
use open_runtime_module_libr.Prelude.{
  ◌<◌, ◌≢◌, ltb, inr, ◌+◌, inl, Bool-cases, refl, nat_eq, ◌≤◌, none, arith, false, Option, ◌-◌,
  some, ◌≡◌, ℕ, pair_eq,
}
use open_runtime_module_libr.Rewards.Shares.{share_info, transfer_share_and_rewards, put_share}
use open_runtime_module_libr.Rewards.Balanced.{
  share_weight, total_shares, sum-put_share, Shifts, share_of, IsBalanced,
}

module _ {H : Type 0} (cfg : Config H) where
  -- A transfer between two accounts, whatever comes of it.
  pub transfer-Shifts :
      (who p n other : ℕ) (s : State H)
      → who ≢ other
      → IsBalanced cfg p s
      → Shifts cfg p 0 0 s (transfer_share_and_rewards cfg who p n other s).1
  unfolding transfer_share_and_rewards
  transfer-Shifts who p n other s away b = go (get (p, who) s.shares_and_withdrawn_rewards) refl
    where
      go :
          (o : Option ShareInfo)
          → get (p, who) s.shares_and_withdrawn_rewards ≡ o
          → Shifts cfg p 0 0 s (transfer_share_and_rewards cfg who p n other s).1
      go none e =
          let same : (transfer_share_and_rewards cfg who p n other s).1
              ≡ put_share other p (some (share_info other p s)) s =
            ground (arith, e) in
          rw same (same_share-Shifts cfg other p (some (share_info other p s)) s (ground arith))
      go (some (share, rewards)) e = elim (Bool-cases (ltb n share)) [
        | inl fits ↦
            let (increased_share, increased_rewards) = share_info other p s in
            let parts = split_rewards cfg n share rewards increased_rewards in
            let v : Option ShareInfo = some (share - n, parts.0) in
            let w : Option ShareInfo =
              some (saturating_add cfg.max_share increased_share n, parts.1) in
            let same : (transfer_share_and_rewards cfg who p n other s).1
                ≡ put_share other p w (put_share who p v s) =
              ground (arith, e) in
            let apart : pair_eq.beq (p, who) (p, other) ≡ false = ground arith in
            let untouched : get (p, other) (put_share who p v s).shares_and_withdrawn_rewards
                ≡ get (p, other) s.shares_and_withdrawn_rewards =
              ground (arith, get-put (p, other) (p, who) v s.shares_and_withdrawn_rewards) in
            let room =
              two-le-total_of (share_weight p) (p, who) (p, other) s.shares_and_withdrawn_rewards
                apart in
            rw same (record {
              sums = λ pool. ground (
                arith,
                e,
                untouched,
                room,
                sum-put_share pool who p v s,
                sum-put_share pool other p w (put_share who p v s),
              );
              totals = λ pool. omega arith;
              fits = λ pool. inl (omega arith);
            })
        | inr much ↦
            let same : (transfer_share_and_rewards cfg who p n other s).1
                ≡ put_share other p (some (share_info other p s)) s =
              ground (arith, e) in
            rw same (same_share-Shifts cfg other p (some (share_info other p s)) s (ground arith))
      ]

  -- A transfer of less than its share by an account to itself, if share and part together are a
  -- share value, succeeds and adds the part to its share, and the total of the pool stays.
  pub transfer_to_self :
      (who p n share : ℕ) (rewards : BTreeMap ℕ) (s : State H)
      → get (p, who) s.shares_and_withdrawn_rewards ≡ some (share, rewards)
      → n < share
      → share + n ≤ cfg.max_share
      → ((transfer_share_and_rewards cfg who p n who s).0 ≡ ok tt)
        × (share_of (
              get
                (p, who)
                (transfer_share_and_rewards cfg who p n who s).1.shares_and_withdrawn_rewards)
            ≡ share + n)
        × (total_shares p (transfer_share_and_rewards cfg who p n who s).1 ≡ total_shares p s)
  unfolding transfer_share_and_rewards
  transfer_to_self who p n share rewards s e lt room =
      let parts = split_rewards cfg n share rewards rewards in
      let v : Option ShareInfo = some (share - n, parts.0) in
      let w : Option ShareInfo = some (saturating_add cfg.max_share share n, parts.1) in
      ground (arith, e, get-put (p, who) (p, who) w (put (p, who) v s.shares_and_withdrawn_rewards))
