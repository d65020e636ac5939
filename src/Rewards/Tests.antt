-- ===== src/Rewards/Tests.antt =====
-- The rewards pallet on concrete data: payouts are kept in a list.
use open_runtime_module_libr.Storage.{put, get}
use open_runtime_module_libr.Effect.{ok}
use open_runtime_module_libr.Prelude.{
  nat_eq, refl, ◌≤◌, pair_eq, unwrap_or, some, [], ℕ, ◌≡◌, List, ◌∷◌, arith,
}
use open_runtime_module_libr.Rewards.Balanced.{total_shares, share_of, IsBalanced}
use open_runtime_module_libr.Storage.Sum.{total_of}
use open_runtime_module_libr.Rewards.Amounts.{
  shrink, deflate, claim_each, proportion, add_withdrawn, reward_to_withdraw, claim_one, inflate,
}
use open_runtime_module_libr.Rewards.Types.{Config, State}
use open_runtime_module_libr.Rewards.Shares.{
  pool_info, remove_from_pool, remove_claimed, remove_share, transfer_share_and_rewards, set_share,
  add_share, claim_rewards,
}
use open_runtime_module_libr.Rewards.Steps.{
  Reach-AllBalanced, AllBalanced, Reach, start, step, by_add_share, by_transfer,
}
use open_runtime_module_libr.Rewards.Removal.{set_share-HasShare}
use open_runtime_module_libr.Rewards.Moves.{transfer_to_self}
use open_runtime_module_libr.Rewards.Payouts.{AllSolvent, claim_one-once, claim_rewards-returns}
use mathlib.Core.Option

abbrev cfg : Config (List ℕ)
cfg = record {
  max_share = 1000;
  max_balance = 1000;
  max_u128 = 1000;
  payout = λ who pool currency amount h. amount ∷ h;
}

abbrev one_pool : State (List ℕ)
one_pool = record {
  pool_infos = put 7 (some (record { total_shares = 30; rewards = (0, (60, 0)) ∷ [] })) [];
  shares_and_withdrawn_rewards = put (7, 1) (some (20, [])) (put (7, 2) (some (10, [])) []);
  handler = [];
}

one_pool-IsBalanced : IsBalanced cfg 7 one_pool
unfolding total_of
one_pool-IsBalanced = record { sums = refl; fits = omega arith }

abbrev empty_state : State (List ℕ)
empty_state = record { pool_infos = []; shares_and_withdrawn_rewards = []; handler = [] }

empty_state-AllBalanced : AllBalanced cfg empty_state
unfolding total_of
empty_state-AllBalanced pool = record { sums = refl; fits = omega arith }

abbrev after_add : State (List ℕ)
after_add = unwrap_or (add_share cfg 1 7 20 empty_state) empty_state

abbrev after_transfer : State (List ℕ)
after_transfer = (transfer_share_and_rewards cfg 1 7 5 2 after_add).1

abbrev after_set : State (List ℕ)
after_set = unwrap_or (set_share cfg 2 7 1 one_pool) one_pool

set_share_returns : set_share cfg 2 7 1 one_pool ≡ some after_set
unfolding set_share remove_share remove_claimed remove_from_pool claim_rewards claim_each claim_one
    reward_to_withdraw proportion deflate shrink Option.bind
set_share_returns = refl

add_share_returns : add_share cfg 1 7 20 empty_state ≡ some after_add
unfolding add_share inflate add_withdrawn
add_share_returns = refl

two_steps : Reach cfg empty_state after_transfer
two_steps =
    step (step start (by_add_share 1 7 20 (omega arith) add_share_returns))
      (by_transfer 1 7 5 2 (omega arith) refl)

Reach-AllBalanced_example : IsBalanced cfg 7 after_transfer
Reach-AllBalanced_example =
    Reach-AllBalanced cfg empty_state after_transfer empty_state-AllBalanced two_steps 7

set_share-HasShare_example :
    IsBalanced cfg 7 after_set × (share_of (get (7, 2) after_set.shares_and_withdrawn_rewards) ≡ 1)
set_share-HasShare_example =
    set_share-HasShare cfg 2 7 1 one_pool after_set one_pool-IsBalanced (omega arith)
      set_share_returns

claim_rewards-returns_example :
    (t : State (List ℕ)) × (claim_rewards cfg 1 7 one_pool ≡ some t)
    × AllSolvent cfg (pool_info 7 t).rewards
claim_rewards-returns_example =
    claim_rewards-returns cfg 1 7 one_pool (omega arith) one_pool-IsBalanced
      ((omega arith, omega arith), tt)

first_claim : claim_one cfg 1 7 0 20 60 30 0 [] [] ≡ some ((0, 40) ∷ [], 40, 40 ∷ [])
unfolding claim_one reward_to_withdraw proportion
first_claim = refl

claim_one-once_example :
    (claim_one cfg 1 7 0 20 60 30 40 ((0, 40) ∷ []) (40 ∷ []) ≡ some ((0, 40) ∷ [], 40, 40 ∷ []))
    × (0 ≤ 40)
    × (40 ≤ 60)
claim_one-once_example =
    claim_one-once cfg 1 7 0 20 60 30 0 40 [] ((0, 40) ∷ []) [] (40 ∷ []) (omega arith)
      (omega arith) first_claim

transfer_to_self_example :
    ((transfer_share_and_rewards cfg 1 7 5 1 one_pool).0 ≡ ok tt)
    × (share_of (
          get
            (7, 1)
            (transfer_share_and_rewards cfg 1 7 5 1 one_pool).1.shares_and_withdrawn_rewards)
        ≡ 25)
    × (total_shares 7 (transfer_share_and_rewards cfg 1 7 5 1 one_pool).1 ≡ 30)
transfer_to_self_example =
    transfer_to_self cfg 1 7 5 20 [] one_pool refl (omega arith) (omega arith)
