-- ===== src/Nft/Tests.antt =====
-- The nft pallet on concrete data.
use open_runtime_module_libr.Nft.Genesis.{burn-mint, HasUndone}
use open_runtime_module_libr.Nft.Made.{create_class-IsConsistent}
use open_runtime_module_libr.Effect.{ok, err}
use open_runtime_module_libr.Nft.Consistent.{IsConsistent}
use open_runtime_module_libr.Prelude.{refl, false, inr, true, ◌≡◌, ℕ, [], ◌∷◌, pair_eq, nat_eq}
use open_runtime_module_libr.Storage.Sum.{total_of}
use open_runtime_module_libr.Nft.Types.{Error, triple_eq, State, Config}
use open_runtime_module_libr.Nft.Calls.{burn, mint, create_class, transfer, destroy_class, is_owner}
use open_runtime_module_libr.Nft.Steps.{
  Reach, start, step, by_create_class, by_mint, by_transfer, Reach-IsConsistent,
}

abbrev cfg : Config
cfg = record {
  max_class_id = 10;
  max_token_id = 10;
  max_class_metadata = 4;
  max_token_metadata = 4;
}

abbrev empty_state : State ℕ ℕ
empty_state = record {
  next_class_id = 0;
  next_token_id = [];
  classes = [];
  tokens = [];
  tokens_by_owner = [];
}

empty_state-IsConsistent : IsConsistent empty_state
unfolding total_of
empty_state-IsConsistent = record {
  owners = λ o c i. refl;
  issuances = λ c. refl;
  ids = λ c i. inr refl;
  class_ids = λ c. inr refl;
}

abbrev with_class : State ℕ ℕ
with_class = (create_class cfg 1 (7 ∷ []) 0 empty_state).1

abbrev with_token : State ℕ ℕ
with_token = (mint cfg 2 0 [] 0 with_class).1

abbrev moved_token : State ℕ ℕ
moved_token = (transfer 2 3 0 0 with_token).1

three_steps : Reach cfg empty_state moved_token
three_steps =
    step (step (step start (by_create_class 1 (7 ∷ []) 0 refl)) (by_mint 2 0 [] 0 refl))
      (by_transfer 2 3 0 0 refl)

Reach-IsConsistent_example : IsConsistent moved_token
Reach-IsConsistent_example =
    Reach-IsConsistent cfg empty_state moved_token empty_state-IsConsistent three_steps

new_owner : (is_owner 3 0 0 moved_token ≡ true) × (is_owner 2 0 0 moved_token ≡ false)
unfolding is_owner transfer mint create_class
new_owner = (refl, refl)

class_stays : (destroy_class 1 0 moved_token).0 ≡ err Error.cannot_destroy_class
unfolding destroy_class transfer mint create_class
class_stays = refl

with_class-IsConsistent : IsConsistent with_class
with_class-IsConsistent =
    create_class-IsConsistent cfg 1 (7 ∷ []) 0 empty_state empty_state-IsConsistent

mint_returns : (mint cfg 2 0 [] 0 with_class).0 ≡ ok 0
unfolding mint create_class
mint_returns = refl

burn-mint_example :
    ((burn 2 0 0 with_token).0 ≡ ok tt) × HasUndone cfg 0 with_class (burn 2 0 0 with_token).1
burn-mint_example = burn-mint cfg 2 0 0 [] 0 with_class with_class-IsConsistent mint_returns
