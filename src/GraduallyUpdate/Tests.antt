-- ===== src/GraduallyUpdate/Tests.antt =====
-- Gradual updates on concrete data.
use open_runtime_module_libr.Storage.{put}
use open_runtime_module_libr.GraduallyUpdate.Types.{decoded, GraduallyUpdate, Config, State}
use open_runtime_module_libr.GraduallyUpdate.Bytes.{from_le_bytes}
use open_runtime_module_libr.Prelude.{
  ◌+◌, ◌*◌, ◌⊎◌, ◌≤◌, ◌<◌, arith, nat_eq, refl, ◌↔◌, none, some, ◌≡◌, [], ◌∷◌,
}
use open_runtime_module_libr.GraduallyUpdate.Progress.{distance, new_value-panics}
use open_runtime_module_libr.GraduallyUpdate.Calls.{new_value}
use open_runtime_module_libr.GraduallyUpdate.Values.{value_of, IsReady, run, run-reaches}

abbrev cfg : Config
cfg = record { update_frequency = 2; max_gradually_update = 3; max_block = 1000; max_u128 = 100000 }

-- The value of two bytes rises from 10 to 300, by 100 in two blocks.
abbrev update : GraduallyUpdate
update = record { key = 7; target_value = 44 ∷ 1 ∷ []; per_block = 50 ∷ 0 ∷ [] }

abbrev waiting : State
waiting = record {
  gradually_updates = update ∷ [];
  last_updated_at = 4;
  storage = put 7 (some (decoded (10 ∷ 0 ∷ []))) [];
  events = [];
}

waiting-IsReady : IsReady cfg update waiting
unfolding from_le_bytes
waiting-IsReady = record {
  target_bytes = (omega arith, (omega arith, tt));
  target_len = omega arith;
  step_len = omega arith;
  current_len = omega arith;
  current_fits = omega arith;
  small = omega arith;
  room = omega arith;
}

near_enough :
    distance (from_le_bytes (value_of 7 waiting)) (from_le_bytes update.target_value)
    ≤ 3 * (from_le_bytes update.per_block * 2)
unfolding from_le_bytes
near_enough = omega arith

run-reaches_example :
    (t : State) × (run cfg 3 waiting ≡ some t)
    × (t.gradually_updates ≡ [])
    × (from_le_bytes (value_of 7 t) ≡ from_le_bytes update.target_value)
run-reaches_example =
    run-reaches cfg 2 update waiting waiting-IsReady refl (omega arith) near_enough

new_value-panics_example :
    (new_value cfg 5 10 3 ≡ none) ↔ (((3 < 5) × (5 < 10)) ⊎ ((5 ≤ 3) × (100000 < 5 + 10)))
new_value-panics_example = new_value-panics cfg 5 10 3
