-- ===== src/Oracle/Tests.antt =====
-- The oracle on concrete data: three operators, and the median of what they feed.
use open_runtime_module_libr.Effect.{Result, err, ok}
use open_runtime_module_libr.Prelude.{
  Option, refl, arith, some, ◌≡◌, ℕ, List, none, [], ◌∷◌, pair_eq,
}
use open_runtime_module_libr.Oracle.Types.{Error, State, Config, TimestampedValue}
use open_runtime_module_libr.Oracle.Combine.{combine_data, sort_in, sort_by_value, nth}
use open_runtime_module_libr.Oracle.Calls.{dispatch, feed_values, ensure_account}
use open_runtime_module_libr.Oracle.Feeds.{feeds_for, IsOrdered}
use open_runtime_module_libr.Oracle.Blocks.{
  WithinBlock, start, step, by_feed_values, by_runtime, feed_values-once,
}
use open_runtime_module_libr.OrderedSet.{insert, binary_search, insert_at}

abbrev cfg : Config (List ℕ)
cfg = record {
  root_operator_account_id = 0;
  max_has_dispatched_size = 5;
  combine_data = λ now key values prev_value. combine_data 1000 1 10 now values prev_value;
  on_new_data = λ who key value h. value ∷ h;
}

abbrev quiet_state : State (List ℕ)
quiet_state = record {
  raw_values = [];
  values = [];
  has_dispatched = 4 ∷ [];
  members = 3 ∷ 4 ∷ 5 ∷ [];
  now = 20;
  events = [];
  handler = [];
}

quiet_state-IsOrdered : IsOrdered cfg quiet_state
quiet_state-IsOrdered = record { sorted = (tt, tt); fits = omega arith }

abbrev signed : ℕ → Result Error (Option ℕ)
signed origin = ok (some origin)

abbrev feed_state : State (List ℕ)
feed_state = (feed_values cfg signed 3 ((7, 50) ∷ []) quiet_state).1

feed_is_taken : (feed_values cfg signed 3 ((7, 50) ∷ []) quiet_state).0 ≡ ok tt
unfolding feed_values ensure_account dispatch insert binary_search insert_at
feed_is_taken = refl

three_is_member : feeds_for cfg signed 3 quiet_state ≡ ok 3
unfolding ensure_account
three_is_member = refl

-- Between the two calls, operator 5 feeds, operator 3 tries again, and the time goes on.
abbrev later_state : State (List ℕ)
later_state =
    record (feed_values cfg signed 3 ((7, 55) ∷ [])
      (feed_values cfg signed 5 ((7, 40) ∷ []) feed_state).1).1 {
        members = 3 ∷ 5 ∷ [];
        now = 26;
        handler = [];
      }

later_state-WithinBlock : WithinBlock cfg signed feed_state later_state
later_state-WithinBlock =
    step
      (step (step start (by_feed_values 5 ((7, 40) ∷ []) refl))
        (by_feed_values 3 ((7, 55) ∷ []) refl))
      (by_runtime (3 ∷ 5 ∷ []) 26 [] refl)

three_stays_member : feeds_for cfg signed 3 later_state ≡ ok 3
unfolding ensure_account
three_stays_member = refl

feed_values-once_example :
    feed_values cfg signed 3 ((7, 60) ∷ []) later_state ≡ (err Error.already_feeded, later_state)
feed_values-once_example =
    feed_values-once cfg signed 3 3 ((7, 50) ∷ []) ((7, 60) ∷ []) 3 quiet_state later_state
      quiet_state-IsOrdered three_is_member feed_is_taken later_state-WithinBlock three_stays_member

abbrev fed_values : List TimestampedValue
fed_values =
    record { value = 9; timestamp = 15 }
    ∷ record { value = 2; timestamp = 5 }
    ∷ record { value = 4; timestamp = 18 }
    ∷ record { value = 7; timestamp = 12 }
    ∷ []

median_is_seven :
    combine_data 1000 2 10 20 fed_values none ≡ some (record { value = 7; timestamp = 12 })
unfolding combine_data sort_by_value sort_in nth
median_is_seven = refl
