-- ===== src/Oracle/Calls.antt =====
-- The operations of the oracle pallet (oracle/src/lib.rs).
use open_runtime_module_libr.Storage.{get, put, Map}
use open_runtime_module_libr.Effect.{
  modify, ◌>>◌, reading, ◌>>=◌, ok, err, dispatched, Result, Action,
}
use open_runtime_module_libr.Oracle.Types.{Error, TimestampedValue, Event, State, Config}
use open_runtime_module_libr.Prelude.{
  nat_eq, ◌||◌, none, ◌==◌, if◌then◌else◌, ◌++◌, some, false, Option, Bool, List, ℕ, [], ◌∷◌,
  pair_eq,
}
use open_runtime_module_libr.OrderedSet.{insert}

abbrev pub is_member : ℕ → List ℕ → Bool
is_member who [] = false
is_member who (x ∷ members) = x == who || is_member who members

module _ {H : Type 0} where
  -- The raw values of a key that these accounts have fed
  abbrev pub raw_values_of : (key : ℕ) → List ℕ → State H → List TimestampedValue
  raw_values_of key [] s = []
  raw_values_of key (x ∷ accounts) s =
      let rest = raw_values_of key accounts s in
      elim (get (x, key) s.raw_values) [ none ↦ rest | some v ↦ v ∷ rest ]

module _ {H : Type 0} (cfg : Config H) where
  -- `Pallet::read_raw_values`
  unfoldable pub read_raw_values : (key : ℕ) → State H → List TimestampedValue
  read_raw_values key s = raw_values_of key (s.members ++ cfg.root_operator_account_id ∷ []) s

  -- `Pallet::combined`
  unfoldable pub combined : (key : ℕ) → State H → Option TimestampedValue
  combined key s = cfg.combine_data s.now key (read_raw_values key s) (get key s.values)

  -- `Pallet::ensure_account`
  unfoldable pub ensure_account : Option ℕ → State H → Result Error ℕ
  ensure_account none s = ok cfg.root_operator_account_id
  ensure_account (some who) s = if is_member who s.members then ok who else err Error.no_permission

  -- One value of the loop of `do_feed_values`
  unfoldable pub feed_one : (who key value : ℕ) → State H → State H
  feed_one who key value s =
      let fed : State H = record s {
        raw_values =
            put (who, key) (some (record { value = value; timestamp = s.now })) s.raw_values;
      } in
      let updated : State H = elim (combined key fed) [
        | none ↦ fed
        | some v ↦ record fed { values = put key (some v) fed.values }
      ] in
      record updated { handler = cfg.on_new_data who key value updated.handler }

  -- The loop of `do_feed_values`
  unfoldable pub feed_each : (who : ℕ) → List (ℕ × ℕ) → State H → State H
  feed_each who [] s = s
  feed_each who ((key, value) ∷ values) s = feed_each who values (feed_one who key value s)

  -- `Pallet::do_feed_values`
  unfoldable pub do_feed_values : (who : ℕ) → List (ℕ × ℕ) → State H → State H
  do_feed_values who values s =
      let t = feed_each who values s in
      record t { events = Event.new_feed_data who values ∷ t.events }

  -- `HasDispatched::mutate` of `feed_values`
  unfoldable pub dispatch : (who : ℕ) → Action (State H) Error (Unit {0})
  dispatch who s =
      let (inserted, set) = insert cfg.max_has_dispatched_size who s.has_dispatched in
      (if inserted then ok tt else err Error.already_feeded, record s { has_dispatched = set })

  -- `DataFeeder::feed_value`
  unfoldable pub feed_value : Option ℕ → (key value : ℕ) → Action (State H) Error (Unit {0})
  feed_value who key value s = elim (ensure_account who s) [
    | err e ↦ (err e, s)
    | ok account ↦ (ok tt, do_feed_values account ((key, value) ∷ []) s)
  ]

  -- `Pallet::on_finalize`
  unfoldable pub on_finalize : State H → State H
  on_finalize s = record s { has_dispatched = [] }

module _ {H Origin : Type 0} (cfg : Config H)
    (ensure_feeder : Origin → Result Error (Option ℕ)) where
  -- Call 0, `feed_values`
  unfoldable pub feed_values : Origin → List (ℕ × ℕ) → Action (State H) Error (Unit {0})
  feed_values origin values = dispatched do
    feeder ← reading (λ _. ensure_feeder origin)
    who ← reading (ensure_account cfg feeder)
    dispatch cfg who
    modify (do_feed_values cfg who values)

-- `RawValues::clear_prefix`
abbrev pub clear_prefix : ℕ → Map (ℕ × ℕ) TimestampedValue → Map (ℕ × ℕ) TimestampedValue
clear_prefix who [] = []
clear_prefix who (((account, key), v) ∷ m) =
    ((account, key), if account == who then none else v) ∷ clear_prefix who m

module _ {H : Type 0} where
  -- `ChangeMembers::change_members_sorted`
  unfoldable pub change_members_sorted : (outgoing : List ℕ) → State H → State H
  change_members_sorted [] s = s
  change_members_sorted (removed ∷ outgoing) s =
      change_members_sorted outgoing record s { raw_values = clear_prefix removed s.raw_values }
