-- ===== src/GraduallyUpdate/Calls.antt =====
-- The calls of the gradually-update pallet and its work at the end of a block
-- (gradually-update/src/lib.rs). `none` is a panic, which in a call is `panicked`.
use open_runtime_module_libr.GraduallyUpdate.Bytes.{encode, le_value}
use open_runtime_module_libr.Numeric.{checked_add, checked_mul, checked_sub, saturating_add}
use open_runtime_module_libr.Storage.{get, put, Map}
use open_runtime_module_libr.Effect.{
  pure, modify, ok, ensure, gets, ◌>>=◌, reading, err, ◌>>◌, dispatched, Action, Result,
}
use open_runtime_module_libr.Prelude.{
  not, retain, min, ◌++◌, none, nat_eq, max, length, ltb, some, unwrap_or, leb, if◌then◌else◌,
  Option, ◌&&◌, ◌||◌, true, ◌==◌, false, ℕ, Bool, List, [], ◌∷◌,
}
use open_runtime_module_libr.GraduallyUpdate.Types.{
  undecodable, RawValue, decoded, Event, State, Error, Config, GraduallyUpdate,
}
use mathlib.Core.Option

abbrev bytes_eq : List ℕ → List ℕ → Bool
bytes_eq [] [] = true
bytes_eq [] (c ∷ v) = false
bytes_eq (b ∷ u) [] = false
bytes_eq (b ∷ u) (c ∷ v) = b == c && bytes_eq u v

abbrev update_eq : GraduallyUpdate → GraduallyUpdate → Bool
update_eq u v =
    u.key == v.key && (bytes_eq u.target_value v.target_value && bytes_eq u.per_block v.per_block)

abbrev contains : GraduallyUpdate → List GraduallyUpdate → Bool
contains update [] = false
contains update (u ∷ updates) = update_eq u update || contains update updates

abbrev bytes_of : Option RawValue → Option (List ℕ)
bytes_of none = none
bytes_of (some (decoded bytes)) = some bytes
bytes_of (some undecodable) = none

-- `storage::unhashed::get::<StorageValueBytes<T>>`
abbrev pub get_bytes : (key : ℕ) → Map ℕ RawValue → Option (List ℕ)
get_bytes key storage = bytes_of (get key storage)

module _ (cfg : Config) where
  -- The value after one step
  unfoldable pub new_value : (current step target : ℕ) → Option ℕ
  new_value current step target =
      if ltb target current
      then Option.map (max target) (checked_sub current step)
      else Option.map (min target) (checked_add cfg.max_u128 current step)

  -- One update of `_on_finalize`: the new bytes, and whether the update is kept
  unfoldable pub apply_update : GraduallyUpdate → Map ℕ RawValue → Option (List ℕ × Bool)
  apply_update update storage =
      Option.bind (le_value (unwrap_or (get_bytes update.key storage) [])) λ current.
        Option.bind (le_value update.per_block) λ per_block.
          Option.bind (checked_mul cfg.max_u128 per_block cfg.update_frequency) λ step.
            Option.bind (le_value update.target_value) λ target.
              Option.map
                (λ value. (encode (length update.target_value) value, not (value == target)))
                (new_value current step target)

  -- The `retain` of `_on_finalize`
  unfoldable pub update_all :
      (now : ℕ) → List GraduallyUpdate → State → Option (List GraduallyUpdate × State)
  update_all now [] s = some ([], s)
  update_all now (update ∷ updates) s = Option.bind (apply_update update s.storage) λ (value, keep).
      Option.map (λ (kept, t). (if keep then update ∷ kept else kept, t))
        (update_all now updates record s {
          storage = put update.key (some (decoded value)) s.storage;
          events = Event.updated now update.key value ∷ s.events;
        })

  -- `Pallet::_need_update`
  unfoldable pub need_update : (now : ℕ) → State → Bool
  need_update now s = leb (saturating_add cfg.max_block s.last_updated_at cfg.update_frequency) now

  -- `Pallet::_on_finalize`
  unfoldable pub on_finalize : (now : ℕ) → State → Option State
  on_finalize now s =
      if need_update now s
      then Option.map
          (λ (kept, t). record t {
            gradually_updates =
                if ltb (length kept) (length s.gradually_updates)
                then kept
                else s.gradually_updates;
            last_updated_at = now;
          })
          (update_all now s.gradually_updates s)
      else some s

  -- The closure of `gradually_update` that schedules the update
  unfoldable pub schedule_update : GraduallyUpdate → Action State Error (Unit {0})
  schedule_update update s =
      if contains update s.gradually_updates
      then (err Error.gradually_update_has_existed, s)
      else if ltb (length s.gradually_updates) cfg.max_gradually_update
      then (ok tt, record s { gradually_updates = s.gradually_updates ++ update ∷ [] })
      else (err Error.max_gradually_update_exceeded, s)

-- The check of `gradually_update` against the value that the key has
abbrev fits_stored : GraduallyUpdate → Option RawValue → Action State Error (Unit {0})
fits_stored update none = pure tt
fits_stored update (some undecodable) = reading λ _. err Error.panicked
fits_stored update (some (decoded current_value)) =
    ensure (length current_value == length update.target_value) Error.invalid_target_value

module _ {Origin : Type 0} (cfg : Config) (ensure_origin : Origin → Result Error (Unit {0})) where
  -- Call 0, `gradually_update`
  unfoldable pub gradually_update : Origin → GraduallyUpdate → Action State Error (Unit {0})
  gradually_update origin update = dispatched do
    reading (λ _. ensure_origin origin)
    ensure
        (length update.per_block == length update.target_value && leb (length update.per_block) 16)
        Error.invalid_per_block_or_target_value
    stored ← gets (λ s. get update.key s.storage)
    fits_stored update stored
    schedule_update cfg update
    modify λ s. record s {
      events =
          Event.gradually_update_added update.key update.per_block update.target_value ∷ s.events;
    }

  -- Call 1, `cancel_gradually_update`
  unfoldable pub cancel_gradually_update : Origin → (key : ℕ) → Action State Error (Unit {0})
  cancel_gradually_update origin key = dispatched do
    reading (λ _. ensure_origin origin)
    old_len ← gets (λ s. length s.gradually_updates)
    modify λ s. record s {
      gradually_updates = retain (λ item. not (item.key == key)) s.gradually_updates;
    }
    new_len ← gets (λ s. length s.gradually_updates)
    ensure (not (new_len == old_len)) Error.gradually_update_not_found
    modify λ s. record s { events = Event.gradually_update_cancelled key ∷ s.events }
