-- ===== src/GraduallyUpdate/Values.antt =====
-- About stored values over many blocks (`on_finalize` of gradually-update/src/lib.rs).
use open_runtime_module_libr.Storage.Laws.{get-put}
use open_runtime_module_libr.GraduallyUpdate.Progress.{
  distance, new_value-Approaches, new_value-returns,
}
use open_runtime_module_libr.Storage.{put}
use open_runtime_module_libr.GraduallyUpdate.Types.{decoded, Event, State, GraduallyUpdate, Config}
use open_runtime_module_libr.GraduallyUpdate.Bytes.{
  length-le_bytes, from-le_bytes, encode, from_le_bytes_lt, from_le_bytes, le_value, AllBytes,
  le_bytes,
}
use open_runtime_module_libr.Prelude.{
  inr, inl, Bool-cases, if◌then◌else◌, ◌-◌, refl, Option, ◌∷◌, min, ◌==◌, not, ◌+◌, some, nat_eq,
  ◌^◌, ◌≡◌, ◌<◌, ◌≤◌, unwrap_or, ◌/◌, ◌*◌, arith, List, length, ℕ, [], zero, suc,
}
use open_runtime_module_libr.GraduallyUpdate.Calls.{
  get_bytes, update_all, need_update, on_finalize, new_value, apply_update,
}
use mathlib.Core.Option

abbrev pub value_of : ℕ → State → List ℕ
value_of key s = unwrap_or (get_bytes key s.storage) []

le_bytes-AllBytes : (count n : ℕ) → AllBytes (le_bytes count n)
unfolding le_bytes
le_bytes-AllBytes zero n = tt
le_bytes-AllBytes (suc count) n = (omega arith, le_bytes-AllBytes count (n / 256))

module _ (cfg : Config) where
  -- One update is scheduled; its numbers have at most 16 bytes, and a step is no more than the target
  -- and does not leave the `u128` above it.
  pub record IsReady (update : GraduallyUpdate) (s : State) : Type 0 where
    pub target_bytes : AllBytes update.target_value
    pub target_len : length update.target_value ≤ 16
    pub step_len : length update.per_block ≤ 16
    pub current_len : length (value_of update.key s) ≤ 16
    pub current_fits : from_le_bytes (value_of update.key s) < 256 ^ length update.target_value
    pub small :
        from_le_bytes update.per_block * cfg.update_frequency ≤ from_le_bytes update.target_value
    pub room :
        from_le_bytes update.target_value + from_le_bytes update.per_block * cfg.update_frequency
        ≤ cfg.max_u128

  abbrev step_of : GraduallyUpdate → ℕ
  step_of update = from_le_bytes update.per_block * cfg.update_frequency

  -- The new bytes hold the new value, which is kept until it is the target.
  apply_update-writes :
      (update : GraduallyUpdate) (s : State)
      → IsReady update s
      → (value : ℕ) × (bytes : List ℕ) × (new_value cfg
            (from_le_bytes (value_of update.key s))
            (step_of update)
            (from_le_bytes update.target_value)
          ≡ some value)
        × (apply_update cfg update s.storage
            ≡ some (bytes, not (value == from_le_bytes update.target_value)))
        × (from_le_bytes bytes ≡ value)
        × (value < 256 ^ length update.target_value)
        × (length bytes ≡ length update.target_value)
  unfolding apply_update le_value Option.bind
  apply_update-writes update s r =
      let current = from_le_bytes (value_of update.key s) in
      let target = from_le_bytes update.target_value in
      let len = length update.target_value in
      let (value, e) = new_value-returns cfg current (step_of update) target r.small r.room in
      let near = new_value-Approaches cfg current (step_of update) target value e in
      let below : target < 256 ^ len = from_le_bytes_lt update.target_value r.target_bytes in
      let fits : value < 256 ^ len = ground (arith, near.between, r.current_fits, below) in
      let whole : min len 16 ≡ len = omega (arith, r.target_len) in
      (
        value,
        encode len value,
        e,
        ground (arith, e, r.current_len, r.step_len, r.target_len, r.room),
        rw whole (from-le_bytes len value fits),
        fits,
        rw whole (length-le_bytes len value),
      )

  -- The blocks at which updates are due, one after the other.
  abbrev pub run : ℕ → State → Option State
  run zero s = some s
  run (suc n) s = Option.bind (on_finalize cfg (s.last_updated_at + cfg.update_frequency) s) (run n)

  abbrev target_of : GraduallyUpdate → ℕ
  target_of update = from_le_bytes update.target_value

  -- One block
  record HasMoved (update : GraduallyUpdate) (s t : State) : Type 0 where
    nearer :
        distance (from_le_bytes (value_of update.key t)) (target_of update)
        ≡ distance (from_le_bytes (value_of update.key s)) (target_of update) - step_of update
    updates :
        t.gradually_updates
        ≡ (if from_le_bytes (value_of update.key t) == target_of update then [] else update ∷ [])
    last : t.last_updated_at ≡ s.last_updated_at + cfg.update_frequency
    ready : IsReady update t

  on_finalize-HasMoved :
      (update : GraduallyUpdate) (s : State)
      → IsReady update s
      → s.gradually_updates ≡ update ∷ []
      → s.last_updated_at + cfg.update_frequency ≤ cfg.max_block
      → (t : State) × (on_finalize cfg (s.last_updated_at + cfg.update_frequency) s ≡ some t)
        × HasMoved update s t
  unfolding on_finalize need_update update_all Option.bind
  on_finalize-HasMoved update s r one fits =
      let (value, bytes, e, applied, held, lt, len) = apply_update-writes update s r in
      let now = s.last_updated_at + cfg.update_frequency in
      let keep = not (value == target_of update) in
      let t : State = record {
        gradually_updates = if keep then update ∷ [] else [];
        last_updated_at = now;
        storage = put update.key (some (decoded bytes)) s.storage;
        events = Event.updated now update.key bytes ∷ s.events;
      } in
      let stored : value_of update.key t ≡ bytes =
        ground (arith, get-put update.key update.key (some (decoded bytes)) s.storage) in
      let near =
        new_value-Approaches cfg (from_le_bytes (value_of update.key s)) (step_of update)
          (target_of update) value e in
      (
        t,
        ground (arith, one, applied),
        record {
          nearer = rw (stored, held) near.nearer;
          updates = rw (stored, held) (ground arith);
          last = refl;
          ready = record {
            target_bytes = r.target_bytes;
            target_len = r.target_len;
            step_len = r.step_len;
            current_len = rw (stored, len) r.target_len;
            current_fits = rw (stored, held) lt;
            small = r.small;
            room = r.room;
          };
        },
      )

  -- A block with nothing scheduled leaves all values.
  on_finalize-idle :
      (s : State)
      → s.gradually_updates ≡ []
      → s.last_updated_at + cfg.update_frequency ≤ cfg.max_block
      → (t : State) × (on_finalize cfg (s.last_updated_at + cfg.update_frequency) s ≡ some t)
        × (t.gradually_updates ≡ [])
        × (t.storage ≡ s.storage)
        × (t.last_updated_at ≡ s.last_updated_at + cfg.update_frequency)
  unfolding on_finalize need_update update_all
  on_finalize-idle s none_left fits = (
    record s { last_updated_at = s.last_updated_at + cfg.update_frequency },
    ground (arith, none_left),
    none_left,
    refl,
    refl,
  )

  run-idle :
      (n key : ℕ) (s : State)
      → s.gradually_updates ≡ []
      → s.last_updated_at + n * cfg.update_frequency ≤ cfg.max_block
      → (t : State) × (run n s ≡ some t)
        × (t.gradually_updates ≡ [])
        × (value_of key t ≡ value_of key s)
  unfolding Option.bind
  run-idle zero key s none_left fits = (s, refl, none_left, refl)
  run-idle (suc n) key s none_left fits =
      let (t, e, left, same, last) = on_finalize-idle s none_left (omega arith) in
      let (u, f, gone, kept) = run-idle n key t left (omega (arith, last)) in
      (u, rw e f, gone, ground (arith, kept, same))

  -- With one update scheduled whose step is no more than the target and stays a u128 above it, and a
  -- stored value that the bytes of the target can hold, as many due blocks as the steps from the
  -- value to the target, or more, do not panic, and leave the target stored and nothing scheduled.
  pub run-reaches :
      (n : ℕ) (update : GraduallyUpdate) (s : State)
      → IsReady update s
      → s.gradually_updates ≡ update ∷ []
      → s.last_updated_at + suc n * cfg.update_frequency ≤ cfg.max_block
      → distance (from_le_bytes (value_of update.key s)) (target_of update) ≤ suc n * step_of update
      → (t : State) × (run (suc n) s ≡ some t)
        × (t.gradually_updates ≡ [])
        × (from_le_bytes (value_of update.key t) ≡ target_of update)
  unfolding Option.bind
  run-reaches zero update s r one fits near =
      let (t, e, moved) = on_finalize-HasMoved update s r one (omega arith) in
      let there : from_le_bytes (value_of update.key t) ≡ target_of update =
        omega (arith, moved.nearer, near) in
      (t, rw e refl, ground (arith, moved.updates, there), there)
  run-reaches (suc n) update s r one fits near =
      let (t, e, moved) = on_finalize-HasMoved update s r one (omega arith) in
      let now = from_le_bytes (value_of update.key t) in
      elim (Bool-cases (now == target_of update)) [
        | inl reached ↦
            let (u, f, gone, kept) =
              run-idle (suc n) update.key t (ground (arith, moved.updates))
                (omega (arith, fits, moved.last)) in
            (u, rw e f, gone, rw kept (ground arith))
        | inr away ↦
            let (u, f, gone, there) =
              run-reaches n update t moved.ready (ground (arith, moved.updates))
                (omega (arith, fits, moved.last)) (omega (arith, moved.nearer, near)) in
            (u, rw e f, gone, there)
      ]
