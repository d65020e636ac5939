-- ===== src/Vesting/Dispatched.antt =====
-- About the dispatched calls of the vesting pallet (`claim`, `claim_for`, `vested_transfer` and
-- `update_vesting_schedules` of vesting/src/lib.rs).
use open_runtime_module_libr.Vesting.Schedule.{total_amount}
use open_runtime_module_libr.Vesting.Claims.{do_claim-HasClaimed}
use open_runtime_module_libr.Vesting.Lists.{locked_sum}
use open_runtime_module_libr.Vesting.Covered.{now_of, IsCovered, HasLocks}
use open_runtime_module_libr.Prelude.{
  none, leb, ◌==◌, Bool-cases, some, Option, inr, inl, ◌⊎◌, refl, arith, List, ◌≡◌, ◌∷◌, ℕ,
}
use open_runtime_module_libr.Effect.{ok, err, Result}
use open_runtime_module_libr.Vesting.Types.{VestingSchedule, Event, State, Error, Config}
use open_runtime_module_libr.Vesting.Calls.{
  schedules_of, claim, vested_transfer, claim_for, update_vesting_schedules, do_claim,
  do_vested_transfer, do_update_vesting_schedules,
}
use open_runtime_module_libr.Vesting.Transfers.{do_claim-IsCovered}

module _ {Cur : Type 0} (cfg : Config Cur) (locks : HasLocks cfg) where
  abbrev pub AllCovered : State Cur → Type 0
  AllCovered s = (j : ℕ) → IsCovered cfg locks j s

  abbrev pub logged : Event → State Cur → State Cur
  logged e s = record s { events = e ∷ s.events }

  -- Events do not matter.
  pub quiet : (e : Event) (s : State Cur) → AllCovered s → AllCovered (logged e s)
  quiet e s c j = record { valid = (c j).valid; covered = (c j).covered; bounded = (c j).bounded }

module _ {Cur Origin Source : Type 0} (cfg : Config Cur) (ensure_signed : Origin → Result Error ℕ)
    (ensure_root : Origin → Result Error (Unit {0}))
    (vested_transfer_origin : Origin → Result Error ℕ) (lookup : Source → Result Error ℕ)
    (locks : HasLocks cfg) where
  pub claim-AllCovered :
      (origin : Origin) (s : State Cur)
      → AllCovered cfg locks s
      → AllCovered cfg locks
          (claim cfg ensure_signed ensure_root vested_transfer_origin lookup origin s).1
  unfolding claim
  claim-AllCovered origin s c = go (ensure_signed origin) refl
    where
      go :
          (r : Result Error ℕ)
          → ensure_signed origin ≡ r
          → AllCovered cfg locks
              (claim cfg ensure_signed ensure_root vested_transfer_origin lookup origin s).1
      go (err x) e = rw e c
      go (ok who) e =
          let h = do_claim-HasClaimed cfg locks who s (c who) in
          let t = (do_claim cfg who s).1 in
          let paid = locked_sum (now_of cfg locks s) (schedules_of who s) in
          let same : (claim cfg ensure_signed ensure_root vested_transfer_origin lookup origin s).1
              ≡ logged cfg locks (Event.claimed who paid) t =
            ground (arith, e, h.result) in
          rw same (
            quiet cfg locks (Event.claimed who paid) t
              λ j. do_claim-IsCovered cfg locks j who s (c who) (c j))

  pub claim_for-AllCovered :
      (origin : Origin) (dest : Source) (s : State Cur)
      → AllCovered cfg locks s
      → AllCovered cfg locks
          (claim_for cfg ensure_signed ensure_root vested_transfer_origin lookup origin dest s).1
  unfolding claim_for
  claim_for-AllCovered origin dest s c = go (ensure_signed origin) (lookup dest) refl refl
    where
      go :
          (r r2 : Result Error ℕ)
          → ensure_signed origin ≡ r
          → lookup dest ≡ r2
          → AllCovered cfg locks
              (claim_for cfg ensure_signed ensure_root vested_transfer_origin lookup origin dest
                s).1
      go (err x) r2 e f = rw e c
      go (ok n) (err x) e f = rw (e, f) c
      go (ok n) (ok who) e f =
          let h = do_claim-HasClaimed cfg locks who s (c who) in
          let t = (do_claim cfg who s).1 in
          let paid = locked_sum (now_of cfg locks s) (schedules_of who s) in
          let same : (claim_for cfg ensure_signed ensure_root vested_transfer_origin lookup origin
                dest s).1
              ≡ logged cfg locks (Event.claimed who paid) t =
            ground (arith, e, f, h.result) in
          rw same (
            quiet cfg locks (Event.claimed who paid) t
              λ j. do_claim-IsCovered cfg locks j who s (c who) (c j))

  pub update-cases :
      (origin : Origin) (who : Source) (schedules : List VestingSchedule) (s : State Cur)
      → ((update_vesting_schedules cfg ensure_signed ensure_root vested_transfer_origin lookup
            origin who schedules s).1
          ≡ s)
        ⊎ ((account : ℕ) × ((update_vesting_schedules cfg ensure_signed ensure_root
                vested_transfer_origin lookup origin who schedules s).1
              ≡ logged cfg locks
                  (Event.vesting_schedules_updated account)
                  (do_update_vesting_schedules cfg account schedules s).1))
  unfolding update_vesting_schedules
  update-cases origin who schedules s = go (ensure_root origin) (lookup who) refl refl
    where
      final :
          (account : ℕ) (r : Result Error (Unit {0}))
          → (do_update_vesting_schedules cfg account schedules s).0 ≡ r
          → ensure_root origin ≡ ok tt
          → lookup who ≡ ok account
          → ((update_vesting_schedules cfg ensure_signed ensure_root vested_transfer_origin lookup
                origin who schedules s).1
              ≡ s)
            ⊎ ((account : ℕ) × ((update_vesting_schedules cfg ensure_signed ensure_root
                    vested_transfer_origin lookup origin who schedules s).1
                  ≡ logged cfg locks
                      (Event.vesting_schedules_updated account)
                      (do_update_vesting_schedules cfg account schedules s).1))
      final account (err x) d e f = inl (ground (arith, d, e, f))
      final account (ok tt) d e f = inr (account, ground (arith, d, e, f))

      go :
          (r : Result Error (Unit {0})) (r2 : Result Error ℕ)
          → ensure_root origin ≡ r
          → lookup who ≡ r2
          → ((update_vesting_schedules cfg ensure_signed ensure_root vested_transfer_origin lookup
                origin who schedules s).1
              ≡ s)
            ⊎ ((account : ℕ) × ((update_vesting_schedules cfg ensure_signed ensure_root
                    vested_transfer_origin lookup origin who schedules s).1
                  ≡ logged cfg locks
                      (Event.vesting_schedules_updated account)
                      (do_update_vesting_schedules cfg account schedules s).1))
      go (err x) r2 e f = inl (ground (arith, e))
      go (ok tt) (err x) e f = inl (ground (arith, e, f))
      go (ok tt) (ok account) e f =
          final account (do_update_vesting_schedules cfg account schedules s).0 refl e f

  pub transfer-cases :
      (origin : Origin) (dest : Source) (schedule : VestingSchedule) (s : State Cur)
      → ((vested_transfer cfg ensure_signed ensure_root vested_transfer_origin lookup origin dest
            schedule s).1
          ≡ s)
        ⊎ ((from : ℕ) × (to : ℕ) × ((do_vested_transfer cfg from to schedule s).0 ≡ ok tt)
            × ((vested_transfer cfg ensure_signed ensure_root vested_transfer_origin lookup origin
                  dest schedule s).1
                ≡ logged cfg locks
                    (Event.vesting_schedule_added from to schedule)
                    (do_vested_transfer cfg from to schedule s).1))
  unfolding vested_transfer
  transfer-cases origin dest schedule s = go (vested_transfer_origin origin) (lookup dest) refl refl
    where
      final :
          (from to : ℕ) (r : Result Error (Unit {0})) (o : Option ℕ)
          → (do_vested_transfer cfg from to schedule s).0 ≡ r
          → total_amount cfg schedule ≡ o
          → vested_transfer_origin origin ≡ ok from
          → lookup dest ≡ ok to
          → (((vested_transfer cfg ensure_signed ensure_root vested_transfer_origin lookup origin
                  dest schedule s).1
                ≡ s)
              ⊎ (((do_vested_transfer cfg from to schedule s).0 ≡ ok tt)
                  × ((vested_transfer cfg ensure_signed ensure_root vested_transfer_origin lookup
                        origin dest schedule s).1
                      ≡ logged cfg locks
                          (Event.vesting_schedule_added from to schedule)
                          (do_vested_transfer cfg from to schedule s).1)))
      final from to (err x) none d o e f = inl (ground (arith, d, o, e, f))
      final from to (err x) (some n) d o e f = inl (ground (arith, d, o, e, f))
      final from to (ok tt) none d o e f = elim (Bool-cases (to == from)) [
        | inl self ↦ inl (ground (arith, d, o, e, f))
        | inr other ↦ inr (d, ground (arith, d, o, e, f))
      ]
      final from to (ok tt) (some n) d o e f = elim (Bool-cases (to == from)) [
        | inl self ↦ elim (Bool-cases (leb n (cfg.free_balance from s.currency))) [
          | inl enough ↦ inr (d, ground (arith, d, o, e, f))
          | inr short ↦ inl (ground (arith, d, o, e, f))
        ]
        | inr other ↦ inr (d, ground (arith, d, o, e, f))
      ]

      go :
          (r r2 : Result Error ℕ)
          → vested_transfer_origin origin ≡ r
          → lookup dest ≡ r2
          → ((vested_transfer cfg ensure_signed ensure_root vested_transfer_origin lookup origin
                dest schedule s).1
              ≡ s)
            ⊎ ((from : ℕ) × (to : ℕ) × ((do_vested_transfer cfg from to schedule s).0 ≡ ok tt)
                × ((vested_transfer cfg ensure_signed ensure_root vested_transfer_origin lookup
                      origin dest schedule s).1
                    ≡ logged cfg locks
                        (Event.vesting_schedule_added from to schedule)
                        (do_vested_transfer cfg from to schedule s).1))
      go (err x) r2 e f = inl (ground (arith, e))
      go (ok n) (err x) e f = inl (ground (arith, e, f))
      go (ok from) (ok to) e f =
          elim (final from to (do_vested_transfer cfg from to schedule s).0
            (total_amount cfg schedule) refl refl e f) [
              | inl same ↦ inl same
              | inr (moved, same) ↦ inr (from, to, moved, same)
            ]
