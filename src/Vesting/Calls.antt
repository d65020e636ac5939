-- ===== src/Vesting/Calls.antt =====
-- The calls of the vesting pallet, and its genesis (vesting/src/lib.rs). Origin checks and address lookup
-- are code of `frame_system`, parameters here; a call that fails is rolled back by its dispatcher.
use open_runtime_module_libr.Numeric.{checked_add}
use open_runtime_module_libr.Vesting.Schedule.{
  total_amount, retain_locked, ensure_valid_vesting_schedule, sum_valid,
}
use open_runtime_module_libr.Storage.{get, put}
use open_runtime_module_libr.Effect.{
  pure, ensure, gets, err, or_fail, ok, modify, ◌>>◌, reading, ◌>>=◌, dispatched, Action, Result,
}
use open_runtime_module_libr.Vesting.Types.{Error, VestingSchedule, State, Config, Event}
use open_runtime_module_libr.Prelude.{
  leb, is_zero, ◌==◌, length, ltb, none, if◌then◌else◌, nat_eq, unwrap_or, some, ◌++◌, List, Option,
  ℕ, [], ◌∷◌,
}
use mathlib.Core.Option

module _ {Cur : Type 0} where
  abbrev pub schedules_of : ℕ → State Cur → List VestingSchedule
  schedules_of who s = unwrap_or (get who s.vesting_schedules) []

  abbrev pub store_schedules : ℕ → Option (List VestingSchedule) → State Cur → State Cur
  store_schedules who schedules s = record s {
    vesting_schedules = put who schedules s.vesting_schedules;
  }

  abbrev pub with_currency : (Cur → Cur) → State Cur → State Cur
  with_currency f s = record s { currency = f s.currency }

  abbrev deposit_event : Event → State Cur → State Cur
  deposit_event e s = record s { events = e ∷ s.events }

module _ {Cur : Type 0} (cfg : Config Cur) where
  -- `Pallet::locked_balance`: what is locked at this block; schedules that lock nothing are dropped, and
  -- the entry when nothing is left.
  unfoldable pub locked_balance : ℕ → Action (State Cur) Error ℕ
  locked_balance who s = elim (get who s.vesting_schedules) [
    | none ↦ (ok 0, store_schedules who none s)
    | some schedules ↦ elim (retain_locked cfg (cfg.current_block_number s.currency) 0 schedules) [
      | none ↦ (err Error.panic, s)
      | some (kept, total) ↦
          (ok total, store_schedules who (if is_zero total then none else some kept) s)
    ]
  ]

  -- `Pallet::do_claim`
  unfoldable pub do_claim : ℕ → Action (State Cur) Error ℕ
  do_claim who = do
    locked ← locked_balance who
    modify λ s.
        if is_zero locked
        then with_currency (cfg.remove_lock who) (store_schedules who none s)
        else with_currency (cfg.set_lock who locked) s
    pure locked

  -- `T::Currency::transfer`
  abbrev pub currency_transfer : (from to amount : ℕ) → Action (State Cur) Error (Unit {0})
  currency_transfer from to amount s =
      let (r, c) = cfg.transfer from to amount s.currency in (r, record s { currency = c })

  -- `VestingSchedules::try_append`
  unfoldable pub try_append : ℕ → VestingSchedule → Action (State Cur) Error (Unit {0})
  try_append to schedule s =
      if ltb (length (schedules_of to s)) cfg.max_vesting_schedules
      then (ok tt, store_schedules to (some (schedules_of to s ++ schedule ∷ [])) s)
      else (err Error.max_vesting_schedules_exceeded, s)

  -- `Pallet::do_vested_transfer`
  unfoldable pub do_vested_transfer :
      (from to : ℕ) → VestingSchedule → Action (State Cur) Error (Unit {0})
  do_vested_transfer from to schedule = do
    schedule_amount ← reading (λ _. ensure_valid_vesting_schedule cfg schedule)
    locked ← locked_balance to
    total_amount ← or_fail (checked_add cfg.max_balance locked schedule_amount) Error.overflow
    currency_transfer from to schedule_amount
    modify (with_currency (cfg.set_lock to total_amount))
    try_append to schedule

  -- `Pallet::do_update_vesting_schedules` when there are schedules: they are checked, locked and stored.
  unfoldable pub replace_schedules : ℕ → List VestingSchedule → Action (State Cur) Error (Unit {0})
  replace_schedules who schedules = do
    total_amount ← reading (λ _. sum_valid cfg 0 schedules)
    free ← gets (λ s. cfg.free_balance who s.currency)
    ensure (leb total_amount free) Error.insufficient_balance_to_lock
    modify (with_currency (cfg.set_lock who total_amount))
    modify (store_schedules who (some schedules))

  -- `Pallet::do_update_vesting_schedules`
  unfoldable pub do_update_vesting_schedules :
      ℕ → List VestingSchedule → Action (State Cur) Error (Unit {0})
  do_update_vesting_schedules who schedules =
      if ltb cfg.max_vesting_schedules (length schedules)
      then (λ s. (err Error.max_vesting_schedules_exceeded, s))
      else if is_zero (length schedules)
      then modify (λ s. with_currency (cfg.remove_lock who) (store_schedules who none s))
      else replace_schedules who schedules

  -- `GenesisConfig::build` for one item: `none` where it panics.
  unfoldable pub build_one : (who : ℕ) → VestingSchedule → State Cur → Option (State Cur)
  build_one who schedule s =
      let schedules = schedules_of who s ++ schedule ∷ [] in
      if ltb (length (schedules_of who s)) cfg.max_vesting_schedules
      then elim (sum_valid cfg 0 schedules) [
        | err _ ↦ none
        | ok total_amount ↦
            if leb total_amount (cfg.free_balance who s.currency)
            then some (
                store_schedules who (some schedules)
                  (with_currency (cfg.set_lock who total_amount) s))
            else none
      ]
      else none

  -- `GenesisConfig::build`
  unfoldable pub build_genesis : List (ℕ × VestingSchedule) → State Cur → Option (State Cur)
  build_genesis [] s = some s
  build_genesis ((who, schedule) ∷ vesting) s =
      Option.bind (build_one who schedule s) (build_genesis vesting)

module _ {Cur Origin Source : Type 0} (cfg : Config Cur) (ensure_signed : Origin → Result Error ℕ)
    (ensure_root : Origin → Result Error (Unit {0}))
    (vested_transfer_origin : Origin → Result Error ℕ) (lookup : Source → Result Error ℕ) where
  -- Call 0, `claim`
  unfoldable pub claim : Origin → Action (State Cur) Error (Unit {0})
  claim origin = dispatched do
    who ← reading (λ _. ensure_signed origin)
    locked_amount ← do_claim cfg who
    modify (deposit_event (Event.claimed who locked_amount))

  -- Call 1, `vested_transfer`
  unfoldable pub vested_transfer :
      Origin → Source → VestingSchedule → Action (State Cur) Error (Unit {0})
  vested_transfer origin dest schedule = dispatched do
    from ← reading (λ _. vested_transfer_origin origin)
    to ← reading (λ _. lookup dest)
    λ s.
        if to == from
        then (do
          whole ← or_fail (total_amount cfg schedule) Error.overflow
          ensure (leb whole (cfg.free_balance from s.currency)) Error.insufficient_balance_to_lock)
            s
        else (ok tt, s)
    do_vested_transfer cfg from to schedule
    modify (deposit_event (Event.vesting_schedule_added from to schedule))

  -- Call 2, `update_vesting_schedules`
  unfoldable pub update_vesting_schedules :
      Origin → Source → List VestingSchedule → Action (State Cur) Error (Unit {0})
  update_vesting_schedules origin who vesting_schedules = dispatched do
    reading (λ _. ensure_root origin)
    account ← reading (λ _. lookup who)
    do_update_vesting_schedules cfg account vesting_schedules
    modify (deposit_event (Event.vesting_schedules_updated account))

  -- Call 3, `claim_for`
  unfoldable pub claim_for : Origin → Source → Action (State Cur) Error (Unit {0})
  claim_for origin dest = dispatched do
    reading (λ _. ensure_signed origin)
    who ← reading (λ _. lookup dest)
    locked_amount ← do_claim cfg who
    modify (deposit_event (Event.claimed who locked_amount))
