-- ===== src/Vesting/Tests.antt =====
-- The vesting pallet on concrete data: a currency with a clock and one lock for each account.
use open_runtime_module_libr.Effect.{err, ok, Result}
use open_runtime_module_libr.Storage.{get, Map, put}
use open_runtime_module_libr.Vesting.Amounts.{locked_amount-release, IsValid}
use open_runtime_module_libr.Vesting.Schedule.{locked_amount}
use open_runtime_module_libr.Vesting.Claims.{do_claim-HasClaimed, HasClaimed}
use open_runtime_module_libr.Vesting.Covered.{IsCovered, HasLocks}
use open_runtime_module_libr.Vesting.Types.{Error, State, VestingSchedule, Config}
use open_runtime_module_libr.Prelude.{
  ◌==◌, is_zero, refl, none, nat_eq, leb, [], arith, some, unwrap_or, if◌then◌else◌, ◌∷◌, ℕ, ◌≡◌,
}
use open_runtime_module_libr.Storage.Laws.{get-put}
use open_runtime_module_libr.Vesting.Calls.{schedules_of, claim, vested_transfer, do_claim}
use open_runtime_module_libr.Vesting.Schedule.{
  ensure_valid_vesting_schedule, end, total_amount, retain_locked, locked_amount,
}
use open_runtime_module_libr.Vesting.Calls.{do_vested_transfer, locked_balance, try_append}
use mathlib.Core.Option
use open_runtime_module_libr.Vesting.Steps.{
  step, start, by_pass, by_vested_transfer, Reach-AllCovered, by_claim, Reach,
}
use open_runtime_module_libr.Vesting.Dispatched.{AllCovered}

record Clocked : Type 0 where
  block : ℕ
  locks : Map ℕ ℕ

abbrev cfg : Config Clocked
cfg = record {
  min_vested_transfer = 5;
  max_vesting_schedules = 2;
  max_block = 1000;
  max_balance = 1000;
  max_u32 = 100;
  current_block_number = λ c. c.block;
  free_balance = λ who c. 100;
  transfer = λ from to amount c. (if leb amount 100 then ok tt else err (Error.foreign 0), c);
  set_lock = λ who n c. record c { locks = put who (some n) c.locks };
  remove_lock = λ who c. record c { locks = put who none c.locks };
}

lock_of-set :
    (j who n : ℕ) (c : Clocked)
    → unwrap_or (get j (put who (some n) c.locks)) 0
      ≡ (if who == j then n else unwrap_or (get j c.locks) 0)
lock_of-set j who n c = ground (arith, get-put j who (some n) c.locks)

lock_of-removed :
    (j who : ℕ) (c : Clocked)
    → unwrap_or (get j (put who none c.locks)) 0
      ≡ (if who == j then 0 else unwrap_or (get j c.locks) 0)
lock_of-removed j who c = ground (arith, get-put j who none c.locks)

abbrev locks : HasLocks cfg
locks = record {
  lock_of = λ who c. unwrap_or (get who c.locks) 0;
  set_lock = lock_of-set;
  remove_lock = lock_of-removed;
  transfer = λ j from to n c. refl;
  now_set = λ who n c. refl;
  now_removed = λ who c. refl;
  now_moved = λ from to n c. refl;
}

-- 30 in all, of which 10 is released every 5 blocks from block 20.
abbrev schedule : VestingSchedule
schedule = record { start = 20; period = 5; period_count = 3; per_period = 10 }

abbrev empty_state : State Clocked
empty_state = record {
  vesting_schedules = [];
  currency = record { block = 18; locks = [] };
  events = [];
}

abbrev vested_state : State Clocked
vested_state = record {
  vesting_schedules = put 2 (some (schedule ∷ [])) [];
  currency = record { block = 27; locks = put 2 (some 30) [] };
  events = [];
}

abbrev signed : ℕ → Result Error ℕ
signed = ok

abbrev root : ℕ → Result Error (Unit {0})
root origin = if is_zero origin then ok tt else err (Error.foreign 1)

schedule-IsValid : IsValid cfg schedule
schedule-IsValid = record {
  period_pos = omega arith;
  count_pos = omega arith;
  count_fits = omega arith;
  ends = omega arith;
  total_fits = omega arith;
}

vested_state-IsCovered : IsCovered cfg locks 2 vested_state
vested_state-IsCovered = record {
  valid = (schedule-IsValid, tt);
  covered = omega arith;
  bounded = omega arith;
}

empty_state-AllCovered : AllCovered cfg locks empty_state
empty_state-AllCovered j = record { valid = tt; covered = omega arith; bounded = omega arith }

locked_amount-release_example : locked_amount cfg 27 schedule ≡ some 20
locked_amount-release_example =
    locked_amount-release cfg schedule 1 2 schedule-IsValid (omega arith)

do_claim-HasClaimed_example : HasClaimed cfg locks 2 vested_state (do_claim cfg 2 vested_state)
do_claim-HasClaimed_example = do_claim-HasClaimed cfg locks 2 vested_state vested_state-IsCovered

-- A transfer of the schedule, nine blocks, a claim.
abbrev after_transfer : State Clocked
after_transfer = (vested_transfer cfg signed root signed signed 1 2 schedule empty_state).1

abbrev after_blocks : State Clocked
after_blocks = record after_transfer {
  currency = record { block = 27; locks = after_transfer.currency.locks };
}

abbrev after_claim : State Clocked
after_claim = (claim cfg signed root signed signed 2 after_blocks).1

after_transfer-block : after_transfer.currency.block ≡ 18
unfolding vested_transfer do_vested_transfer ensure_valid_vesting_schedule end Option.bind
    total_amount locked_balance try_append
after_transfer-block = refl

three_steps : Reach cfg signed root signed signed locks empty_state after_claim
three_steps =
    step
      (step (step start (by_vested_transfer 1 2 schedule (omega arith) refl))
        (by_pass (after_blocks.currency) (omega (arith, after_transfer-block)) (λ j. refl) refl))
      (by_claim 2 refl)

Reach-AllCovered_example : IsCovered cfg locks 2 after_claim
Reach-AllCovered_example =
    Reach-AllCovered cfg signed root signed signed locks empty_state after_claim
      empty_state-AllCovered three_steps 2

claim_keeps_twenty :
    (schedules_of 2 after_claim ≡ schedule ∷ []) × (get 2 after_claim.currency.locks ≡ some 20)
unfolding claim do_claim retain_locked locked_amount vested_transfer do_vested_transfer
    ensure_valid_vesting_schedule end Option.bind total_amount locked_balance try_append
claim_keeps_twenty = (refl, refl)
