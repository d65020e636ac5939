-- ===== src/Vesting/Steps.antt =====
-- About runs of the vesting pallet: its four dispatched calls in any order, and whatever else happens on
-- the chain between them (vesting/src/lib.rs).
use open_runtime_module_libr.Vesting.Dispatched.{
  update-cases, quiet, transfer-cases, claim_for-AllCovered, claim-AllCovered, AllCovered,
}
use open_runtime_module_libr.Vesting.Lists.{locked_sum_mono, AllCounts}
use open_runtime_module_libr.Vesting.Covered.{now_of, HasLocks}
use open_runtime_module_libr.Prelude.{inr, inl, ◌≤◌, arith, List, ◌≡◌, subst, ℕ}
use open_runtime_module_libr.Effect.{Result}
use open_runtime_module_libr.Vesting.Types.{VestingSchedule, State, Error, Config}
use open_runtime_module_libr.Vesting.Calls.{
  schedules_of, claim, vested_transfer, claim_for, update_vesting_schedules, do_vested_transfer,
  do_update_vesting_schedules,
}
use open_runtime_module_libr.Vesting.Updates.{do_update-IsCovered}
use open_runtime_module_libr.Vesting.Transfers.{do_vested_transfer-IsCovered}

module _ {Cur Origin Source : Type 0} (cfg : Config Cur) (ensure_signed : Origin → Result Error ℕ)
    (ensure_root : Origin → Result Error (Unit {0}))
    (vested_transfer_origin : Origin → Result Error ℕ) (lookup : Source → Result Error ℕ)
    (locks : HasLocks cfg) where
  -- A call, or a change of the currency that leaves vesting locks alone while blocks pass.
  pub data Step (s t : State Cur) : Type 0 where
    by_claim :
        (origin : Origin)
        → (claim cfg ensure_signed ensure_root vested_transfer_origin lookup origin s).1 ≡ t
        → Step s t
    by_claim_for :
        (origin : Origin) (dest : Source)
        → (claim_for cfg ensure_signed ensure_root vested_transfer_origin lookup origin dest s).1
          ≡ t
        → Step s t
    by_vested_transfer :
        (origin : Origin) (dest : Source) (schedule : VestingSchedule)
        → schedule.period_count ≤ cfg.max_u32
        → (vested_transfer cfg ensure_signed ensure_root vested_transfer_origin lookup origin dest
            schedule s).1
          ≡ t
        → Step s t
    by_update_vesting_schedules :
        (origin : Origin) (who : Source) (schedules : List VestingSchedule)
        → AllCounts cfg schedules
        → (update_vesting_schedules cfg ensure_signed ensure_root vested_transfer_origin lookup
            origin who schedules s).1
          ≡ t
        → Step s t
    by_pass :
        (c : Cur)
        → now_of cfg locks s ≤ cfg.current_block_number c
        → ((j : ℕ) → locks.lock_of j c ≡ locks.lock_of j s.currency)
        → record s { currency = c } ≡ t
        → Step s t

  pub data Reach (s : State Cur) : State Cur → Type 0 where
    start : Reach s s
    step : {t u : State Cur} → Reach s t → Step t u → Reach s u

  Step-AllCovered : (s t : State Cur) → Step s t → AllCovered cfg locks s → AllCovered cfg locks t
  Step-AllCovered s t (by_claim origin e) c = subst (AllCovered cfg locks) e (
      claim-AllCovered cfg ensure_signed ensure_root vested_transfer_origin lookup locks origin s c)
  Step-AllCovered s t (by_claim_for origin dest e) c = subst (AllCovered cfg locks) e (
      claim_for-AllCovered cfg ensure_signed ensure_root vested_transfer_origin lookup locks origin
        dest s c)
  Step-AllCovered s t (by_vested_transfer origin dest schedule fits e) c =
      subst (AllCovered cfg locks) e
        (elim (transfer-cases cfg ensure_signed ensure_root vested_transfer_origin lookup locks
          origin dest schedule s) [
            | inl same ↦ rw same c
            | inr (from, to, moved, same) ↦ rw same (
                quiet cfg locks _ (do_vested_transfer cfg from to schedule s).1 λ j.
                  do_vested_transfer-IsCovered cfg locks j from to schedule s fits (c to) (c j)
                    moved)
          ])
  Step-AllCovered s t (by_update_vesting_schedules origin who schedules counts e) c =
      subst (AllCovered cfg locks) e
        (elim (update-cases cfg ensure_signed ensure_root vested_transfer_origin lookup locks origin
          who schedules s) [
            | inl same ↦ rw same c
            | inr (account, same) ↦ rw same (
                quiet cfg locks _ (do_update_vesting_schedules cfg account schedules s).1
                  λ j. do_update-IsCovered cfg locks j account schedules s counts (c j))
          ])
  Step-AllCovered s t (by_pass d later same e) c = subst (AllCovered cfg locks) e λ j. record {
    valid = (c j).valid;
    covered = omega (
      arith,
      locked_sum_mono cfg (now_of cfg locks s) (cfg.current_block_number d) (schedules_of j s)
          (c j).valid later,
      same j,
      (c j).covered,
    );
    bounded = omega (arith, same j, (c j).bounded);
  }

  -- With a currency that keeps one vesting lock for each account, if in a state the stored schedules
  -- of every account are valid and its lock is at least what they still lock, then this is so in
  -- every state that claims, vested transfers, updates and the passing of blocks lead to, whether
  -- the calls succeed or not, where counts of periods are u32.
  pub Reach-AllCovered :
      (s t : State Cur) → AllCovered cfg locks s → Reach s t → AllCovered cfg locks t
  Reach-AllCovered s t c start = c
  Reach-AllCovered s u c (step {t} r n) = Step-AllCovered t u n (Reach-AllCovered s t c r)
