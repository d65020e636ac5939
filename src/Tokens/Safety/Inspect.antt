-- ===== src/Tokens/Safety/Inspect.antt =====
-- About what the inspections of the tokens pallet promise of its operations (`can_reserve`, `can_hold`,
-- `withdraw_consequence` and `deposit_consequence` of tokens/src/lib.rs).
use open_runtime_module_libr.Numeric.{saturating_add}
use open_runtime_module_libr.Storage.{get}
use open_runtime_module_libr.Tokens.Safety.Reducible.{do_withdraw_ok}
use open_runtime_module_libr.Tokens.Transfer.{
  check_deposit, do_withdraw, credit_account, would_be_dead, take_free,
}
use open_runtime_module_libr.Tokens.Account.{
  total_issuance, dust_of, try_mutate_account, accounts, ensure_can_withdraw,
}
use open_runtime_module_libr.Tokens.Fungibles.{
  DepositConsequence, deposit_consequence, WithdrawConsequence, free_consequence,
  withdraw_consequence,
}
use open_runtime_module_libr.Tokens.Reserves.{can_reserve, reserve}
use open_runtime_module_libr.Tokens.Hold.{can_hold, hold}
use open_runtime_module_libr.Tokens.Types.{ExistenceRequirement, ok, State, Config}
use open_runtime_module_libr.Prelude.{
  none, pair_eq, ◌+◌, refl, is_some, Bool, ◌-◌, inr, ◌≤◌, false, inl, is_zero, Bool-cases, ◌↔◌,
  true, ◌≡◌, ℕ, arith,
}

module _ {Sys : Type 0} (cfg : Config Sys) where
  -- Reserving succeeds exactly when can_reserve says so.
  reserve-can_reserve :
      (c who value : ℕ) (s : State Sys)
      → ((reserve cfg c who value s).0 ≡ ok tt) ↔ (can_reserve c who value s ≡ true)
  unfolding reserve can_reserve
  reserve-can_reserve c who value s = elim (Bool-cases (is_zero value)) [
    | inl nothing ↦ rw nothing (ground arith)
    | inr something ↦ rw something (ground arith)
  ]

  can_hold-ensure_can_withdraw :
      (c who amount : ℕ) (s : State Sys)
      → can_hold cfg c who amount s ≡ true
      → can_reserve c who amount s ≡ true
  unfolding can_hold can_reserve ensure_can_withdraw
  can_hold-ensure_can_withdraw c who amount s h = ground arith

  -- When can_hold says so, hold succeeds.
  hold-can_hold :
      (c who amount : ℕ) (s : State Sys)
      → can_hold cfg c who amount s ≡ true
      → (hold cfg c who amount s).0 ≡ ok tt
  unfolding hold
  hold-can_hold c who amount s h =
      ground
        (arith, can_hold-ensure_can_withdraw c who amount s h, reserve-can_reserve c who amount s)

  withdraw_consequence-take_free :
      (c who amount : ℕ) (s : State Sys)
      → withdraw_consequence cfg who c amount (accounts who c s) s ≡ WithdrawConsequence.success
      → is_zero amount ≡ false
      → (accounts who c s).free ≤ cfg.max_value
      → take_free cfg c who amount ExistenceRequirement.keep_alive (accounts who c s) s
        ≡ ok (record (accounts who c s) { free = (accounts who c s).free - amount })
  unfolding withdraw_consequence free_consequence take_free ensure_can_withdraw would_be_dead
  withdraw_consequence-take_free c who amount s h nz fits = ground arith

  -- If the free balance is a value of the balance type and withdraw_consequence finds success, the
  -- withdrawal succeeds even when it must keep the account alive.
  do_withdraw-withdraw_consequence :
      (c who amount : ℕ) (change : Bool) (s : State Sys)
      → withdraw_consequence cfg who c amount (accounts who c s) s ≡ WithdrawConsequence.success
      → (accounts who c s).free ≤ cfg.max_value
      → (do_withdraw cfg c who amount ExistenceRequirement.keep_alive change s).0 ≡ ok tt
  do_withdraw-withdraw_consequence c who amount change s h fits =
      elim (Bool-cases (is_zero amount)) [
        | inl nothing ↦ unfold do_withdraw in rw nothing refl
        | inr something ↦
            do_withdraw_ok cfg c who amount _ change s _ something
              (withdraw_consequence-take_free c who amount s h something fits)
      ]

  deposit_consequence-check_deposit :
      (c who amount : ℕ) (s : State Sys)
      → deposit_consequence cfg c amount (accounts who c s) s ≡ DepositConsequence.success
      → is_zero amount ≡ false
      → check_deposit cfg c who amount false (is_some (get (who, c) s.accounts)) s
        ≡ ok (total_issuance c s + amount)
  unfolding deposit_consequence check_deposit
  deposit_consequence-check_deposit c who amount s h nz = ground arith

  deposit_consequence-dust_of :
      (c who amount : ℕ) (s : State Sys)
      → deposit_consequence cfg c amount (accounts who c s) s ≡ DepositConsequence.success
      → is_zero amount ≡ false
      → dust_of cfg who c (record (accounts who c s) {
        free = saturating_add cfg.max_value (accounts who c s).free amount;
      })
        ≡ none
  unfolding deposit_consequence dust_of
  deposit_consequence-dust_of c who amount s h nz = ground arith

  -- When deposit_consequence finds success for a positive amount, the account can be credited,
  -- whether or not it exists, and no dust is left.
  credit_account-deposit_consequence :
      (c who amount : ℕ) (change : Bool) (s : State Sys)
      → deposit_consequence cfg c amount (accounts who c s) s ≡ DepositConsequence.success
      → is_zero amount ≡ false
      → (credit_account cfg c who amount false change s).0 ≡ ok (tt, none)
  unfolding credit_account try_mutate_account
  credit_account-deposit_consequence c who amount change s h nz = ground (
    arith,
    deposit_consequence-check_deposit c who amount s h nz,
    deposit_consequence-dust_of c who amount s h nz,
  )
