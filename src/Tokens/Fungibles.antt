-- ===== src/Tokens/Fungibles.antt =====
-- The `fungibles` traits of the tokens pallet (tokens/src/lib.rs): `Inspect`, `Mutate`, `Unbalanced`
-- and `Balanced`. How a consequence turns into a result is code of `frame_support`, a parameter here.
use open_runtime_module_libr.Tokens.Account.{
  set_total_issuance_value, total_issuance, try_mutate_account, accounts,
}
use open_runtime_module_libr.Numeric.{saturating_sub, saturating_add, checked_sub, checked_add}
use open_runtime_module_libr.Tokens.Transfer.{do_withdraw, do_deposit, do_transfer}
use open_runtime_module_libr.Tokens.Types.{
  DispatchError, total, Event, Action, AccountData, Result, State, Config, ExistenceRequirement,
}
use open_runtime_module_libr.Prelude.{
  some, none, ◌&&◌, ◌&&◌, min, Option, ℕ, Bool, true, false, not, if◌then◌else◌, is_zero, ltb, leb,
}
use open_runtime_module_libr.Tokens.Monad.{
  modify, or_fail, ensure, pure, deposit_event, reading, gets, ◌>>=◌, ◌>>◌,
}

pub data DepositConsequence : Type 0 where
  below_minimum overflow success : DepositConsequence

pub data WithdrawConsequence : Type 0 where
  underflow balance_low would_die frozen success : WithdrawConsequence
  reduced_to_zero : ℕ → WithdrawConsequence

pub data Preservation : Type 0 where
  expendable protect preserve : Preservation

pub data Precision : Type 0 where
  exact best_effort : Precision

abbrev is_protect : Preservation → Bool
is_protect Preservation.protect = true
is_protect _ = false

abbrev pub is_best_effort : Precision → Bool
is_best_effort Precision.exact = false
is_best_effort Precision.best_effort = true

-- The requirement that `fungibles::Mutate::transfer` passes on.
abbrev requirement_of : Preservation → ExistenceRequirement
requirement_of Preservation.expendable = ExistenceRequirement.allow_death
requirement_of _ = ExistenceRequirement.keep_alive

module _ {Sys : Type 0} (cfg : Config Sys) where
  -- `Pallet::deposit_consequence`
  unfoldable pub deposit_consequence : ℕ → ℕ → AccountData → State Sys → DepositConsequence
  deposit_consequence currency_id amount account s =
      if is_zero amount
      then DepositConsequence.success
      else elim (checked_add cfg.max_value (total_issuance currency_id s) amount) [
        | none ↦ DepositConsequence.overflow
        | some _ ↦ elim (checked_add cfg.max_value (total cfg.max_value account) amount) [
          | none ↦ DepositConsequence.overflow
          | some new_total_balance ↦
              if ltb new_total_balance (cfg.existential_deposits currency_id)
              then DepositConsequence.below_minimum
              else DepositConsequence.success
        ]
      ]

  -- The last two checks of `withdraw_consequence`.
  unfoldable pub free_consequence : ℕ → AccountData → WithdrawConsequence → WithdrawConsequence
  free_consequence amount account outcome = elim (checked_sub account.free amount) [
    | none ↦ WithdrawConsequence.balance_low
    | some new_free_balance ↦
        if ltb new_free_balance account.frozen then WithdrawConsequence.frozen else outcome
  ]

  -- `Pallet::withdraw_consequence`
  unfoldable pub withdraw_consequence : ℕ → ℕ → ℕ → AccountData → State Sys → WithdrawConsequence
  withdraw_consequence who currency_id amount account s =
      if is_zero amount
      then WithdrawConsequence.success
      else elim (checked_sub (total_issuance currency_id s) amount) [
        | none ↦ WithdrawConsequence.underflow
        | some _ ↦ elim (checked_sub (total cfg.max_value account) amount) [
          | none ↦ WithdrawConsequence.balance_low
          | some new_total_balance ↦
              if ltb new_total_balance (cfg.existential_deposits currency_id)
              then if cfg.can_dec_provider who s.system
                then free_consequence amount account
                    (WithdrawConsequence.reduced_to_zero new_total_balance)
                else WithdrawConsequence.would_die
              else free_consequence amount account WithdrawConsequence.success
        ]
      ]

  -- `fungibles::Inspect::reducible_balance`; the fortitude plays no part.
  unfoldable pub reducible_balance : ℕ → ℕ → Preservation → State Sys → ℕ
  reducible_balance asset_id who preservation s =
      let a = accounts who asset_id s in
      let liquid = saturating_sub a.free a.frozen in
      if cfg.can_dec_provider who s.system && not (is_protect preservation)
      then liquid
      else saturating_sub liquid (
          saturating_sub (cfg.existential_deposits asset_id)
            (saturating_sub (total cfg.max_value a) liquid))

  -- `fungibles::Mutate::transfer`
  unfoldable pub transfer : ℕ → ℕ → ℕ → ℕ → Preservation → Action Sys ℕ
  transfer asset_id source dest amount preservation =
      do_transfer cfg asset_id source dest amount (requirement_of preservation) >> pure amount

  -- `fungibles::Unbalanced::write_balance`: the dust, if any
  unfoldable write_balance : ℕ → ℕ → ℕ → Action Sys (Option ℕ)
  write_balance asset_id who amount = do
    max_reduction ← gets (reducible_balance asset_id who Preservation.expendable)
    written ← try_mutate_account cfg who asset_id λ account _. do
      ensure (leb (saturating_sub account.free amount) max_reduction) DispatchError.balance_too_low
      modify (deposit_event (Event.balance_set asset_id who amount account.reserved))
      pure (tt, record account { free = amount })
    pure written.1

  -- `fungibles::Unbalanced::set_total_issuance`
  unfoldable set_total_issuance : ℕ → ℕ → State Sys → State Sys
  set_total_issuance asset_id amount s =
      deposit_event (Event.total_issuance_set asset_id amount)
        (set_total_issuance_value asset_id amount s)

  -- `fungibles::Unbalanced::decrease_balance`: the amount by which the balance falls
  unfoldable decrease_balance : ℕ → ℕ → ℕ → Precision → Preservation → Action Sys ℕ
  decrease_balance asset who amount precision preservation = do
    old_balance ← gets (λ s. (accounts who asset s).free)
    reducible ← gets (reducible_balance asset who preservation)
    let taken = if is_best_effort precision then min amount reducible else amount
    new_balance ← or_fail (checked_sub old_balance taken) DispatchError.funds_unavailable
    write_balance asset who new_balance
    pure (saturating_sub old_balance new_balance)

  -- The four `done_` callbacks of `fungibles::Balanced`.
  unfoldable done_deposit : ℕ → ℕ → ℕ → State Sys → State Sys
  done_deposit currency_id who amount s = deposit_event (Event.deposited currency_id who amount) s

  unfoldable done_withdraw : ℕ → ℕ → ℕ → State Sys → State Sys
  done_withdraw currency_id who amount s = deposit_event (Event.withdrawn currency_id who amount) s

  unfoldable done_issue : ℕ → ℕ → State Sys → State Sys
  done_issue currency_id amount s = deposit_event (Event.issued currency_id amount) s

  unfoldable done_rescind : ℕ → ℕ → State Sys → State Sys
  done_rescind currency_id amount s = deposit_event (Event.rescinded currency_id amount) s

module _ {Sys : Type 0} (cfg : Config Sys) (deposit_result : DepositConsequence → Result (Unit {0}))
    (withdraw_result : WithdrawConsequence → Result ℕ) where
  -- `fungibles::Mutate::mint_into`
  unfoldable mint_into : ℕ → ℕ → ℕ → Action Sys ℕ
  mint_into asset_id who amount = do
    reading
        (λ s. deposit_result (deposit_consequence cfg asset_id amount (accounts who asset_id s) s))
    do_deposit cfg asset_id who amount false true

  -- `fungibles::Mutate::burn_from`; the precision and the fortitude play no part.
  unfoldable burn_from : ℕ → ℕ → ℕ → Action Sys ℕ
  burn_from asset_id who amount = do
    extra ← reading (λ s.
        withdraw_result (withdraw_consequence cfg who asset_id amount (accounts who asset_id s) s))
    let actual = saturating_add cfg.max_value amount extra
    do_withdraw cfg asset_id who actual ExistenceRequirement.allow_death true
    pure actual
