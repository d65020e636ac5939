-- ===== src/Tokens/Currency.antt =====
-- `MultiCurrency` and `MultiCurrencyExtended` of the tokens pallet (tokens/src/lib.rs), and the two
-- dust handlers that the pallet offers.
use open_runtime_module_libr.Prelude.{
  ℕ, suc, Bool, true, false, if◌then◌else◌, leb, is_zero, ◌==◌, min,
}
use open_runtime_module_libr.Numeric.{saturating_sub}
use open_runtime_module_libr.Tokens.Types.{
  AccountData, DispatchError, Event, State, Action, Config, ExistenceRequirement,
}
use open_runtime_module_libr.Tokens.Monad.{deposit_event, ◌>>◌, pure, ensure}
use open_runtime_module_libr.Tokens.Account.{
  accounts, total_issuance, set_total_issuance_value, free_balance, set_free_balance,
  set_reserved_balance,
}
use open_runtime_module_libr.Tokens.Transfer.{do_transfer, do_withdraw, do_deposit}

-- `MultiCurrency::can_slash`
unfoldable can_slash : {Sys : Type 0} → ℕ → ℕ → ℕ → State Sys → Bool
unfolding free_balance
can_slash currency_id who value s =
    if is_zero value then true else leb value (free_balance currency_id who s)

-- A signed `Amount`; `negsuc n` is -(n + 1).
pub data Amount : Type 0 where
  pos negsuc : ℕ → Amount

abbrev amount_is_zero : Amount → Bool
amount_is_zero (pos n) = is_zero n
amount_is_zero (negsuc n) = false

-- Its absolute value; that of the least amount, which has none, is the greatest amount.
unfoldable magnitude : ℕ → Amount → ℕ
magnitude max_amount (pos n) = n
magnitude max_amount (negsuc n) = if n == max_amount then max_amount else suc n

module _ {Sys : Type 0} (cfg : Config Sys) where
  -- `MultiCurrency::transfer`
  unfoldable pub transfer : ℕ → ℕ → ℕ → ℕ → Action Sys (Unit {0})
  transfer currency_id from to amount =
      do_transfer cfg currency_id from to amount ExistenceRequirement.allow_death

  -- `MultiCurrency::deposit`
  unfoldable deposit : ℕ → ℕ → ℕ → Action Sys (Unit {0})
  deposit currency_id who amount = do_deposit cfg currency_id who amount false true >> pure tt

  -- `MultiCurrency::withdraw`
  unfoldable pub withdraw : ℕ → ℕ → ℕ → Action Sys (Unit {0})
  withdraw currency_id who amount =
      do_withdraw cfg currency_id who amount ExistenceRequirement.allow_death true

  -- The steps of `slash` after the hook; `account` is read once, before the writes.
  unfoldable pub slash_account : ℕ → ℕ → ℕ → AccountData → State Sys → ℕ × State Sys
  slash_account currency_id who amount account s =
      let free_slashed_amount = min account.free amount in
      let remaining_slash = saturating_sub amount free_slashed_amount in
      let s1 =
        if is_zero free_slashed_amount
        then s
        else set_free_balance cfg currency_id who (saturating_sub account.free free_slashed_amount)
            s in
      let reserved_slashed_amount = min account.reserved remaining_slash in
      let s2 =
        if is_zero reserved_slashed_amount
        then s1
        else set_reserved_balance cfg currency_id who
            (saturating_sub account.reserved reserved_slashed_amount) s1 in
      let remaining = saturating_sub remaining_slash reserved_slashed_amount in
      (
        remaining,
        deposit_event (Event.slashed currency_id who free_slashed_amount reserved_slashed_amount) (
            set_total_issuance_value currency_id
              (saturating_sub (total_issuance currency_id s2) (saturating_sub amount remaining))
              s2),
      )

  -- `MultiCurrency::slash`: what could not be slashed
  unfoldable pub slash : ℕ → ℕ → ℕ → State Sys → ℕ × State Sys
  slash currency_id who amount s =
      if is_zero amount
      then (amount, s)
      else (let s0 = cfg.on_slash currency_id who amount s in
          slash_account currency_id who amount (accounts who currency_id s0) s0)

  -- The sign decides between a deposit and a withdrawal.
  unfoldable apply_amount : (currency_id who : ℕ) → Amount → ℕ → Action Sys (Unit {0})
  apply_amount currency_id who (pos n) by_balance = deposit currency_id who by_balance
  apply_amount currency_id who (negsuc n) by_balance = withdraw currency_id who by_balance

  -- `MultiCurrencyExtended::update_balance`
  unfoldable update_balance : (max_amount currency_id who : ℕ) → Amount → Action Sys (Unit {0})
  unfolding magnitude apply_amount deposit withdraw
  update_balance max_amount currency_id who by_amount =
      if amount_is_zero by_amount then pure tt else do
        ensure (leb (magnitude max_amount by_amount) cfg.max_value)
            DispatchError.amount_into_balance_failed
        apply_amount currency_id who by_amount (magnitude max_amount by_amount)

  -- `TransferDust::on_dust`: the dust goes to a treasury; a failure is ignored.
  unfoldable pub transfer_dust : (treasury who currency_id amount : ℕ) → State Sys → State Sys
  transfer_dust treasury who currency_id amount s =
      (do_transfer cfg currency_id who treasury amount ExistenceRequirement.allow_death s).1

  -- `BurnDust::on_dust`: the dust is withdrawn; a failure is ignored.
  unfoldable burn_dust : (who currency_id amount : ℕ) → State Sys → State Sys
  burn_dust who currency_id amount s =
      (do_withdraw cfg currency_id who amount ExistenceRequirement.allow_death true s).1
