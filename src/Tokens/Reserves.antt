-- ===== src/Tokens/Reserves.antt =====
-- Reserved balances of the tokens pallet (tokens/src/lib.rs): `MultiReservableCurrency`.
use open_runtime_module_libr.Tokens.Monad.{modify, reading, ◌>>◌, deposit_event, pure}
use open_runtime_module_libr.Tokens.Account.{
  total_issuance, set_total_issuance_value, set_reserved_balance, ensure_can_withdraw,
  set_free_balance, reserved_balance, accounts, mutate_account,
}
use open_runtime_module_libr.Numeric.{saturating_add, saturating_sub}
use open_runtime_module_libr.Tokens.Types.{
  err, Event, ok, Action, BalanceStatus, Config, State, AccountData,
}
use open_runtime_module_libr.Prelude.{false, true, ℕ, Bool, if◌then◌else◌, is_zero, ◌==◌, min}

-- `MultiReservableCurrency::can_reserve`
unfoldable pub can_reserve : {Sys : Type 0} → ℕ → ℕ → ℕ → State Sys → Bool
can_reserve currency_id who value s =
    if is_zero value
    then true
    else elim (ensure_can_withdraw currency_id who value s) [ ok _ ↦ true | err _ ↦ false ]

-- The account with `value` moved from the free to the reserved balance.
unfoldable pub reserve_in : ℕ → ℕ → AccountData → AccountData
reserve_in max_value value account = record account {
  free = saturating_sub account.free value;
  reserved = saturating_add max_value account.reserved value;
}

-- The account with up to `value` moved back.
unfoldable pub unreserve_in : ℕ → ℕ → AccountData → AccountData
unreserve_in max_value value account =
    let actual = min account.reserved value in
    record account {
      free = saturating_add max_value account.free actual;
      reserved = saturating_sub account.reserved actual;
    }

module _ {Sys : Type 0} (cfg : Config Sys) where
  -- The steps of `slash_reserved` after the hook.
  unfoldable pub slash_reserved_account : ℕ → ℕ → ℕ → State Sys → ℕ × State Sys
  slash_reserved_account currency_id who value s =
      let reserved = (accounts who currency_id s).reserved in
      let actual = min reserved value in
      let s1 =
        (mutate_account cfg who currency_id
          (λ account _ s'. ((tt, record account { reserved = saturating_sub reserved actual }), s'))
          s).1 in
      (
        saturating_sub value actual,
        deposit_event (Event.slashed currency_id who 0 actual) (
            set_total_issuance_value currency_id
              (saturating_sub (total_issuance currency_id s1) actual) s1),
      )

  -- `MultiReservableCurrency::slash_reserved`: what could not be slashed
  unfoldable pub slash_reserved : ℕ → ℕ → ℕ → State Sys → ℕ × State Sys
  slash_reserved currency_id who value s =
      if is_zero value
      then (value, s)
      else slash_reserved_account currency_id who value (cfg.on_slash currency_id who value s)

  -- `MultiReservableCurrency::reserve`
  unfoldable pub reserve : ℕ → ℕ → ℕ → Action Sys (Unit {0})
  reserve currency_id who value = if is_zero value then pure tt else do
    reading (ensure_can_withdraw currency_id who value)
    modify λ s.
        (mutate_account cfg who currency_id
          (λ account _ s'. (
            (tt, reserve_in cfg.max_value value account),
            deposit_event (Event.reserved currency_id who value) s',
          ))
          s).1

  -- `MultiReservableCurrency::unreserve`: what could not be unreserved
  unfoldable pub unreserve : ℕ → ℕ → ℕ → State Sys → ℕ × State Sys
  unreserve currency_id who value s =
      if is_zero value
      then (value, s)
      else (let ((remaining, _), s1) =
            mutate_account cfg who currency_id
              (λ account _ s'. (
                (
                  saturating_sub value (min account.reserved value),
                  unreserve_in cfg.max_value value account,
                ),
                deposit_event (Event.unreserved currency_id who (min account.reserved value)) s',
              ))
              s in
          (remaining, s1))

  -- The two writes of `repatriate_reserved` between different accounts; both balances are read before.
  unfoldable pub repatriate :
      (currency_id slashed beneficiary value : ℕ) → BalanceStatus → State Sys → ℕ × State Sys
  repatriate currency_id slashed beneficiary value status s =
      let from_account = accounts slashed currency_id s in
      let to_account = accounts beneficiary currency_id s in
      let actual = min from_account.reserved value in
      let s1 : State Sys = elim status [
        | BalanceStatus.free ↦
            set_free_balance cfg currency_id beneficiary
              (saturating_add cfg.max_value to_account.free actual) s
        | BalanceStatus.reserved ↦
            set_reserved_balance cfg currency_id beneficiary
              (saturating_add cfg.max_value to_account.reserved actual) s
      ] in
      (
        saturating_sub value actual,
        deposit_event (Event.reserve_repatriated currency_id slashed beneficiary actual status) (
            set_reserved_balance cfg currency_id slashed
              (saturating_sub from_account.reserved actual) s1),
      )

  -- `repatriate_reserved` from an account to itself.
  unfoldable pub repatriate_self :
      (currency_id who value : ℕ) → BalanceStatus → State Sys → ℕ × State Sys
  repatriate_self currency_id who value BalanceStatus.free s = unreserve currency_id who value s
  repatriate_self currency_id who value BalanceStatus.reserved s =
      (saturating_sub value (reserved_balance currency_id who s), s)

  -- `MultiReservableCurrency::repatriate_reserved`: what could not be moved. It never fails.
  unfoldable pub repatriate_reserved :
      (currency_id slashed beneficiary value : ℕ) → BalanceStatus → State Sys → ℕ × State Sys
  repatriate_reserved currency_id slashed beneficiary value status s =
      if is_zero value
      then (value, s)
      else if slashed == beneficiary
      then repatriate_self currency_id slashed value status s
      else repatriate currency_id slashed beneficiary value status s
