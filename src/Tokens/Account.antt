-- ===== src/Tokens/Account.antt =====
-- Accounts of the tokens pallet (tokens/src/lib.rs): reading, `try_mutate_account` and what it does
-- once the change is accepted, the withdrawal check, and the two setters.
use open_runtime_module_libr.Prelude.{
  ℕ, Bool, not, ◌&&◌, ◌||◌, Option, none, some, if◌then◌else◌, ltb, leb, is_zero, is_some,
  unwrap_or, nat_eq, pair_eq,
}
use open_runtime_module_libr.Numeric.{checked_sub}
use open_runtime_module_libr.Storage.{get, put}
use open_runtime_module_libr.Tokens.Types.{
  AccountData, default_account, total, DispatchError, Result, ok, err, Event, State, Action, Config,
}
use open_runtime_module_libr.Tokens.Monad.{deposit_event, ok_or, and_then, require}

module _ {Sys : Type 0} where
  -- The `Accounts` getter: a missing account reads as the default one.
  abbrev pub accounts : ℕ → ℕ → State Sys → AccountData
  accounts who currency_id s = unwrap_or (get (who, currency_id) s.accounts) default_account

  abbrev pub total_issuance : ℕ → State Sys → ℕ
  total_issuance currency_id s = unwrap_or (get currency_id s.total_issuance) 0

  abbrev pub set_total_issuance_value : ℕ → ℕ → State Sys → State Sys
  set_total_issuance_value currency_id v s = record s {
    total_issuance = put currency_id (some v) s.total_issuance;
  }

  unfoldable pub free_balance : ℕ → ℕ → State Sys → ℕ
  free_balance currency_id who s = (accounts who currency_id s).free

  unfoldable pub reserved_balance : ℕ → ℕ → State Sys → ℕ
  reserved_balance currency_id who s = (accounts who currency_id s).reserved

  -- `Pallet::ensure_can_withdraw`
  unfoldable pub ensure_can_withdraw : ℕ → ℕ → ℕ → State Sys → Result (Unit {0})
  ensure_can_withdraw currency_id who amount s =
      if is_zero amount
      then ok tt
      else and_then
          (ok_or (checked_sub (accounts who currency_id s).free amount)
            DispatchError.balance_too_low)
          λ new_balance.
            require (leb (accounts who currency_id s).frozen new_balance)
              DispatchError.liquidity_restrictions

module _ {Sys : Type 0} (cfg : Config Sys) where
  unfoldable total_balance : ℕ → ℕ → State Sys → ℕ
  total_balance currency_id who s = total cfg.max_value (accounts who currency_id s)

  -- What is stored of a changed account: nothing is left of one that holds nothing and whose
  -- existential deposit is not zero.
  unfoldable pub kept : ℕ → AccountData → Option AccountData
  kept currency_id account =
      if ltb (total cfg.max_value account) (cfg.existential_deposits currency_id)
      then if is_zero (total cfg.max_value account) then none else some account
      else some account

  -- The dust of a changed account: a total that is not zero and below the existential deposit.
  unfoldable pub dust_of : ℕ → ℕ → AccountData → Option ℕ
  dust_of who currency_id account =
      if ltb (total cfg.max_value account) (cfg.existential_deposits currency_id)
      then if is_zero (total cfg.max_value account) || cfg.dust_removal_whitelist who
        then none
        else some (total cfg.max_value account)
      else none

  -- The provider count and the hooks when an account appears or is gone.
  unfoldable pub track_existence : ℕ → ℕ → Bool → Bool → State Sys → State Sys
  track_existence who currency_id existed exists s =
      if existed && not exists
      then cfg.on_killed_token_account who currency_id
          (record s { system = cfg.dec_providers who s.system })
      else if not existed && exists
      then cfg.on_new_token_account who currency_id
          (record s { system = cfg.inc_providers who s.system })
      else s

  unfoldable pub report_endowed : ℕ → ℕ → Bool → AccountData → State Sys → State Sys
  report_endowed who currency_id existed account s =
      if existed then s else deposit_event (Event.endowed currency_id who account.free) s

  unfoldable pub handle_dust : ℕ → ℕ → Option ℕ → State Sys → State Sys
  handle_dust who currency_id none s = s
  handle_dust who currency_id (some dust) s =
      deposit_event (Event.dust_lost currency_id who dust) (cfg.on_dust who currency_id dust s)

  -- The part of `try_mutate_account` after the closure has accepted the change.
  unfoldable pub settle : ℕ → ℕ → Bool → AccountData → State Sys → State Sys
  settle who currency_id existed account s =
      handle_dust who currency_id (dust_of who currency_id account) (
        report_endowed who currency_id existed account (
          track_existence who currency_id existed (is_some (kept currency_id account))
            (record s { accounts = put (who, currency_id) (kept currency_id account) s.accounts })))

  -- `Pallet::try_mutate_account`: the closure is given the account and whether it existed; it returns
  -- its result and the changed account. On an error nothing is written to the account.
  unfoldable pub try_mutate_account :
      {R : Type 0}
      → ℕ
      → ℕ
      → (AccountData → Bool → Action Sys (R × AccountData))
      → Action Sys (R × Option ℕ)
  try_mutate_account who currency_id f s =
      let found = get (who, currency_id) s.accounts in
      let (r, s') = f (unwrap_or found default_account) (is_some found) s in
      elim r [
        | ok (x, account) ↦ (
          ok (x, dust_of who currency_id account),
          settle who currency_id (is_some found) account s',
        )
        | err e ↦ (err e, s')
      ]

  -- `Pallet::mutate_account`: the closure cannot fail.
  unfoldable pub mutate_account :
      {R : Type 0}
      → ℕ
      → ℕ
      → (AccountData → Bool → State Sys → (R × AccountData) × State Sys)
      → State Sys
      → (R × Option ℕ) × State Sys
  mutate_account who currency_id f s =
      let found = get (who, currency_id) s.accounts in
      let ((x, account), s') = f (unwrap_or found default_account) (is_some found) s in
      ((x, dust_of who currency_id account), settle who currency_id (is_some found) account s')

  unfoldable pub set_free_balance : ℕ → ℕ → ℕ → State Sys → State Sys
  set_free_balance currency_id who amount s =
      (mutate_account who currency_id
        (λ account _ s'. (
          (tt, record account { free = amount }),
          deposit_event (Event.balance_set currency_id who amount account.reserved) s',
        ))
        s).1

  unfoldable pub set_reserved_balance : ℕ → ℕ → ℕ → State Sys → State Sys
  set_reserved_balance currency_id who amount s =
      (mutate_account who currency_id
        (λ account _ s'. (
          (tt, record account { reserved = amount }),
          deposit_event (Event.balance_set currency_id who account.free amount) s',
        ))
        s).1
