-- ===== src/Tokens/Transfer.antt =====
-- Moving free balance in the tokens pallet (tokens/src/lib.rs): `do_transfer`, `do_withdraw`,
-- `do_deposit`, and the `MultiCurrency` calls that are made of them.
use open_runtime_module_libr.Prelude.{
  Option, ℕ, Bool, true, false, not, ◌&&◌, ◌||◌, if◌then◌else◌, ltb, leb, is_zero, ◌==◌, nat_eq,
  pair_eq,
}
use open_runtime_module_libr.Numeric.{checked_add, checked_sub, saturating_sub, saturating_add}
use open_runtime_module_libr.Tokens.Types.{
  AccountData, total, DispatchError, Result, ok, Event, State, Action, Config, ExistenceRequirement,
}
use open_runtime_module_libr.Tokens.Monad.{
  deposit_event, ok_or, and_then, require, reading, ◌>>=◌, ◌>>◌, pure, modify,
}
use open_runtime_module_libr.Tokens.Account.{
  total_issuance, set_total_issuance_value, ensure_can_withdraw, try_mutate_account,
}

abbrev pub allows_death : ExistenceRequirement → Bool
allows_death ExistenceRequirement.keep_alive = false
allows_death ExistenceRequirement.allow_death = true

module _ {Sys : Type 0} (cfg : Config Sys) where
  -- An account below the existential deposit that is empty, or that may lose its dust.
  unfoldable pub would_be_dead : ℕ → ℕ → AccountData → Bool
  would_be_dead currency_id who account =
      if ltb (total cfg.max_value account) (cfg.existential_deposits currency_id)
      then if is_zero (total cfg.max_value account)
        then true
        else not (cfg.dust_removal_whitelist who)
      else false

  -- The inner closure of `do_transfer`: the two accounts after the move, or the reason to refuse it.
  -- The withdrawal check reads the sender from storage, where it is unchanged as yet.
  unfoldable pub move_free :
      ℕ
      → ℕ
      → ℕ
      → ℕ
      → ExistenceRequirement
      → AccountData
      → AccountData
      → State Sys
      → Result (AccountData × AccountData)
  move_free currency_id from to amount requirement to_account from_account s =
      and_then (ok_or (checked_sub from_account.free amount) DispatchError.balance_too_low)
        λ from_free.
          and_then (ok_or (checked_add cfg.max_value to_account.free amount) DispatchError.overflow)
            λ to_free.
              let to_account' : AccountData = record to_account { free = to_free } in
              let from_account' : AccountData = record from_account { free = from_free } in
              and_then
                (require
                  (leb (cfg.existential_deposits currency_id) (total cfg.max_value to_account')
                    || cfg.dust_removal_whitelist to)
                  DispatchError.existential_deposit)
                λ _. and_then (ensure_can_withdraw currency_id from amount s) λ _.
                  and_then
                    (require
                      ((allows_death requirement && cfg.can_dec_provider from s.system)
                        || not (would_be_dead currency_id from from_account'))
                      DispatchError.keep_alive)
                    λ _. ok (to_account', from_account')

  -- The two nested `try_mutate_account` of `do_transfer`, the receiver outside.
  unfoldable pub move_between :
      ℕ → ℕ → ℕ → ℕ → ExistenceRequirement → Action Sys (Unit {0} × Option ℕ)
  move_between currency_id from to amount requirement =
      try_mutate_account cfg to currency_id λ to_account _. do
        moved ← try_mutate_account cfg from currency_id λ from_account _.
            reading (move_free currency_id from to amount requirement to_account from_account)
        pure (tt, moved.0)

  -- `Pallet::do_transfer`
  unfoldable pub do_transfer : ℕ → ℕ → ℕ → ℕ → ExistenceRequirement → Action Sys (Unit {0})
  do_transfer currency_id from to amount requirement =
      if is_zero amount || from == to then pure tt else do
        cfg.pre_transfer currency_id from to amount
        move_between currency_id from to amount requirement
        cfg.post_transfer currency_id from to amount
        modify (deposit_event (Event.transfer currency_id from to amount))

  -- The closure of `do_withdraw` up to the first write: the account after the withdrawal.
  unfoldable pub take_free :
      ℕ → ℕ → ℕ → ExistenceRequirement → AccountData → State Sys → Result AccountData
  take_free currency_id who amount requirement account s =
      and_then (ensure_can_withdraw currency_id who amount s) λ _.
        let account' : AccountData = record account { free = saturating_sub account.free amount } in
        let previous_total = total cfg.max_value account in
        and_then
          (require
            (allows_death requirement
              || not (
                  would_be_dead currency_id who account'
                  && (leb (cfg.existential_deposits currency_id) previous_total
                      || not (is_zero previous_total))))
            DispatchError.keep_alive)
          λ _. ok account'

  -- `Pallet::do_withdraw`
  unfoldable pub do_withdraw : ℕ → ℕ → ℕ → ExistenceRequirement → Bool → Action Sys (Unit {0})
  do_withdraw currency_id who amount requirement change_total_issuance =
      if is_zero amount
      then pure tt
      else try_mutate_account cfg who currency_id (λ account _. do
        account' ← reading (take_free currency_id who amount requirement account)
        modify λ s.
            if change_total_issuance
            then set_total_issuance_value currency_id
                (saturating_sub (total_issuance currency_id s) amount) s
            else s
        modify (deposit_event (Event.withdrawn currency_id who amount))
        pure (tt, account'))
        >> pure tt

  -- The checks of the closure of `do_deposit`: the total issuance after the deposit.
  unfoldable pub check_deposit : ℕ → ℕ → ℕ → Bool → Bool → State Sys → Result ℕ
  check_deposit currency_id who amount require_existed existed s =
      and_then
        (if require_existed
          then require existed DispatchError.dead_account
          else require
              (leb (cfg.existential_deposits currency_id) amount
                || existed
                || cfg.dust_removal_whitelist who)
              DispatchError.existential_deposit)
        λ _.
          ok_or (checked_add cfg.max_value (total_issuance currency_id s) amount)
            DispatchError.overflow

  -- The `try_mutate_account` of `do_deposit`.
  unfoldable pub credit_account : ℕ → ℕ → ℕ → Bool → Bool → Action Sys (Unit {0} × Option ℕ)
  credit_account currency_id who amount require_existed change_total_issuance =
      try_mutate_account cfg who currency_id λ account existed. do
        new_total_issuance ← reading (check_deposit currency_id who amount require_existed existed)
        modify λ s.
            if change_total_issuance
            then set_total_issuance_value currency_id new_total_issuance s
            else s
        pure (tt, record account { free = saturating_add cfg.max_value account.free amount })

  -- `Pallet::do_deposit`
  unfoldable pub do_deposit : ℕ → ℕ → ℕ → Bool → Bool → Action Sys ℕ
  do_deposit currency_id who amount require_existed change_total_issuance =
      if is_zero amount then pure amount else do
        cfg.pre_deposit currency_id who amount
        credit_account currency_id who amount require_existed change_total_issuance
        cfg.post_deposit currency_id who amount
        modify (deposit_event (Event.deposited currency_id who amount))
        pure amount
