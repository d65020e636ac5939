-- ===== src/Tokens/Tests/Locks.antt =====
-- Concrete runs of locks and named reserves, and what becomes of dust that is sent to the receiver of a
-- transfer.
use open_runtime_module_libr.Tokens.Account.{
  accounts, total_issuance, handle_dust, report_endowed, track_existence, dust_of, kept,
  ensure_can_withdraw, settle, try_mutate_account, mutate_account,
}
use open_runtime_module_libr.Tokens.Ordered.Reserve.{reserve_named-ReservesNamed, ReservesNamed}
use open_runtime_module_libr.Tokens.Currency.{transfer_dust}
use open_runtime_module_libr.Tokens.Tests.{quiet, runtime, books}
use open_runtime_module_libr.Tokens.Transfer.{would_be_dead, move_free, move_between, do_transfer}
use open_runtime_module_libr.Tokens.Locks.{locks_of, store_locks, update_locks, replace_lock}
use open_runtime_module_libr.Tokens.Books.{held, IsBacked}
use open_runtime_module_libr.Tokens.Safety.LockCalls.{
  set_lock-overfreezes, set_lock-ChangesLock, ChangesLock,
}
use open_runtime_module_libr.Tokens.Named.{
  reserve_named, amount_at, search_id, reserved_balance_named,
}
use open_runtime_module_libr.Tokens.Currency.{transfer}
use open_runtime_module_libr.Tokens.Locks.{set_lock}
use open_runtime_module_libr.Storage.Sum.{total_of}
use open_runtime_module_libr.Tokens.Types.{Config, State}
use open_runtime_module_libr.Prelude.{◌+◌, ◌⊎◌, ◌≤◌, ◌≡◌, some, arith, refl, [], ◌∷◌}
use open_runtime_module_libr.Tokens.Adapter

-- The same accounts with the two locks that the runtime allows at most, and a named reserve.
abbrev locked : State Unit
locked = record books {
  locks =
      ((1, 7), some (record { id = 3; amount = 20 } ∷ record { id = 4; amount = 15 } ∷ [])) ∷ [];
  reserves = ((1, 7), some (record { id = 8; amount = 10 } ∷ [])) ∷ [];
}

locked-IsBacked : IsBacked runtime 7 locked
unfolding total_of
locked-IsBacked = record { backed = refl; bounded = omega arith }

set_lock-ChangesLock_example :
    ChangesLock runtime quiet 7 1 4 3 (some 35) locked (set_lock runtime 4 7 1 35 locked)
set_lock-ChangesLock_example = set_lock-ChangesLock runtime quiet 4 7 1 35 3 locked refl

set_lock-overfreezes_example :
    let s' = Adapter.set_lock runtime 7 5 1 50 locked in
    (locks_of 1 7 s' ≡ locks_of 1 7 locked)
    × ((50 ≤ (accounts 1 7 s').frozen) ⊎ ((accounts 1 7 s').free + (accounts 1 7 s').reserved ≡ 0))
unfolding set_lock replace_lock update_locks mutate_account store_locks settle kept dust_of
    track_existence report_endowed handle_dust
set_lock-overfreezes_example = set_lock-overfreezes runtime quiet 5 7 1 50 locked refl refl

reserve_named-ReservesNamed_example :
    ReservesNamed runtime quiet 7 1 8 8 25 locked (reserve_named runtime 8 7 1 25 locked)
unfolding reserved_balance_named search_id amount_at
reserve_named-ReservesNamed_example =
    reserve_named-ReservesNamed runtime quiet 7 1 8 8 25 locked locked-IsBacked (tt, tt)
      (omega arith) refl

-- A runtime that sends dust to account 2.
abbrev dust_to_2 : Config Unit
dust_to_2 = record runtime { on_dust = transfer_dust runtime 2 }

-- Account 6 holds 60 and sends 57 of it to account 2; the other 3 are dust.
abbrev before : State Unit
before = record books {
  total_issuance = (7, some 90) ∷ [];
  accounts =
      ((6, 7), some (record { free = 60; reserved = 0; frozen = 0 }))
      ∷ ((2, 7), some (record { free = 30; reserved = 0; frozen = 0 }))
      ∷ [];
}

-- The dust is gone: the accounts hold 87, and the total issuance is still 90.
dust_destroyed :
    let s' = (transfer dust_to_2 7 6 2 57 before).1 in (held 7 s' ≡ 87) × (total_issuance 7 s' ≡ 90)
unfolding transfer do_transfer transfer_dust move_between try_mutate_account move_free
    ensure_can_withdraw would_be_dead settle kept dust_of track_existence report_endowed handle_dust
    total_of
dust_destroyed = (refl, refl)
