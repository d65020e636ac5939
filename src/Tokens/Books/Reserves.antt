-- ===== src/Tokens/Books/Reserves.antt =====
-- About reserving and the books (`reserve` of tokens/src/lib.rs).
use open_runtime_module_libr.Tokens.Monad.{deposit_event}
use open_runtime_module_libr.Storage.{get}
use open_runtime_module_libr.Tokens.Books.Settle.{
  accounts-settle_self, settle-SameBooks, held-settle,
}
use open_runtime_module_libr.Tokens.Books.Supply.{whole-le-max_value}
use open_runtime_module_libr.Tokens.Account.{accounts, settle, mutate_account, ensure_can_withdraw}
use open_runtime_module_libr.Tokens.Reserves.{reserve, reserve_in}
use open_runtime_module_libr.Tokens.Books.{SameTotals, IsBacked, HasQuietHooks}
use open_runtime_module_libr.Tokens.Types.{
  Event, ok, err, DispatchError, AccountData, Result, State, Config,
}
use open_runtime_module_libr.Prelude.{
  inr, pair_eq, Bool-cases, ◌⊎◌, ◌⊎◌, inl, false, is_some, is_zero, Bool, ℕ, ◌+◌, ◌≤◌, ◌≡◌, arith,
  refl,
}

module _ {Sys : Type 0} (cfg : Config Sys) (quiet : HasQuietHooks cfg) where
  -- A change of one account that keeps its whole balance.
  pub settle-SameTotals :
      (d who c : ℕ) (existed : Bool) (a : AccountData) (s : State Sys)
      → a.free + a.reserved ≡ (accounts who c s).free + (accounts who c s).reserved
      → SameTotals d (settle cfg who c existed a s) s
  settle-SameTotals d who c existed a s e = (
    ground (arith, held-settle cfg quiet d who c existed a s),
    (settle-SameBooks cfg quiet who c existed a s).total_issuance,
  )

  -- The part of an account moved from free to reserved.
  pub record HasShifted (c who value : ℕ) (s s' : State Sys) : Type 0 where
    pub free : (accounts who c s').free + value ≡ (accounts who c s).free
    pub reserved : (accounts who c s').reserved ≡ (accounts who c s).reserved + value

  -- What reserving does: an error and no change, or the value moves from the free to the reserved balance.
  abbrev pub Reserves : (d c who value : ℕ) → State Sys → Result (Unit {0}) × State Sys → Type 0
  Reserves d c who value s (err e, s') = s' ≡ s
  Reserves d c who value s (ok _, s') =
      HasShifted c who value s s'
      × ((accounts who c s).frozen + value ≤ (accounts who c s).free ⊎ (value ≡ 0))
      × SameTotals d s' s

  ensure_can_withdraw_ok :
      (c who value : ℕ) (s : State Sys)
      → is_zero value ≡ false
      → ensure_can_withdraw c who value s ≡ ok tt
      → (accounts who c s).frozen + value ≤ (accounts who c s).free
  unfolding ensure_can_withdraw
  ensure_can_withdraw_ok c who value s nz h = ground arith

  abbrev reserved_state : (c who value : ℕ) → State Sys → State Sys
  reserved_state c who value s =
      settle cfg who c (is_some (get (who, c) s.accounts))
        (reserve_in cfg.max_value value (accounts who c s))
        (deposit_event (Event.reserved c who value) s)

  reserved_state-HasShifted :
      (d c who value : ℕ) (s : State Sys)
      → IsBacked cfg c s
      → value ≤ (accounts who c s).free
      → HasShifted c who value s (reserved_state c who value s)
        × SameTotals d (reserved_state c who value s) s
  unfolding reserve_in
  reserved_state-HasShifted d c who value s b le =
      let whole = whole-le-max_value cfg quiet c who s b in
      let s1 = deposit_event (Event.reserved c who value) s in
      let now =
        accounts-settle_self cfg quiet who c (is_some (get (who, c) s.accounts))
          (reserve_in cfg.max_value value (accounts who c s)) s1 in
      (
        record { free = ground arith; reserved = ground arith },
        settle-SameTotals d who c _ (reserve_in cfg.max_value value (accounts who c s)) s1
            (omega arith),
      )

  reserve_ok :
      (c who value : ℕ) (s : State Sys)
      → is_zero value ≡ false
      → ensure_can_withdraw c who value s ≡ ok tt
      → reserve cfg c who value s ≡ (ok tt, reserved_state c who value s)
  unfolding reserve mutate_account
  reserve_ok c who value s nz h = rw nz (ground arith)

  reserve_err :
      (c who value : ℕ) (s : State Sys) (e : DispatchError)
      → is_zero value ≡ false
      → ensure_can_withdraw c who value s ≡ err e
      → reserve cfg c who value s ≡ (err e, s)
  unfolding reserve
  reserve_err c who value s e nz h = rw nz (ground arith)

  -- With hooks that leave the storage of the pallet alone, from backed books, reserving fails and
  -- changes nothing, or moves exactly the value from the free to the reserved balance, never below
  -- what is frozen, and keeps the totals.
  pub reserve-Reserves :
      (d c who value : ℕ) (s : State Sys)
      → IsBacked cfg c s
      → Reserves d c who value s (reserve cfg c who value s)
  reserve-Reserves d c who value s b = elim (Bool-cases (is_zero value)) [
    | inl nothing ↦ unfold reserve in rw nothing (ground arith)
    | inr something ↦ go something (ensure_can_withdraw c who value s) refl
  ]
    where
      go :
          is_zero value ≡ false
          → (r : Result (Unit {0})) → ensure_can_withdraw c who value s ≡ r
          → Reserves d c who value s (reserve cfg c who value s)
      go nz (ok _) h =
          let fits = ensure_can_withdraw_ok c who value s nz h in
          let done = reserved_state-HasShifted d c who value s b (omega arith) in
          rw (reserve_ok c who value s nz h) (done.0, inl fits, done.1)
      go nz (err e) h = rw (reserve_err c who value s e nz h) refl
