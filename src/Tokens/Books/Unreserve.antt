-- ===== src/Tokens/Books/Unreserve.antt =====
-- About unreserving and the books (`unreserve` of tokens/src/lib.rs).
use open_runtime_module_libr.Tokens.Books.Reserves.{settle-SameTotals}
use open_runtime_module_libr.Tokens.Books.Settle.{accounts-settle_self}
use open_runtime_module_libr.Tokens.Books.Supply.{whole-le-max_value}
use open_runtime_module_libr.Tokens.Monad.{deposit_event}
use open_runtime_module_libr.Storage.{get}
use open_runtime_module_libr.Tokens.Account.{accounts, mutate_account, settle}
use open_runtime_module_libr.Tokens.Reserves.{unreserve_in, unreserve}
use open_runtime_module_libr.Tokens.Books.{SameTotals, IsBacked, HasQuietHooks}
use open_runtime_module_libr.Tokens.Types.{Event, State, Config}
use open_runtime_module_libr.Prelude.{
  pair_eq, inr, false, inl, Bool-cases, is_zero, is_some, min, ℕ, ◌+◌, ◌-◌, ◌≡◌, arith, refl,
}

module _ {Sys : Type 0} (cfg : Config Sys) (quiet : HasQuietHooks cfg) where
  -- The accounts after up to `value` is unreserved: what could be, was.
  pub record HasUnreserved (d c who value : ℕ) (s : State Sys) (r : ℕ × State Sys) : Type 0 where
    pub rest : r.0 + min (accounts who c s).reserved value ≡ value
    pub free :
        (accounts who c r.1).free ≡ (accounts who c s).free + min (accounts who c s).reserved value
    pub reserved :
        (accounts who c r.1).reserved + min (accounts who c s).reserved value
        ≡ (accounts who c s).reserved
    pub totals : SameTotals d r.1 s

  abbrev unreserved_state : (c who value : ℕ) → State Sys → State Sys
  unreserved_state c who value s =
      settle cfg who c (is_some (get (who, c) s.accounts))
        (unreserve_in cfg.max_value value (accounts who c s))
        (deposit_event (Event.unreserved c who (min (accounts who c s).reserved value)) s)

  unreserve-eq :
      (c who value : ℕ) (s : State Sys)
      → is_zero value ≡ false
      → unreserve cfg c who value s
        ≡ (value - min (accounts who c s).reserved value, unreserved_state c who value s)
  unfolding unreserve mutate_account
  unreserve-eq c who value s nz = rw nz

  -- With hooks that leave the storage of the pallet alone, from backed books, unreserving moves as
  -- much of the value as is reserved back to the free balance, returns the rest and keeps the
  -- totals.
  pub unreserve-HasUnreserved :
      (d c who value : ℕ) (s : State Sys)
      → IsBacked cfg c s
      → HasUnreserved d c who value s (unreserve cfg c who value s)
  unfolding unreserve_in
  unreserve-HasUnreserved d c who value s b = elim (Bool-cases (is_zero value)) [
    | inl nothing ↦
        unfold unreserve in
        rw nothing (record {
          rest = ground arith;
          free = ground arith;
          reserved = ground arith;
          totals = (refl, refl);
        })
    | inr something ↦
        let whole = whole-le-max_value cfg quiet c who s b in
        let a' = unreserve_in cfg.max_value value (accounts who c s) in
        let s1 = deposit_event (Event.unreserved c who (min (accounts who c s).reserved value)) s in
        let now = accounts-settle_self cfg quiet who c (is_some (get (who, c) s.accounts)) a' s1 in
        rw (unreserve-eq c who value s something) (record {
          rest = omega arith;
          free = ground arith;
          reserved = ground arith;
          totals = settle-SameTotals cfg quiet d who c _ a' s1 (omega arith);
        })
  ]
