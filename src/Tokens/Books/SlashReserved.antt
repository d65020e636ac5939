-- ===== src/Tokens/Books/SlashReserved.antt =====
-- About `slash_reserved` and the books (tokens/src/lib.rs).
use open_runtime_module_libr.Storage.Laws.{get-put}
use open_runtime_module_libr.Tokens.Books.Settle.{
  settle-SameBooks, accounts-settle_self, held-settle,
}
use open_runtime_module_libr.Tokens.Books.Supply.{holding-le-held, share_of}
use open_runtime_module_libr.Storage.{get}
use open_runtime_module_libr.Tokens.Account.{total_issuance, settle, mutate_account, accounts}
use open_runtime_module_libr.Tokens.Reserves.{slash_reserved, slash_reserved_account}
use open_runtime_module_libr.Tokens.Books.{
  SameBooks-SameTotals, SameTotals-IsBacked, held, IsBacked, HasQuietHooks,
}
use open_runtime_module_libr.Tokens.Types.{AccountData, State, Config}
use open_runtime_module_libr.Prelude.{
  nat_eq, pair_eq, some, inr, ◌+◌, inl, is_zero, is_some, ◌-◌, min, Bool-cases, ◌≡◌, refl, ℕ, arith,
}

module _ {Sys : Type 0} (cfg : Config Sys) (quiet : HasQuietHooks cfg) where
  -- What slashing a reserved balance takes: as much of the value as is reserved.
  pub record HasSlashedReserved (d c who value : ℕ) (s : State Sys) (r : ℕ × State Sys)
      : Type 0 where
    pub free : (accounts who c r.1).free ≡ (accounts who c s).free
    pub reserved : (accounts who c r.1).reserved ≡ (accounts who c s).reserved - value
    pub rest : r.0 ≡ value - (accounts who c s).reserved
    pub holdings : held d r.1 + share_of d c (value - r.0) ≡ held d s
    pub issuance : total_issuance d r.1 + share_of d c (value - r.0) ≡ total_issuance d s

  slash_reserved_account-HasSlashedReserved :
      (d c who value : ℕ) (s : State Sys)
      → IsBacked cfg c s
      → HasSlashedReserved d c who value s (slash_reserved_account cfg c who value s)
  unfolding slash_reserved_account mutate_account
  slash_reserved_account-HasSlashedReserved d c who value s b =
      let a = accounts who c s in
      let n = min a.reserved value in
      let x = is_some (get (who, c) s.accounts) in
      let a' : AccountData = record a { reserved = a.reserved - n } in
      let s1 = settle cfg who c x a' s in
      let one = held-settle cfg quiet d who c x a' s in
      let now = accounts-settle_self cfg quiet who c x a' s in
      let same = (settle-SameBooks cfg quiet who c x a' s).total_issuance in
      let whole = holding-le-held cfg c who c s in
      let put_back = get-put d c (some (total_issuance c s1 - n)) s1.total_issuance in
      record {
        free = now.0;
        reserved = ground (arith, now.1);
        rest = omega arith;
        holdings = ground (arith, one);
        issuance = ground (arith, same, whole, put_back, b.backed);
      }

  -- With hooks that leave the storage of the pallet alone, from backed books, slashing a reserved
  -- balance takes as much of the value as is reserved, lowers the holdings and the total issuance of
  -- its currency by what it took and returns the rest; the free balance and other currencies stay.
  pub slash_reserved-HasSlashedReserved :
      (d c who value : ℕ) (s : State Sys)
      → IsBacked cfg c s
      → HasSlashedReserved d c who value s (slash_reserved cfg c who value s)
  unfolding slash_reserved
  slash_reserved-HasSlashedReserved d c who value s b = elim (Bool-cases (is_zero value)) [
    | inl nothing ↦ rw nothing (record {
      free = refl;
      reserved = ground arith;
      rest = ground arith;
      holdings = ground arith;
      issuance = ground arith;
    })
    | inr something ↦
        let hook = quiet.on_slash c who value s in
        let s0 = cfg.on_slash c who value s in
        let b0 = SameTotals-IsBacked cfg c s0 s (SameBooks-SameTotals c hook) b in
        let after = slash_reserved_account-HasSlashedReserved d c who value s0 b0 in
        let same : accounts who c s0 ≡ accounts who c s = rw hook.accounts in
        rw something (record {
          free = ground (arith, after.free, same);
          reserved = ground (arith, after.reserved, same);
          rest = rw (← same) after.rest;
          holdings = ground (arith, after.holdings, same, SameBooks-SameTotals d hook);
          issuance = ground (arith, after.issuance, same, hook.total_issuance);
        })
  ]
