-- ===== src/Tokens/Books/Slash.antt =====
-- About slashing and the books (`slash` of tokens/src/lib.rs).
use open_runtime_module_libr.Storage.Laws.{get-put}
use open_runtime_module_libr.Tokens.Books.Repatriate.{
  accounts-set_reserved_balance, accounts-set_free_balance, held-set_free_balance,
  held-set_reserved_balance,
}
use open_runtime_module_libr.Tokens.Books.Supply.{holding-le-held, share_of}
use open_runtime_module_libr.Tokens.Account.{
  set_reserved_balance, set_free_balance, total_issuance, accounts,
}
use open_runtime_module_libr.Tokens.Currency.{slash, slash_account}
use open_runtime_module_libr.Tokens.Books.{
  SameBooks-SameTotals, SameTotals-IsBacked, held, IsBacked, HasQuietHooks,
}
use open_runtime_module_libr.Tokens.Types.{State, Config}
use open_runtime_module_libr.Prelude.{
  some, ◌∙◌, sym, inr, inl, Bool-cases, is_zero, min, if◌then◌else◌, ℕ, ◌+◌, ◌-◌, ◌≤◌, ◌≡◌, arith,
  refl,
}

module _ {Sys : Type 0} (cfg : Config Sys) (quiet : HasQuietHooks cfg) where
  -- What slashing takes: as much of the amount as there is, of the free balance first.
  pub record HasSlashed (d c who amount : ℕ) (s : State Sys) (r : ℕ × State Sys) : Type 0 where
    pub free : (accounts who c r.1).free ≡ (accounts who c s).free - amount
    pub reserved :
        (accounts who c r.1).reserved
        ≡ (accounts who c s).reserved - (amount - (accounts who c s).free)
    pub rest : r.0 ≡ amount - ((accounts who c s).free + (accounts who c s).reserved)
    pub holdings : held d r.1 + share_of d c (amount - r.0) ≡ held d s
    pub issuance : total_issuance d r.1 + share_of d c (amount - r.0) ≡ total_issuance d s

  -- The first write of `slash`.
  abbrev free_slashed : (c who amount : ℕ) → State Sys → State Sys
  free_slashed c who amount s =
      if is_zero (min (accounts who c s).free amount)
      then s
      else set_free_balance cfg c who ((accounts who c s).free - min (accounts who c s).free amount)
          s

  held-free_slashed :
      (d c who amount : ℕ) (s : State Sys)
      → (held d (free_slashed c who amount s) + share_of d c (min (accounts who c s).free amount)
          ≡ held d s)
        × ((free_slashed c who amount s).total_issuance ≡ s.total_issuance)
        × ((accounts who c (free_slashed c who amount s)).reserved ≡ (accounts who c s).reserved)
        × ((accounts who c (free_slashed c who amount s)).free ≡ (accounts who c s).free - amount)
  held-free_slashed d c who amount s =
      elim (Bool-cases (is_zero (min (accounts who c s).free amount))) [
        | inl nothing ↦ rw nothing (ground arith, refl, refl, ground arith)
        | inr something ↦
            let new = (accounts who c s).free - min (accounts who c s).free amount in
            let one = held-set_free_balance cfg quiet d c who new s in
            let now = accounts-set_free_balance cfg quiet who c who new s in
            rw something (ground arith, one.1, now.1, ground (arith, now.0))
      ]

  -- The second one, of an amount `n` from a reserved balance `old`.
  abbrev reserved_slashed : (c who old n : ℕ) → State Sys → State Sys
  reserved_slashed c who old n s =
      if is_zero n then s else set_reserved_balance cfg c who (old - n) s

  held-reserved_slashed :
      (d c who old n : ℕ) (s : State Sys)
      → old ≡ (accounts who c s).reserved
      → n ≤ old
      → (held d (reserved_slashed c who old n s) + share_of d c n ≡ held d s)
        × ((reserved_slashed c who old n s).total_issuance ≡ s.total_issuance)
        × ((accounts who c (reserved_slashed c who old n s)).reserved ≡ old - n)
        × ((accounts who c (reserved_slashed c who old n s)).free ≡ (accounts who c s).free)
  held-reserved_slashed d c who old n s e le = elim (Bool-cases (is_zero n)) [
    | inl nothing ↦ rw nothing (ground arith, refl, ground arith, refl)
    | inr something ↦
        let one = held-set_reserved_balance cfg quiet d c who (old - n) s in
        let now = accounts-set_reserved_balance cfg quiet who c who (old - n) s in
        rw something (ground arith, one.1, ground (arith, now), ground (arith, now))
  ]

  slash_account-HasSlashed :
      (d c who amount : ℕ) (s : State Sys)
      → IsBacked cfg c s
      → HasSlashed d c who amount s (slash_account cfg c who amount (accounts who c s) s)
  unfolding slash_account
  slash_account-HasSlashed d c who amount s b =
      let a = accounts who c s in
      let free_part = min a.free amount in
      let s1 = free_slashed c who amount s in
      let one = held-free_slashed d c who amount s in
      let n = min a.reserved (amount - free_part) in
      let s2 = reserved_slashed c who a.reserved n s1 in
      let two = held-reserved_slashed d c who a.reserved n s1 (sym one.2) (omega arith) in
      let whole = holding-le-held cfg c who c s in
      let same : s2.total_issuance ≡ s.total_issuance = two.1 ∙ one.1 in
      record {
        free = two.3 ∙ one.3;
        reserved = ground (arith, two.2);
        rest = omega arith;
        holdings = ground (arith, one.0, two.0);
        issuance =
            rw
              (
                same,
                get-put d c (some (total_issuance c s - (amount - (amount - free_part - n))))
                    s.total_issuance,
              )
              (ground (arith, whole));
      }

  -- With hooks that leave the storage of the pallet alone, from backed books, slashing takes as much
  -- of the amount as the account has, of the free balance first, lowers the holdings and the total
  -- issuance of its currency by what it took and returns the rest; other currencies stay.
  pub slash-HasSlashed :
      (d c who amount : ℕ) (s : State Sys)
      → IsBacked cfg c s
      → HasSlashed d c who amount s (slash cfg c who amount s)
  unfolding slash
  slash-HasSlashed d c who amount s b = elim (Bool-cases (is_zero amount)) [
    | inl nothing ↦ rw nothing (record {
      free = ground arith;
      reserved = ground arith;
      rest = ground arith;
      holdings = ground arith;
      issuance = ground arith;
    })
    | inr something ↦
        let hook = quiet.on_slash c who amount s in
        let s0 = cfg.on_slash c who amount s in
        let b0 = SameTotals-IsBacked cfg c s0 s (SameBooks-SameTotals c hook) b in
        let after = slash_account-HasSlashed d c who amount s0 b0 in
        let same : accounts who c s0 ≡ accounts who c s = rw hook.accounts in
        rw something (record {
          free = ground (arith, after.free, same);
          reserved = ground (arith, after.reserved, same);
          rest = rw (← same) after.rest;
          holdings = ground (arith, after.holdings, same, SameBooks-SameTotals d hook);
          issuance = ground (arith, after.issuance, same, hook.total_issuance);
        })
  ]
