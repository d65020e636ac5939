-- ===== src/Tokens/Books/Repatriate.antt =====
-- Repatriating reserved balance (`repatriate_reserved` of tokens/src/lib.rs).
use open_runtime_module_libr.Storage.Sum.{two-le-total_of}
use open_runtime_module_libr.Numeric.{saturating_add}
use open_runtime_module_libr.Tokens.Reserves.{repatriate_reserved, repatriate}
use open_runtime_module_libr.Storage.{get}
use open_runtime_module_libr.Tokens.Books.Settle.{
  weigh-accounts, accounts-settle_ne, settle-SameBooks, accounts-settle_self, held-settle,
}
use open_runtime_module_libr.Tokens.Monad.{deposit_event}
use open_runtime_module_libr.Tokens.Books.Supply.{share_of}
use open_runtime_module_libr.Tokens.Account.{
  accounts, mutate_account, set_free_balance, set_reserved_balance,
}
use open_runtime_module_libr.Tokens.Books.{holding, SameTotals, IsBacked, held, HasQuietHooks}
use open_runtime_module_libr.Tokens.Types.{BalanceStatus, AccountData, Event, State, Config}
use open_runtime_module_libr.Prelude.{
  refl, false, inr, inl, Bool-cases, true, is_zero, ◌∙◌, ◌-◌, ◌-◌, ◌≤◌, ◌≢◌, ◌≢◌, min, pair_eq,
  is_some, ◌==◌, if◌then◌else◌, ℕ, ◌+◌, ◌≡◌, arith,
}

module _ {Sys : Type 0} (cfg : Config Sys) (quiet : HasQuietHooks cfg) where
  -- What the two setters write.
  pub held-set_free_balance :
      (d c who amount : ℕ) (s : State Sys)
      → (held d (set_free_balance cfg c who amount s) + share_of d c (accounts who c s).free
          ≡ held d s + share_of d c amount)
        × ((set_free_balance cfg c who amount s).total_issuance ≡ s.total_issuance)
  unfolding set_free_balance mutate_account
  held-set_free_balance d c who amount s =
      let a = accounts who c s in
      let s1 = deposit_event (Event.balance_set c who amount a.reserved) s in
      (
        ground (
          arith,
          held-settle cfg quiet d who c (is_some (get (who, c) s.accounts))
              (record a { free = amount }) s1,
        ),
        (settle-SameBooks cfg quiet who c _ (record a { free = amount }) s1).total_issuance,
      )

  pub held-set_reserved_balance :
      (d c who amount : ℕ) (s : State Sys)
      → (held d (set_reserved_balance cfg c who amount s) + share_of d c (accounts who c s).reserved
          ≡ held d s + share_of d c amount)
        × ((set_reserved_balance cfg c who amount s).total_issuance ≡ s.total_issuance)
  unfolding set_reserved_balance mutate_account
  held-set_reserved_balance d c who amount s =
      let a = accounts who c s in
      let s1 = deposit_event (Event.balance_set c who a.free amount) s in
      (
        ground (
          arith,
          held-settle cfg quiet d who c (is_some (get (who, c) s.accounts))
              (record a { reserved = amount }) s1,
        ),
        (settle-SameBooks cfg quiet who c _ (record a { reserved = amount }) s1).total_issuance,
      )

  -- The setters change the one balance of the one account.
  pub accounts-set_free_balance :
      (j c who amount : ℕ) (s : State Sys)
      → let b = accounts j c (set_free_balance cfg c who amount s) in
        (b.free ≡ (if j == who then amount else (accounts j c s).free))
        × (b.reserved ≡ (accounts j c s).reserved)
  unfolding set_free_balance mutate_account
  accounts-set_free_balance j c who amount s =
      let a = accounts who c s in
      let s1 = deposit_event (Event.balance_set c who amount a.reserved) s in
      ground (
        arith,
        accounts-settle_self cfg quiet who c (is_some (get (who, c) s.accounts))
            (record a { free = amount }) s1,
        accounts-settle_ne cfg quiet j who c (is_some (get (who, c) s.accounts))
            (record a { free = amount }) s1,
      )

  pub accounts-set_reserved_balance :
      (j c who amount : ℕ) (s : State Sys)
      → let b = accounts j c (set_reserved_balance cfg c who amount s) in
        (b.reserved ≡ (if j == who then amount else (accounts j c s).reserved))
        × (b.free ≡ (accounts j c s).free)
  unfolding set_reserved_balance mutate_account
  accounts-set_reserved_balance j c who amount s =
      let a = accounts who c s in
      let s1 = deposit_event (Event.balance_set c who a.free amount) s in
      ground (
        arith,
        accounts-settle_self cfg quiet who c (is_some (get (who, c) s.accounts))
            (record a { reserved = amount }) s1,
        accounts-settle_ne cfg quiet j who c (is_some (get (who, c) s.accounts))
            (record a { reserved = amount }) s1,
      )

  -- Two accounts together hold no more than all do.
  two_wholes-le-max_value :
      (c j k : ℕ) (s : State Sys)
      → IsBacked cfg c s
      → j ≢ k
      → (accounts j c s).free
          + (accounts j c s).reserved
          + ((accounts k c s).free + (accounts k c s).reserved)
        ≤ cfg.max_value
  two_wholes-le-max_value c j k s b ne =
      let both = two-le-total_of (holding c) (j, c) (k, c) s.accounts (ground arith) in
      ground (arith, both, weigh-accounts c j c s, weigh-accounts c k c s)

  -- What of the beneficiary grows: its free or its reserved balance.
  abbrev gains : BalanceStatus → ℕ → AccountData → AccountData
  gains BalanceStatus.free amount a = record a { free = a.free + amount }
  gains BalanceStatus.reserved amount a = record a { reserved = a.reserved + amount }

  abbrev SameBalances : AccountData → AccountData → Type 0
  SameBalances a b = (a.free ≡ b.free) × (a.reserved ≡ b.reserved)

  -- As much of the value as is reserved has moved to the other account.
  pub record HasRepatriated (d c slashed beneficiary value : ℕ) (status : BalanceStatus)
      (s : State Sys) (r : ℕ × State Sys) : Type 0 where
    pub rest : r.0 + min (accounts slashed c s).reserved value ≡ value
    pub taken :
        ((accounts slashed c r.1).reserved + min (accounts slashed c s).reserved value
          ≡ (accounts slashed c s).reserved)
        × ((accounts slashed c r.1).free ≡ (accounts slashed c s).free)
    pub given :
        SameBalances
          (accounts beneficiary c r.1)
          (gains status (min (accounts slashed c s).reserved value) (accounts beneficiary c s))
    pub totals : SameTotals d r.1 s

  repatriate-HasRepatriated :
      (d c slashed beneficiary value : ℕ) (status : BalanceStatus) (s : State Sys)
      → IsBacked cfg c s
      → slashed ≢ beneficiary
      → HasRepatriated d c slashed beneficiary value status s
          (repatriate cfg c slashed beneficiary value status s)
  unfolding repatriate
  repatriate-HasRepatriated d c slashed beneficiary value BalanceStatus.free s b ne =
      let f = accounts slashed c s in
      let t = accounts beneficiary c s in
      let actual = min f.reserved value in
      let whole = two_wholes-le-max_value c slashed beneficiary s b ne in
      let new = saturating_add cfg.max_value t.free actual in
      let s1 = set_free_balance cfg c beneficiary new s in
      let one = held-set_free_balance d c beneficiary new s in
      let two = held-set_reserved_balance d c slashed (f.reserved - actual) s1 in
      let at_f = accounts-set_free_balance slashed c beneficiary new s in
      let at_t = accounts-set_free_balance beneficiary c beneficiary new s in
      let then_f = accounts-set_reserved_balance slashed c slashed (f.reserved - actual) s1 in
      let then_t = accounts-set_reserved_balance beneficiary c slashed (f.reserved - actual) s1 in
      record {
        rest = omega arith;
        taken = ground arith;
        given = ground arith;
        totals = (ground arith, two.1 ∙ one.1);
      }
  repatriate-HasRepatriated d c slashed beneficiary value BalanceStatus.reserved s b ne =
      let f = accounts slashed c s in
      let t = accounts beneficiary c s in
      let actual = min f.reserved value in
      let whole = two_wholes-le-max_value c slashed beneficiary s b ne in
      let new = saturating_add cfg.max_value t.reserved actual in
      let s1 = set_reserved_balance cfg c beneficiary new s in
      let one = held-set_reserved_balance d c beneficiary new s in
      let two = held-set_reserved_balance d c slashed (f.reserved - actual) s1 in
      let at_f = accounts-set_reserved_balance slashed c beneficiary new s in
      let at_t = accounts-set_reserved_balance beneficiary c beneficiary new s in
      let then_f = accounts-set_reserved_balance slashed c slashed (f.reserved - actual) s1 in
      let then_t = accounts-set_reserved_balance beneficiary c slashed (f.reserved - actual) s1 in
      record {
        rest = omega arith;
        taken = ground arith;
        given = ground arith;
        totals = (ground arith, two.1 ∙ one.1);
      }

  -- With hooks that leave the storage of the pallet alone, from backed books, repatriating between
  -- two accounts moves as much of the value as is reserved to the free or reserved balance of the
  -- other, whether that one existed before or not, returns the rest and keeps the totals.
  pub repatriate_reserved-HasRepatriated :
      (d c slashed beneficiary value : ℕ) (status : BalanceStatus) (s : State Sys)
      → IsBacked cfg c s
      → slashed ≢ beneficiary
      → HasRepatriated d c slashed beneficiary value status s
          (repatriate_reserved cfg c slashed beneficiary value status s)
  unfolding repatriate_reserved
  repatriate_reserved-HasRepatriated d c slashed beneficiary value status s b ne =
      elim (Bool-cases (is_zero value)) [
        | inl nothing ↦ rw nothing (same status nothing)
        | inr something ↦
            let differ : (slashed == beneficiary) ≡ false = ground arith in
            rw (something, differ)
              (repatriate-HasRepatriated d c slashed beneficiary value status s b ne)
      ]
    where
      same :
          (st : BalanceStatus)
          → is_zero value ≡ true
          → HasRepatriated d c slashed beneficiary value st s (value, s)
      same BalanceStatus.free z = record {
        rest = ground arith;
        taken = ground arith;
        given = ground arith;
        totals = (refl, refl);
      }
      same BalanceStatus.reserved z = record {
        rest = ground arith;
        taken = ground arith;
        given = ground arith;
        totals = (refl, refl);
      }
