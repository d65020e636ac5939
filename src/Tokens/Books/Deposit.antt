-- ===== src/Tokens/Books/Deposit.antt =====
-- About deposits and the books (`do_deposit` of tokens/src/lib.rs).
use open_runtime_module_libr.Storage.Laws.{get-put}
use open_runtime_module_libr.Tokens.Books.Settle.{
  accounts-settle_self, settle-SameBooks, held-settle,
}
use open_runtime_module_libr.Tokens.Books.Supply.{free-le-issuance, share_of}
use open_runtime_module_libr.Tokens.Books.{
  SameBooks-SameTotals, SameTotals-IsBacked, SameTotals, held, IsBacked, HasQuietHooks,
}
use open_runtime_module_libr.Storage.{get}
use open_runtime_module_libr.Numeric.{saturating_add}
use open_runtime_module_libr.Tokens.Account.{
  dust_of, set_total_issuance_value, total_issuance, accounts, settle, try_mutate_account,
}
use open_runtime_module_libr.Tokens.Transfer.{do_deposit, credit_account, check_deposit}
use open_runtime_module_libr.Tokens.Types.{
  Result, err, DispatchError, ok, AccountData, State, Config,
}
use open_runtime_module_libr.Prelude.{
  is_zero, Bool-cases, some, false, true, inl, inr, pair_eq, Option, ◌⊎◌, ◌⊎◌, if◌then◌else◌,
  if◌then◌else◌, is_some, Bool, ℕ, ◌+◌, ◌≤◌, ◌≡◌, arith, refl,
}

module _ {Sys : Type 0} (cfg : Config Sys) where
  -- What an accepted deposit finds.
  check_deposit_ok :
      (c who amount : ℕ) (require_existed existed : Bool) (s : State Sys) (n : ℕ)
      → check_deposit cfg c who amount require_existed existed s ≡ ok n
      → (n ≡ total_issuance c s + amount) × (n ≤ cfg.max_value)
  unfolding check_deposit
  check_deposit_ok c who amount require_existed existed s n h = ground arith

  -- The account after a deposit, which saturates.
  abbrev raised : ℕ → ℕ → ℕ → State Sys → AccountData
  raised c who amount s = record (accounts who c s) {
    free = saturating_add cfg.max_value (accounts who c s).free amount;
  }

  abbrev credited_state : ℕ → ℕ → ℕ → Bool → State Sys → State Sys
  credited_state c who amount change s =
      settle cfg who c (is_some (get (who, c) s.accounts)) (raised c who amount s)
        (if change then set_total_issuance_value c (total_issuance c s + amount) s else s)

  credit_account_cases :
      (c who amount : ℕ) (require_existed change : Bool) (s : State Sys)
      → ((e : DispatchError) × (credit_account cfg c who amount require_existed change s
            ≡ (err e, s)))
        ⊎ ((dust : Option ℕ) × (total_issuance c s + amount ≤ cfg.max_value)
            × (credit_account cfg c who amount require_existed change s
                ≡ (ok (tt, dust), credited_state c who amount change s)))
  unfolding credit_account try_mutate_account
  credit_account_cases c who amount require_existed change s =
      go (check_deposit cfg c who amount require_existed (is_some (get (who, c) s.accounts)) s) refl
    where
      go :
          (r : Result ℕ)
          → check_deposit cfg c who amount require_existed (is_some (get (who, c) s.accounts)) s ≡ r
          → ((e : DispatchError) × (credit_account cfg c who amount require_existed change s
                ≡ (err e, s)))
            ⊎ ((dust : Option ℕ) × (total_issuance c s + amount ≤ cfg.max_value)
                × (credit_account cfg c who amount require_existed change s
                    ≡ (ok (tt, dust), credited_state c who amount change s)))
      go (ok n) h =
          let facts =
            check_deposit_ok c who amount require_existed (is_some (get (who, c) s.accounts)) s n
              h in
          inr (dust_of cfg who c (raised c who amount s), omega arith, ground arith)
      go (err e) h = inl (e, ground arith)

module _ {Sys : Type 0} (cfg : Config Sys) (quiet : HasQuietHooks cfg) where
  held-credited_state :
      (d c who amount : ℕ) (change : Bool) (s : State Sys)
      → (accounts who c s).free + amount ≤ cfg.max_value
      → held d (credited_state cfg c who amount change s) ≡ held d s + share_of d c amount
  held-credited_state d c who amount true s le = ground (
    arith,
    held-settle cfg quiet d who c (is_some (get (who, c) s.accounts)) (raised cfg c who amount s)
        (set_total_issuance_value c (total_issuance c s + amount) s),
  )
  held-credited_state d c who amount false s le = ground (
    arith,
    held-settle cfg quiet d who c (is_some (get (who, c) s.accounts)) (raised cfg c who amount s) s,
  )

  issuance-credited_state :
      (d c who amount : ℕ) (change : Bool) (s : State Sys)
      → total_issuance d (credited_state cfg c who amount change s)
        ≡ total_issuance d s + (if change then share_of d c amount else 0)
  issuance-credited_state d c who amount true s =
      rw
        (
          (settle-SameBooks cfg quiet who c (is_some (get (who, c) s.accounts))
              (raised cfg c who amount s) _).total_issuance,
          get-put d c (some (total_issuance c s + amount)) s.total_issuance,
        )
        (ground arith)
  issuance-credited_state d c who amount false s =
      rw
        ((settle-SameBooks cfg quiet who c (is_some (get (who, c) s.accounts))
          (raised cfg c who amount s) _).total_issuance)
        (omega arith)

  accounts-credited_state :
      (c who amount : ℕ) (change : Bool) (s : State Sys)
      → let b = accounts who c (credited_state cfg c who amount change s) in
        (b.free ≡ (raised cfg c who amount s).free)
        × (b.reserved ≡ (raised cfg c who amount s).reserved)
  accounts-credited_state c who amount change s =
      accounts-settle_self cfg quiet who c (is_some (get (who, c) s.accounts))
        (raised cfg c who amount s)
        (if change then set_total_issuance_value c (total_issuance c s + amount) s else s)

  -- The free balance and the holdings have risen by the amount, and the total issuance too if it is to
  -- be changed.
  abbrev HasRisen : (d c who amount : ℕ) → Bool → State Sys → State Sys → Type 0
  HasRisen d c who amount change s s' =
      ((accounts who c s').free ≡ (accounts who c s).free + amount)
      × ((accounts who c s').reserved ≡ (accounts who c s).reserved)
      × (held d s' ≡ held d s + share_of d c amount)
      × (total_issuance d s' ≡ total_issuance d s + (if change then share_of d c amount else 0))

  credit_account-HasRisen :
      (d c who amount : ℕ) (require_existed change : Bool) (s : State Sys)
      → IsBacked cfg c s
      → (((credit_account cfg c who amount require_existed change s).1 ≡ s)
          × ((e : DispatchError) × ((credit_account cfg c who amount require_existed change s).0
                ≡ err e)))
        ⊎ (HasRisen d c who amount change s
              (credit_account cfg c who amount require_existed change s).1
            × (total_issuance c s + amount ≤ cfg.max_value)
            × ((dust : Option ℕ) × ((credit_account cfg c who amount require_existed change s).0
                  ≡ ok (tt, dust))))
  credit_account-HasRisen d c who amount require_existed change s b =
      elim (credit_account_cases cfg c who amount require_existed change s) [
        | inl (e, fails) ↦ rw fails (inl (refl, (e, refl)))
        | inr (dust, fits, done) ↦
            let below = free-le-issuance cfg quiet c who s b in
            let now = accounts-credited_state c who amount change s in
            rw done (
              inr (
                (
                  ground (arith, now.0),
                  ground (arith, now.1),
                  held-credited_state d c who amount change s (omega arith),
                  issuance-credited_state d c who amount change s,
                ),
                fits,
                (dust, refl),
              ))
      ]

  -- The state in which `post_deposit` runs.
  abbrev pub credited : (c who amount : ℕ) → (require_existed change : Bool) → State Sys → State Sys
  credited c who amount require_existed change s =
      (credit_account cfg c who amount require_existed change (cfg.pre_deposit c who amount s).1).1

  -- What a deposit does. An error leaves the totals as they were, or is that of the hook that runs after
  -- the account was written.
  abbrev pub Rises :
      (d c who amount : ℕ)
      → (require_existed change : Bool) → State Sys
      → Result ℕ × State Sys
      → Type 0
  Rises d c who amount require_existed change s (ok n, s') =
      (n ≡ amount)
      × HasRisen d c who amount change s s'
      × (total_issuance c s + amount ≤ cfg.max_value)
  Rises d c who amount require_existed change s (err e, s') =
      SameTotals d s' s
      ⊎ (HasRisen d c who amount change s s'
          × ((cfg.post_deposit c who amount (credited c who amount require_existed change s)).0
              ≡ err e))

  -- With hooks that leave the storage of the pallet alone, from backed books, a deposit that
  -- succeeds returns its amount, adds exactly that to the free balance and to the holdings of its
  -- currency, and to the total issuance if asked to, which with the amount is a value of the balance
  -- type; other currencies stay. One that fails leaves the totals alone, unless post_deposit, which
  -- runs last, is what failed.
  pub do_deposit-Rises :
      (d c who amount : ℕ) (require_existed change : Bool) (s : State Sys)
      → IsBacked cfg c s
      → Rises d c who amount require_existed change s
          (do_deposit cfg c who amount require_existed change s)
  unfolding do_deposit
  do_deposit-Rises d c who amount require_existed change s b = elim (Bool-cases (is_zero amount)) [
    | inl nothing ↦ rw nothing (ground (arith, b.bounded))
    | inr some_amount ↦
        let before = quiet.pre_deposit c who amount s in
        let s0 = (cfg.pre_deposit c who amount s).1 in
        let b0 = SameTotals-IsBacked cfg c s0 s (SameBooks-SameTotals c before) b in
        let s1 = (credit_account cfg c who amount require_existed change s0).1 in
        let same : accounts who c s0 ≡ accounts who c s = rw before.accounts in
        let after = quiet.post_deposit c who amount s1 in
        let there : accounts who c (cfg.post_deposit c who amount s1).1 ≡ accounts who c s1 =
          rw after.accounts in
        rw some_amount (
          ground (
            arith,
            same,
            there,
            SameBooks-SameTotals d before,
            credit_account-HasRisen d c who amount require_existed change s0 b0,
            SameBooks-SameTotals d after,
          ))
  ]
