-- ===== src/Tokens/Books/Supply.antt =====
-- About withdrawals and the books (`do_withdraw` of tokens/src/lib.rs).
use open_runtime_module_libr.Storage.Laws.{get-put}
use open_runtime_module_libr.Storage.Sum.{weigh-le-total_of}
use open_runtime_module_libr.Tokens.Books.Settle.{
  accounts-settle_self, settle-SameBooks, held-settle, weigh-accounts,
}
use open_runtime_module_libr.Tokens.Monad.{deposit_event}
use open_runtime_module_libr.Storage.{get}
use open_runtime_module_libr.Tokens.Books.{IsBacked, HasQuietHooks, held, holding}
use open_runtime_module_libr.Tokens.Account.{
  set_total_issuance_value, settle, accounts, total_issuance, ensure_can_withdraw,
  try_mutate_account,
}
use open_runtime_module_libr.Tokens.Transfer.{do_withdraw, take_free}
use open_runtime_module_libr.Tokens.Types.{
  Event, err, DispatchError, Result, ok, AccountData, ExistenceRequirement, State, Config,
}
use open_runtime_module_libr.Prelude.{
  Bool-cases, true, some, ◌==◌, false, pair_eq, is_zero, if◌then◌else◌, inl, inr, ◌⊎◌, ◌⊎◌, is_some,
  Bool, ℕ, ◌+◌, ◌-◌, ◌≤◌, ◌≡◌, arith, refl,
}

module _ {Sys : Type 0} (cfg : Config Sys) where
  -- What an accepted withdrawal makes of the account.
  pub take_free_ok :
      (c who amount : ℕ) (req : ExistenceRequirement) (a : AccountData) (s : State Sys)
      (a' : AccountData)
      → take_free cfg c who amount req a s ≡ ok a'
      → is_zero amount ≡ false
      → (a' ≡ record a { free = a.free - amount })
        × ((accounts who c s).frozen + amount ≤ (accounts who c s).free)
  unfolding take_free ensure_can_withdraw
  take_free_ok c who amount req a s a' h nz = ground arith

  -- No account holds more than all do.
  pub holding-le-held :
      (d who c : ℕ) (s : State Sys) → holding d (who, c) (accounts who c s) ≤ held d s
  holding-le-held d who c s =
      rw (← weigh-accounts d who c s) (weigh-le-total_of (holding d) (who, c) s.accounts)

  -- The state after an accepted withdrawal, up to events.
  abbrev pub withdrawn_state : ℕ → ℕ → ℕ → Bool → AccountData → State Sys → State Sys
  withdrawn_state c who amount change a' s =
      settle cfg who c (is_some (get (who, c) s.accounts)) a' (
        deposit_event (Event.withdrawn c who amount)
          (if change then set_total_issuance_value c (total_issuance c s - amount) s else s))

  pub do_withdraw_cases :
      (c who amount : ℕ) (req : ExistenceRequirement) (change : Bool) (s : State Sys)
      → is_zero amount ≡ false
      → ((e : DispatchError) × (do_withdraw cfg c who amount req change s ≡ (err e, s)))
        ⊎ ((a' : AccountData) × (take_free cfg c who amount req (accounts who c s) s ≡ ok a')
            × (do_withdraw cfg c who amount req change s
                ≡ (ok tt, withdrawn_state c who amount change a' s)))
  unfolding do_withdraw try_mutate_account
  do_withdraw_cases c who amount req change s nz =
      go (take_free cfg c who amount req (accounts who c s) s) refl
    where
      go :
          (r : Result AccountData)
          → take_free cfg c who amount req (accounts who c s) s ≡ r
          → ((e : DispatchError) × (do_withdraw cfg c who amount req change s ≡ (err e, s)))
            ⊎ ((a' : AccountData) × (take_free cfg c who amount req (accounts who c s) s ≡ ok a')
                × (do_withdraw cfg c who amount req change s
                    ≡ (ok tt, withdrawn_state c who amount change a' s)))
      go (ok a') h = inr (a', h, rw nz (ground arith))
      go (err e) h = inl (e, rw nz (ground arith))

-- The part of a currency's change that a currency `d` sees.
abbrev pub share_of : ℕ → ℕ → ℕ → ℕ
share_of d c amount = if c == d then amount else 0

module _ {Sys : Type 0} (cfg : Config Sys) (quiet : HasQuietHooks cfg) where
  held-withdrawn_state :
      (d c who amount : ℕ) (change : Bool) (a' : AccountData) (s : State Sys)
      → a' ≡ record (accounts who c s) { free = (accounts who c s).free - amount }
      → amount ≤ (accounts who c s).free
      → held d (withdrawn_state cfg c who amount change a' s) + share_of d c amount ≡ held d s
  held-withdrawn_state d c who amount true a' s e le = ground (
    arith,
    held-settle cfg quiet d who c (is_some (get (who, c) s.accounts)) a' (
        deposit_event (Event.withdrawn c who amount)
          (set_total_issuance_value c (total_issuance c s - amount) s)),
  )
  held-withdrawn_state d c who amount false a' s e le = ground (
    arith,
    held-settle cfg quiet d who c (is_some (get (who, c) s.accounts)) a'
        (deposit_event (Event.withdrawn c who amount) s),
  )

  issuance-withdrawn_state :
      (d c who amount : ℕ) (change : Bool) (a' : AccountData) (s : State Sys)
      → amount ≤ total_issuance c s
      → total_issuance d (withdrawn_state cfg c who amount change a' s)
          + (if change then share_of d c amount else 0)
        ≡ total_issuance d s
  issuance-withdrawn_state d c who amount true a' s le =
      rw
        (
          (settle-SameBooks cfg quiet who c (is_some (get (who, c) s.accounts)) a'
              _).total_issuance,
          get-put d c (some (total_issuance c s - amount)) s.total_issuance,
        )
        (ground arith)
  issuance-withdrawn_state d c who amount false a' s le =
      rw
        ((settle-SameBooks cfg quiet who c (is_some (get (who, c) s.accounts)) a' _).total_issuance)
        (omega arith)

  pub accounts-withdrawn_state :
      (c who amount : ℕ) (change : Bool) (a' : AccountData) (s : State Sys)
      → let b = accounts who c (withdrawn_state cfg c who amount change a' s) in
        (b.free ≡ a'.free) × (b.reserved ≡ a'.reserved)
  accounts-withdrawn_state c who amount change a' s =
      accounts-settle_self cfg quiet who c (is_some (get (who, c) s.accounts)) a' (
        deposit_event (Event.withdrawn c who amount)
          (if change then set_total_issuance_value c (total_issuance c s - amount) s else s))

  -- What a withdrawal does: an error leaves the storage as it was; otherwise the free balance falls by
  -- the amount, which frozen balance is not part of, and so do the holdings of the currency, and the
  -- total issuance if it is to be changed.
  abbrev pub Falls :
      {A : Type 0} → (d c who amount : ℕ) → Bool → State Sys → Result A × State Sys → Type 0
  Falls d c who amount change s (err e, s') = s' ≡ s
  Falls d c who amount change s (ok a, s') =
      ((accounts who c s').free + amount ≡ (accounts who c s).free)
      × ((accounts who c s').reserved ≡ (accounts who c s).reserved)
      × (((accounts who c s).frozen ≤ (accounts who c s').free) ⊎ (amount ≡ 0))
      × (held d s' + share_of d c amount ≡ held d s)
      × (total_issuance d s' + (if change then share_of d c amount else 0) ≡ total_issuance d s)

  pub free-le-issuance :
      (c who : ℕ) (s : State Sys) → IsBacked cfg c s → (accounts who c s).free ≤ total_issuance c s
  free-le-issuance c who s b = ground (arith, holding-le-held cfg c who c s)

  pub whole-le-max_value :
      (c who : ℕ) (s : State Sys)
      → IsBacked cfg c s
      → (accounts who c s).free + (accounts who c s).reserved ≤ cfg.max_value
  whole-le-max_value c who s b = ground (arith, holding-le-held cfg c who c s)

  -- With hooks that leave the storage of the pallet alone, from backed books, a withdrawal fails and
  -- changes nothing, or takes exactly its amount from the free balance, never what is frozen, lowers
  -- the holdings of its currency by as much, and the total issuance too if asked to; other
  -- currencies stay.
  pub do_withdraw-Falls :
      (d c who amount : ℕ) (req : ExistenceRequirement) (change : Bool) (s : State Sys)
      → IsBacked cfg c s
      → Falls d c who amount change s (do_withdraw cfg c who amount req change s)
  do_withdraw-Falls d c who amount req change s b = elim (Bool-cases (is_zero amount)) [
    | inl nothing ↦ unfold do_withdraw in rw nothing (ground arith)
    | inr some_amount ↦ elim (do_withdraw_cases cfg c who amount req change s some_amount) [
      | inl (e, fails) ↦ rw fails refl
      | inr (a', taken, done) ↦
          let facts = take_free_ok cfg c who amount req (accounts who c s) s a' taken some_amount in
          let enough = free-le-issuance c who s b in
          let now = accounts-withdrawn_state c who amount change a' s in
          rw done (
            ground (arith, now.0, facts.0, facts.1),
            ground (arith, now.1, facts.0),
            ground (arith, now.0, facts.0, facts.1),
            held-withdrawn_state d c who amount change a' s facts.0 (omega arith),
            issuance-withdrawn_state d c who amount change a' s (omega arith),
          )
    ]
  ]
