-- ===== src/Tokens/Safety/Reducible.antt =====
-- About `reducible_balance` and withdrawals (tokens/src/lib.rs).
use open_runtime_module_libr.Tokens.Books.Supply.{
  withdrawn_state, accounts-withdrawn_state, take_free_ok, do_withdraw_cases,
}
use open_runtime_module_libr.Tokens.Safety.Transfer.{IsAlive, lives-IsAlive}
use open_runtime_module_libr.Tokens.Books.{HasQuietHooks}
use open_runtime_module_libr.Tokens.Account.{accounts, ensure_can_withdraw, try_mutate_account}
use open_runtime_module_libr.Tokens.Transfer.{would_be_dead, take_free, do_withdraw}
use open_runtime_module_libr.Tokens.Fungibles.{reducible_balance, Preservation}
use open_runtime_module_libr.Tokens.Types.{
  err, Result, DispatchError, AccountData, ok, ExistenceRequirement, State, Config,
}
use open_runtime_module_libr.Prelude.{
  ◌<◌, true, not, ◌⊎◌, inr, max, inl, ◌≤◌, ◌-◌, Bool-cases, arith, ◌≤◌, ◌-◌, false, refl, ◌≡◌, ◌+◌,
  ◌+◌, ◌≡◌, is_zero, Bool, ℕ,
}

module _ {Sys : Type 0} (cfg : Config Sys) where
  reducible_balance-le :
      (c who : ℕ) (p : Preservation) (s : State Sys)
      → reducible_balance cfg c who p s + (accounts who c s).frozen
        ≤ max (accounts who c s).free (accounts who c s).frozen
  unfolding reducible_balance
  reducible_balance-le c who p s = ground arith

  pub do_withdraw_ok :
      (c who amount : ℕ) (req : ExistenceRequirement) (change : Bool) (s : State Sys)
      (a' : AccountData)
      → is_zero amount ≡ false
      → take_free cfg c who amount req (accounts who c s) s ≡ ok a'
      → (do_withdraw cfg c who amount req change s).0 ≡ ok tt
  unfolding do_withdraw try_mutate_account
  do_withdraw_ok c who amount req change s a' nz h = rw nz (ground arith)

  take_free_reducible :
      (c who : ℕ) (p : Preservation) (s : State Sys)
      → is_zero (reducible_balance cfg c who p s) ≡ false
      → let a = accounts who c s in
        take_free cfg c who (reducible_balance cfg c who p s) ExistenceRequirement.allow_death a s
        ≡ ok (record a { free = a.free - reducible_balance cfg c who p s })
  unfolding take_free ensure_can_withdraw
  take_free_reducible c who p s nz = rw nz (ground (arith, reducible_balance-le c who p s))

  -- Whatever reducible_balance says can be withdrawn if the account may die.
  do_withdraw-reducible_balance :
      (c who : ℕ) (p : Preservation) (change : Bool) (s : State Sys)
      → (do_withdraw cfg c who
          (reducible_balance cfg c who p s)
          ExistenceRequirement.allow_death
          change
          s).0
        ≡ ok tt
  do_withdraw-reducible_balance c who p change s =
      elim (Bool-cases (is_zero (reducible_balance cfg c who p s))) [
        | inl nothing ↦ unfold do_withdraw in rw nothing
        | inr something ↦
            do_withdraw_ok c who (reducible_balance cfg c who p s) _ change s _ something
              (take_free_reducible c who p s something)
      ]

  -- `Preserve` asks for more than `Protect`, but is treated like `Expendable`.
  pub reducible_balance-preserve :
      (c who : ℕ) (s : State Sys)
      → reducible_balance cfg c who Preservation.preserve s
        ≡ reducible_balance cfg c who Preservation.expendable s
  unfolding reducible_balance
  reducible_balance-preserve c who s = refl

  -- What a withdrawal that keeps the account alive accepts
  take_free_alive :
      (c who amount : ℕ) (s : State Sys) (a' : AccountData)
      → is_zero amount ≡ false
      → (accounts who c s).free + (accounts who c s).reserved ≤ cfg.max_value
      → take_free cfg c who amount ExistenceRequirement.keep_alive (accounts who c s) s ≡ ok a'
      → not (would_be_dead cfg c who a') ≡ true
  unfolding take_free ensure_can_withdraw
  take_free_alive c who amount s a' nz fits h = ground (arith, nz)

  take_free_within :
      (c who amount : ℕ) (s : State Sys) (a' : AccountData)
      → is_zero amount ≡ false
      → (accounts who c s).free + (accounts who c s).reserved ≤ cfg.max_value
      → take_free cfg c who amount ExistenceRequirement.keep_alive (accounts who c s) s ≡ ok a'
      → (amount ≤ reducible_balance cfg c who Preservation.protect s)
        ⊎ (cfg.dust_removal_whitelist who ≡ true)
  unfolding take_free ensure_can_withdraw would_be_dead reducible_balance
  take_free_within c who amount s a' nz fits h = ground (arith, nz)

  take_free_refused :
      (c who amount : ℕ) (e : DispatchError) (s : State Sys)
      → is_zero amount ≡ false
      → (accounts who c s).free + (accounts who c s).reserved ≤ cfg.max_value
      → take_free cfg c who amount ExistenceRequirement.keep_alive (accounts who c s) s ≡ err e
      → reducible_balance cfg c who Preservation.protect s < amount
  unfolding take_free ensure_can_withdraw would_be_dead reducible_balance
  take_free_refused c who amount e s nz fits h = ground (arith, nz)

module _ {Sys : Type 0} (cfg : Config Sys) (quiet : HasQuietHooks cfg) where
  -- What is taken is no more than may be, but from an account exempt from dust removal, and the account
  -- is left alive; or nothing changes, and more was asked for than may be taken.
  abbrev pub KeepsAlive : (c who amount : ℕ) → State Sys → Result (Unit {0}) × State Sys → Type 0
  KeepsAlive c who amount s (ok _, s') =
      ((accounts who c s').free + amount ≡ (accounts who c s).free)
      × ((accounts who c s').reserved ≡ (accounts who c s).reserved)
      × IsAlive cfg quiet c who s'
      × ((amount ≤ reducible_balance cfg c who Preservation.protect s)
          ⊎ (cfg.dust_removal_whitelist who ≡ true))
  KeepsAlive c who amount s (err e, s') =
      (s' ≡ s) × (reducible_balance cfg c who Preservation.protect s < amount)

  -- With hooks that leave the storage of the pallet alone, if the whole balance of an account is a
  -- value of the balance type, a withdrawal of a positive amount that must keep the account alive
  -- takes exactly the amount from the free balance and leaves the account with at least the
  -- existential deposit, or with something if it is exempt from dust removal, and then the amount is
  -- no more than reducible_balance says with Protect unless the account is exempt; or it changes
  -- nothing, and the amount is more than reducible_balance says with Protect.
  pub do_withdraw-KeepsAlive :
      (c who amount : ℕ) (change : Bool) (s : State Sys)
      → is_zero amount ≡ false
      → (accounts who c s).free + (accounts who c s).reserved ≤ cfg.max_value
      → KeepsAlive c who amount s
          (do_withdraw cfg c who amount ExistenceRequirement.keep_alive change s)
  do_withdraw-KeepsAlive c who amount change s nz fits =
      let req = ExistenceRequirement.keep_alive in
      elim (do_withdraw_cases cfg c who amount req change s nz) [
        | inl (e, fails) ↦ rw fails (refl, too_much e fails)
        | inr (a', taken, done) ↦
            let facts = take_free_ok cfg c who amount req (accounts who c s) s a' taken nz in
            let now = accounts-withdrawn_state cfg quiet c who amount change a' s in
            let alive = take_free_alive cfg c who amount s a' nz fits taken in
            rw done (
              ground (arith, now.0, facts.0, facts.1),
              ground (arith, now.1, facts.0),
              lives-IsAlive cfg quiet c who a' (withdrawn_state cfg c who amount change a' s) alive
                  now.0 now.1,
              take_free_within cfg c who amount s a' nz fits taken,
            )
      ]
    where
      too_much :
          (e : DispatchError)
          → do_withdraw cfg c who amount ExistenceRequirement.keep_alive change s ≡ (err e, s)
          → reducible_balance cfg c who Preservation.protect s < amount
      too_much e fails =
          go (take_free cfg c who amount ExistenceRequirement.keep_alive (accounts who c s) s) refl
        where
          go :
              (r : Result AccountData)
              → take_free cfg c who amount ExistenceRequirement.keep_alive (accounts who c s) s ≡ r
              → reducible_balance cfg c who Preservation.protect s < amount
          go (err x) h = take_free_refused cfg c who amount x s nz fits h
          go (ok a') h =
              absurd (ground (arith, fails, do_withdraw_ok cfg c who amount _ change s a' nz h))
