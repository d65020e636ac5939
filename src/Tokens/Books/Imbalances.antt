-- ===== src/Tokens/Books/Imbalances.antt =====
-- About imbalances and the books (tokens/src/imbalances.rs and `CurrencyAdapter` of tokens/src/lib.rs):
-- an operation of the adapter leaves the total issuance to the imbalance that it returns.
use open_runtime_module_libr.Tokens.Books.Settle.{settle-SameBooks, held-settle}
use open_runtime_module_libr.Storage.{get}
use open_runtime_module_libr.Tokens.Adapter.{loss, gain, SignedImbalance}
use open_runtime_module_libr.Tokens.Books.Deposit.{do_deposit-Rises, Rises, credited}
use open_runtime_module_libr.Numeric.{saturating_add}
use open_runtime_module_libr.Tokens.Transfer.{do_deposit, do_withdraw}
use open_runtime_module_libr.Storage.Laws.{get-put}
use open_runtime_module_libr.Tokens.Account.{settle, accounts, try_mutate_account, total_issuance}
use open_runtime_module_libr.Tokens.Monad.{deposit_event, pure, ◌>>◌}
use open_runtime_module_libr.Tokens.Books.Supply.{do_withdraw-Falls, Falls}
use open_runtime_module_libr.Tokens.Imbalances.{
  positive, negative, PositiveImbalance, NegativeImbalance, drop_positive, drop_negative,
}
use open_runtime_module_libr.Prelude.{
  Bool, pair_eq, inr, if◌then◌else◌, inl, ◌||◌, leb, is_some, Bool-cases, refl, true, nat_eq, arith,
  ◌-◌, ◌-◌, some, ◌≤◌, ◌≡◌, ◌+◌, false, ℕ,
}
use open_runtime_module_libr.Tokens.Books.{held, IsBacked, HasQuietHooks}
use open_runtime_module_libr.Tokens.Types.{
  Event, err, ok, State, ExistenceRequirement, Result, Config,
}
use open_runtime_module_libr.Tokens.Adapter

module _ {Sys : Type 0} (cfg : Config Sys) where
  drop_negative-IsBacked :
      (c v : ℕ) (s s' : State Sys)
      → IsBacked cfg c s
      → held c s' + v ≡ held c s
      → total_issuance c s' ≡ total_issuance c s
      → IsBacked cfg c (drop_negative c (negative v) s')
  unfolding drop_negative
  drop_negative-IsBacked c v s s' b h i =
      let now = get-put c c (some (total_issuance c s' - v)) s'.total_issuance in
      record {
        backed = rw now (ground (arith, b.backed));
        bounded = rw now (ground (arith, b.bounded));
      }

  drop_positive-IsBacked :
      (c v : ℕ) (s s' : State Sys)
      → IsBacked cfg c s
      → held c s' ≡ held c s + v
      → total_issuance c s' ≡ total_issuance c s
      → total_issuance c s + v ≤ cfg.max_value
      → IsBacked cfg c (drop_positive cfg.max_value c (positive v) s')
  unfolding drop_positive
  drop_positive-IsBacked c v s s' b h i fits =
      let now =
        get-put c c (some (saturating_add cfg.max_value (total_issuance c s') v))
          s'.total_issuance in
      record {
        backed = rw now (ground (arith, b.backed));
        bounded = rw now (ground (arith, b.bounded));
      }

  -- The books after the imbalance of a withdrawal is dropped; an error changes nothing.
  abbrev pub SquaresDown : ℕ → State Sys → Result NegativeImbalance × State Sys → Type 0
  SquaresDown c s (ok imbalance, s') = IsBacked cfg c (drop_negative c imbalance s')
  SquaresDown c s (err e, s') = s' ≡ s

  -- The books after the imbalance of a deposit is dropped.
  abbrev pub SquaresUp : ℕ → Result PositiveImbalance × State Sys → Type 0
  SquaresUp c (ok imbalance, s') = IsBacked cfg c (drop_positive cfg.max_value c imbalance s')
  SquaresUp c (err e, s') = Unit

module _ {Sys : Type 0} (cfg : Config Sys) (quiet : HasQuietHooks cfg) where
  -- With hooks that leave the storage of the pallet alone, from backed books, a withdrawal through
  -- the currency adapter fails and changes nothing, or the books are backed again once its imbalance
  -- is dropped.
  pub withdraw-SquaresDown :
      (c who value : ℕ) (req : ExistenceRequirement) (s : State Sys)
      → IsBacked cfg c s
      → SquaresDown cfg c s (Adapter.withdraw cfg c who value req s)
  unfolding Adapter.withdraw
  withdraw-SquaresDown c who value req s b =
      go (do_withdraw cfg c who value req false s)
        (do_withdraw-Falls cfg quiet c c who value req false s b)
    where
      go :
          (r : Result (Unit {0}) × State Sys)
          → Falls cfg quiet c c who value false s r
          → SquaresDown cfg c s (((λ (x : State Sys). r) >> pure (negative value)) s)
      go (ok _, s') f =
          drop_negative-IsBacked cfg c value s s' b (ground (arith, f)) (ground (arith, f))
      go (err e, s') f = f

  -- With hooks that leave the storage of the pallet alone, from backed books, when a deposit into an
  -- existing account through the adapter succeeds, the books are backed again once its imbalance is
  -- dropped.
  deposit_into_existing-SquaresUp :
      (c who value : ℕ) (s : State Sys)
      → IsBacked cfg c s
      → SquaresUp cfg c (Adapter.deposit_into_existing cfg c who value s)
  unfolding Adapter.deposit_into_existing
  deposit_into_existing-SquaresUp c who value s b =
      go (do_deposit cfg c who value true false s)
        (do_deposit-Rises cfg quiet c c who value true false s b)
    where
      go :
          (r : Result ℕ × State Sys)
          → Rises cfg quiet c c who value true false s r
          → SquaresUp cfg c (((λ (x : State Sys). r) >> pure (positive value)) s)
      go (ok n, s') f =
          drop_positive-IsBacked cfg c value s s' b (ground (arith, f)) (ground (arith, f))
            (ground (arith, f))
      go (err e, s') f = tt

  -- With hooks that leave the storage of the pallet alone, from backed books, a deposit through the
  -- adapter that may create the account leaves the books backed once its imbalance is dropped,
  -- whether or not it was made, if post_deposit does not fail.
  pub deposit_creating-IsBacked :
      (c who value : ℕ) (s : State Sys)
      → IsBacked cfg c s
      → (cfg.post_deposit c who value (credited cfg quiet c who value false false s)).0 ≡ ok tt
      → let (imbalance, s') = Adapter.deposit_creating cfg c who value s in
        IsBacked cfg c (drop_positive cfg.max_value c imbalance s')
  unfolding Adapter.deposit_creating
  deposit_creating-IsBacked c who value s b post =
      go (do_deposit cfg c who value false false s)
        (do_deposit-Rises cfg quiet c c who value false false s b)
    where
      go :
          (r : Result ℕ × State Sys)
          → Rises cfg quiet c c who value false false s r
          → IsBacked cfg c (
              drop_positive cfg.max_value c
                (elim r.0 [ ok _ ↦ positive value | err _ ↦ positive 0 ])
                r.1)
      go (ok n, s') f =
          drop_positive-IsBacked cfg c value s s' b (ground (arith, f)) (ground (arith, f))
            (ground (arith, f))
      go (err e, s') f =
          drop_positive-IsBacked cfg c 0 s s' b (ground (arith, f, post)) (ground (arith, f, post))
            (ground (arith, b.bounded))

  -- The drop of the imbalance that `make_free_balance_be` returns.
  abbrev pub drop_signed : ℕ → SignedImbalance → State Sys → State Sys
  drop_signed c (gain imbalance) s' = drop_positive cfg.max_value c imbalance s'
  drop_signed c (loss imbalance) s' = drop_negative c imbalance s'

  signed-IsBacked :
      (c who value : ℕ) (s t : State Sys)
      → IsBacked cfg c s
      → total_issuance c s + value ≤ cfg.max_value
      → t.accounts ≡ s.accounts
      → t.total_issuance ≡ s.total_issuance
      → let a = accounts who c s in
        let u =
          settle cfg who c (is_some (get (who, c) s.accounts)) (record a { free = value }) t in
        IsBacked cfg c (
          drop_signed c
            (if leb a.free value
              then gain (positive (value - a.free))
              else loss (negative (a.free - value)))
            u)
  signed-IsBacked c who value s t b fits ea ei =
      let a = accounts who c s in
      let x = is_some (get (who, c) s.accounts) in
      let u = settle cfg who c x (record a { free = value }) t in
      let now = held-settle cfg quiet c who c x (record a { free = value }) t in
      let same : accounts who c t ≡ accounts who c s = rw ea in
      let held_same : held c t ≡ held c s = rw ea in
      let issued : total_issuance c u ≡ total_issuance c s =
        rw
          ((settle-SameBooks cfg quiet who c x (record a { free = value }) t).total_issuance, ei) in
      elim (Bool-cases (leb a.free value)) [
        | inl up ↦ rw up (
            drop_positive-IsBacked cfg c (value - a.free) s u b
              (ground (arith, now, same, held_same, up)) issued (omega arith))
        | inr down ↦ rw down (
            drop_negative-IsBacked cfg c (a.free - value) s u b
              (ground (arith, now, same, held_same, down)) issued)
      ]

  -- The check of `make_free_balance_be`.
  abbrev may_set : (c who value : ℕ) → State Sys → Bool
  may_set c who value s =
      leb (cfg.existential_deposits c)
        (saturating_add cfg.max_value value (accounts who c s).reserved)
      || is_some (get (who, c) s.accounts)

  make_free_balance_be_ok :
      (c who value : ℕ) (s : State Sys)
      → may_set c who value s ≡ true
      → let a = accounts who c s in
        Adapter.make_free_balance_be cfg c who value s ≡ (
          if leb a.free value
              then gain (positive (value - a.free))
              else loss (negative (a.free - value)),
          settle cfg who c
              (is_some (get (who, c) s.accounts))
              (record a { free = value })
              (deposit_event (Event.balance_set c who value a.reserved) s),
        )
  unfolding Adapter.make_free_balance_be Adapter.set_free try_mutate_account
  make_free_balance_be_ok c who value s h = ground arith

  make_free_balance_be_err :
      (c who value : ℕ) (s : State Sys)
      → may_set c who value s ≡ false
      → Adapter.make_free_balance_be cfg c who value s ≡ (gain (positive 0), s)
  unfolding Adapter.make_free_balance_be Adapter.set_free try_mutate_account
  make_free_balance_be_err c who value s h = ground arith

  -- With hooks that leave the storage of the pallet alone, from backed books, if the total issuance
  -- with the new balance is a value of the balance type, make_free_balance_be leaves the books
  -- backed once the imbalance that it returns is dropped, whether or not it set the balance.
  make_free_balance_be-IsBacked :
      (c who value : ℕ) (s : State Sys)
      → IsBacked cfg c s
      → total_issuance c s + value ≤ cfg.max_value
      → let (imbalance, s') = Adapter.make_free_balance_be cfg c who value s in
        IsBacked cfg c (drop_signed c imbalance s')
  make_free_balance_be-IsBacked c who value s b fits = elim (Bool-cases (may_set c who value s)) [
    | inl allowed ↦ rw (make_free_balance_be_ok c who value s allowed) (
        signed-IsBacked c who value s
          (deposit_event (Event.balance_set c who value (accounts who c s).reserved) s) b fits refl
          refl)
    | inr refused ↦
        rw (make_free_balance_be_err c who value s refused)
          (drop_positive-IsBacked cfg c 0 s s b (omega arith) refl (ground (arith, b.bounded)))
  ]
