-- ===== src/Tokens/Safety/Transfer.antt =====
-- About a successful transfer and the accounts (`do_transfer` of tokens/src/lib.rs).
use open_runtime_module_libr.Tokens.Books.Settle.{
  accounts-settle_other, accounts-settle_ne, accounts-settle_self,
}
use open_runtime_module_libr.Tokens.Monad.{deposit_event, modify, ◌>>◌}
use open_runtime_module_libr.Tokens.Books.Transfer.{
  move_free_ok, move_between_err, move_between_ok, existed_in,
}
use open_runtime_module_libr.Tokens.Books.{SameBooks, HasQuietHooks}
use open_runtime_module_libr.Tokens.Account.{settle, accounts, ensure_can_withdraw}
use open_runtime_module_libr.Tokens.Transfer.{
  move_between, do_transfer, would_be_dead, allows_death, move_free,
}
use open_runtime_module_libr.Tokens.Types.{
  Event, Action, err, Result, total, ok, State, AccountData, ExistenceRequirement, Config,
}
use open_runtime_module_libr.Prelude.{
  inr, inl, Bool-cases, ◌<◌, ◌⊎◌, ◌-◌, ◌≢◌, Bool, refl, ◌==◌, not, ◌&&◌, true, ◌||◌, leb, false,
  is_zero, ℕ, ◌+◌, ◌≤◌, ◌≡◌, arith,
}

module _ {Sys : Type 0} (cfg : Config Sys) where
  -- The checks that an accepted move has passed.
  move_free_checks :
      (c from to amount : ℕ) (req : ExistenceRequirement) (t f : AccountData) (s : State Sys)
      (t' f' : AccountData)
      → move_free cfg c from to amount req t f s ≡ ok (t', f')
      → is_zero amount ≡ false
      → ((accounts from c s).frozen + amount ≤ (accounts from c s).free)
        × ((leb (cfg.existential_deposits c) (total cfg.max_value t')
              || cfg.dust_removal_whitelist to)
            ≡ true)
        × ((allows_death req && cfg.can_dec_provider from s.system
              || not (would_be_dead cfg c from f'))
            ≡ true)
  unfolding move_free ensure_can_withdraw
  move_free_checks c from to amount req t f s t' f' h nz = ground arith

module _ {Sys : Type 0} (cfg : Config Sys) (quiet : HasQuietHooks cfg) where
  -- The storage when the two accounts are read.
  abbrev begun : (c from to amount : ℕ) → State Sys → State Sys
  begun c from to amount s = (cfg.pre_transfer c from to amount s).1

  -- The steps of a transfer that is not a no-op.
  abbrev steps : (c from to amount : ℕ) → ExistenceRequirement → Action Sys (Unit {0})
  steps c from to amount req =
      cfg.pre_transfer c from to amount
      >> (move_between cfg c from to amount req
          >> (cfg.post_transfer c from to amount
              >> modify (deposit_event (Event.transfer c from to amount))))

  do_transfer-eq-steps :
      (c from to amount : ℕ) (req : ExistenceRequirement) (s : State Sys)
      → (is_zero amount || from == to) ≡ false
      → do_transfer cfg c from to amount req s ≡ steps c from to amount req s
  unfolding do_transfer
  do_transfer-eq-steps c from to amount req s h = rw h

  -- What a transfer that succeeds has done: the closure accepted, both accounts were settled, and the
  -- hooks left the books alone.
  abbrev Outcome : (c from to amount : ℕ) → ExistenceRequirement → State Sys → State Sys → Type 0
  Outcome c from to amount req s0 s' =
      (t' : AccountData) × (f' : AccountData) × (move_free cfg c from to amount req
          (accounts to c s0) (accounts from c s0) s0
        ≡ ok (t', f'))
      × SameBooks s' (
          settle cfg to c (existed_in cfg to c s0) t'
            (settle cfg from c (existed_in cfg from c s0) f' s0))

  steps-Outcome :
      (c from to amount : ℕ) (req : ExistenceRequirement) (s : State Sys)
      → (steps c from to amount req s).0 ≡ ok tt
      → Outcome c from to amount req (begun c from to amount s) (steps c from to amount req s).1
  steps-Outcome c from to amount req s done =
      go (move_free cfg c from to amount req (accounts to c s0) (accounts from c s0) s0) refl
    where
      s0 : State Sys
      s0 = begun c from to amount s

      go :
          (r : Result (AccountData × AccountData))
          → move_free cfg c from to amount req (accounts to c s0) (accounts from c s0) s0 ≡ r
          → Outcome c from to amount req s0 (steps c from to amount req s).1
      go (ok (t', f')) h =
          let there = move_between_ok cfg c from to amount req s0 t' f' h in
          let after =
            quiet.post_transfer c from to amount (move_between cfg c from to amount req s0).1 in
          (t', f', h, ground (arith, there, after))
      go (err e) h = absurd (ground (arith, move_between_err cfg c from to amount req s0 e h))

  do_transfer-Outcome :
      (c from to amount : ℕ) (req : ExistenceRequirement) (s : State Sys)
      → (is_zero amount || from == to) ≡ false
      → (do_transfer cfg c from to amount req s).0 ≡ ok tt
      → Outcome c from to amount req
          (begun c from to amount s)
          (do_transfer cfg c from to amount req s).1
  do_transfer-Outcome c from to amount req s h done =
      rw (do_transfer-eq-steps c from to amount req s h) (
        steps-Outcome c from to amount req s
          (rw (do_transfer-eq-steps c from to amount req s h) at done))

  -- The effect of a move of free balance on every account.
  pub record HasMoved (c from to amount : ℕ) (s s' : State Sys) : Type 0 where
    pub taken : (accounts from c s').free + amount ≡ (accounts from c s).free
    pub given : (accounts to c s').free ≡ (accounts to c s).free + amount
    pub from_reserved : (accounts from c s').reserved ≡ (accounts from c s).reserved
    pub to_reserved : (accounts to c s').reserved ≡ (accounts to c s).reserved
    pub others :
        (j d : ℕ) → ((d == c && (j == from || j == to)) ≡ true) ⊎ (accounts j d s' ≡ accounts j d s)

  pub accounts-settle_away :
      (j d who c : ℕ) (existed : Bool) (a : AccountData) (s : State Sys)
      → ((d == c && j == who) ≡ true)
        ⊎ (accounts j d (settle cfg who c existed a s) ≡ accounts j d s)
  accounts-settle_away j d who c existed a s = elim (Bool-cases (d == c)) [
    | inl same ↦ elim (Bool-cases (j == who)) [
      | inl at ↦ inl (ground arith)
      | inr away ↦
          let e : d ≡ c = ground arith in
          inr (rw e (accounts-settle_ne cfg quiet j who c existed a s (ground arith)))
    ]
    | inr differ ↦ inr (accounts-settle_other cfg quiet j d who c existed a s (ground arith))
  ]

  settle_two-HasMoved :
      (c from to amount : ℕ) (x y : Bool) (t' f' : AccountData) (s : State Sys)
      → from ≢ to
      → t' ≡ record (accounts to c s) { free = (accounts to c s).free + amount }
      → f' ≡ record (accounts from c s) { free = (accounts from c s).free - amount }
      → amount ≤ (accounts from c s).free
      → HasMoved c from to amount s (settle cfg to c x t' (settle cfg from c y f' s))
  settle_two-HasMoved c from to amount x y t' f' s ne et ef le =
      let s1 = settle cfg from c y f' s in
      let sender = accounts-settle_self cfg quiet from c y f' s in
      let receiver = accounts-settle_self cfg quiet to c x t' s1 in
      let kept_sender = accounts-settle_ne cfg quiet from to c x t' s1 ne in
      record {
        taken = ground arith;
        given = ground arith;
        from_reserved = ground arith;
        to_reserved = ground arith;
        others = λ j d.
            ground (
              arith,
              accounts-settle_away j d to c x t' s1,
              accounts-settle_away j d from c y f' s,
            );
      }

  HasMoved-SameBooks :
      (c from to amount : ℕ) (s0 s s' s1 : State Sys)
      → SameBooks s0 s
      → SameBooks s' s1
      → HasMoved c from to amount s0 s1
      → HasMoved c from to amount s s'
  HasMoved-SameBooks c from to amount s0 s s' s1 before after m = record {
    taken = rw (after.accounts, ← before.accounts) m.taken;
    given = rw (after.accounts, ← before.accounts) m.given;
    from_reserved = rw (after.accounts, ← before.accounts) m.from_reserved;
    to_reserved = rw (after.accounts, ← before.accounts) m.to_reserved;
    others = λ j d. rw (after.accounts, ← before.accounts) (m.others j d);
  }

  -- With hooks that leave the storage of the pallet alone, a transfer of a positive amount between
  -- two accounts that succeeds takes exactly the amount from the free balance of the one and adds it
  -- to that of the other; their reserved balances, all other accounts and all other currencies stay.
  pub do_transfer-HasMoved :
      (c from to amount : ℕ) (req : ExistenceRequirement) (s : State Sys)
      → (is_zero amount || from == to) ≡ false
      → (do_transfer cfg c from to amount req s).0 ≡ ok tt
      → HasMoved c from to amount s (do_transfer cfg c from to amount req s).1
  do_transfer-HasMoved c from to amount req s h done =
      let s0 = begun c from to amount s in
      let (t', f', accepted, after) = do_transfer-Outcome c from to amount req s h done in
      let facts =
        move_free_ok cfg c from to amount req (accounts to c s0) (accounts from c s0) s0 t' f'
          accepted in
      HasMoved-SameBooks c from to amount s0 s _ _ (quiet.pre_transfer c from to amount s) after
        (settle_two-HasMoved c from to amount _ _ t' f' s0 (ground arith) facts.0 facts.1 facts.2)

  -- The account holds at least the existential deposit, or something and is exempt from dust removal.
  abbrev pub IsAlive : (c who : ℕ) → State Sys → Type 0
  IsAlive c who s =
      (cfg.existential_deposits c ≤ (accounts who c s).free + (accounts who c s).reserved)
      ⊎ ((0 < (accounts who c s).free + (accounts who c s).reserved)
          × (cfg.dust_removal_whitelist who ≡ true))

  pub lives-IsAlive :
      (c who : ℕ) (a : AccountData) (s : State Sys)
      → not (would_be_dead cfg c who a) ≡ true
      → (accounts who c s).free ≡ a.free
      → (accounts who c s).reserved ≡ a.reserved
      → IsAlive c who s
  unfolding would_be_dead
  lives-IsAlive c who a s h f r = ground arith

  -- With hooks that leave the storage of the pallet alone, a transfer of a positive amount between
  -- two accounts that succeeds leaves the sender at least the balance that was frozen when it began.
  pub do_transfer-frozen_le :
      (c from to amount : ℕ) (req : ExistenceRequirement) (s : State Sys)
      → (is_zero amount || from == to) ≡ false
      → (do_transfer cfg c from to amount req s).0 ≡ ok tt
      → (accounts from c s).frozen
        ≤ (accounts from c (do_transfer cfg c from to amount req s).1).free
  do_transfer-frozen_le c from to amount req s h done =
      let s0 = begun c from to amount s in
      let m = do_transfer-HasMoved c from to amount req s h done in
      let (t', f', accepted, after) = do_transfer-Outcome c from to amount req s h done in
      let checks =
        move_free_checks cfg c from to amount req (accounts to c s0) (accounts from c s0) s0 t' f'
          accepted (ground arith) in
      let before : s0.accounts ≡ s.accounts = (quiet.pre_transfer c from to amount s).accounts in
      let same : accounts from c s0 ≡ accounts from c s = rw before in
      ground (arith, same, m.taken, checks.0)

  -- With hooks that leave the storage of the pallet alone, a transfer of a positive amount between
  -- two accounts that must keep the sender alive and succeeds leaves it with at least the
  -- existential deposit, or with something in an account exempt from dust removal.
  pub do_transfer-IsAlive :
      (c from to amount : ℕ) (s : State Sys)
      → (is_zero amount || from == to) ≡ false
      → (do_transfer cfg c from to amount ExistenceRequirement.keep_alive s).0 ≡ ok tt
      → IsAlive c from (do_transfer cfg c from to amount ExistenceRequirement.keep_alive s).1
  do_transfer-IsAlive c from to amount s h done =
      let req = ExistenceRequirement.keep_alive in
      let s0 = begun c from to amount s in
      let m = do_transfer-HasMoved c from to amount req s h done in
      let (t', f', accepted, after) = do_transfer-Outcome c from to amount req s h done in
      let facts =
        move_free_ok cfg c from to amount req (accounts to c s0) (accounts from c s0) s0 t' f'
          accepted in
      let checks =
        move_free_checks cfg c from to amount req (accounts to c s0) (accounts from c s0) s0 t' f'
          accepted (ground arith) in
      let before : s0.accounts ≡ s.accounts = (quiet.pre_transfer c from to amount s).accounts in
      let same : accounts from c s0 ≡ accounts from c s = rw before in
      lives-IsAlive c from f' (do_transfer cfg c from to amount req s).1 (ground (arith, checks.2))
        (ground (arith, same, m.taken, facts.1)) (ground (arith, same, m.from_reserved, facts.1))
