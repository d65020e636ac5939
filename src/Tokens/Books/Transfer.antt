-- ===== src/Tokens/Books/Transfer.antt =====
-- About transfers and the books (`do_transfer` of tokens/src/lib.rs).
use open_runtime_module_libr.Tokens.Books.Settle.{settle-SameBooks, accounts-settle_ne, held-settle}
use open_runtime_module_libr.Storage.{get}
use open_runtime_module_libr.Tokens.Account.{accounts, settle, try_mutate_account}
use open_runtime_module_libr.Tokens.Books.{SameBooks-SameTotals, SameTotals, held, HasQuietHooks}
use open_runtime_module_libr.Prelude.{
  ◌∙◌, inr, refl, inl, ◌==◌, ◌||◌, ◌||◌, is_zero, Bool-cases, sym, ◌≢◌, is_some, Bool, ℕ, ◌+◌, ◌-◌,
  ◌≤◌, ◌≡◌, arith, nat_eq, pair_eq,
}
use open_runtime_module_libr.Tokens.Types.{
  Result, err, DispatchError, AccountData, State, Config, ok, ExistenceRequirement,
}
use open_runtime_module_libr.Tokens.Transfer.{do_transfer, move_between, move_free}

module _ {Sys : Type 0} (cfg : Config Sys) where
  -- What the accepted closure of `do_transfer` makes of the two accounts.
  pub move_free_ok :
      (c from to amount : ℕ) (req : ExistenceRequirement) (t f : AccountData) (s : State Sys)
      (t' f' : AccountData)
      → move_free cfg c from to amount req t f s ≡ ok (t', f')
      → (t' ≡ record t { free = t.free + amount })
        × (f' ≡ record f { free = f.free - amount })
        × (amount ≤ f.free)
        × (t.free + amount ≤ cfg.max_value)
  unfolding move_free
  move_free_ok c from to amount req t f s t' f' h = ground arith

  abbrev pub existed_in : ℕ → ℕ → State Sys → Bool
  existed_in who c s = is_some (get (who, c) s.accounts)

  -- The accepted move: the sender is settled first, then the receiver.
  pub move_between_ok :
      (c from to amount : ℕ) (req : ExistenceRequirement) (s : State Sys) (t' f' : AccountData)
      → move_free cfg c from to amount req (accounts to c s) (accounts from c s) s ≡ ok (t', f')
      → (move_between cfg c from to amount req s).1
        ≡ settle cfg to c (existed_in to c s) t' (settle cfg from c (existed_in from c s) f' s)
  unfolding move_between try_mutate_account
  move_between_ok c from to amount req s t' f' h = ground arith

  pub move_between_err :
      (c from to amount : ℕ) (req : ExistenceRequirement) (s : State Sys) (e : DispatchError)
      → move_free cfg c from to amount req (accounts to c s) (accounts from c s) s ≡ err e
      → move_between cfg c from to amount req s ≡ (err e, s)
  unfolding move_between try_mutate_account
  move_between_err c from to amount req s e h = ground arith

module _ {Sys : Type 0} (cfg : Config Sys) (quiet : HasQuietHooks cfg) where
  held-settle_two :
      (d c from to amount : ℕ) (x y : Bool) (t' f' : AccountData) (s : State Sys)
      → from ≢ to
      → t' ≡ record (accounts to c s) { free = (accounts to c s).free + amount }
      → f' ≡ record (accounts from c s) { free = (accounts from c s).free - amount }
      → amount ≤ (accounts from c s).free
      → held d (settle cfg to c x t' (settle cfg from c y f' s)) ≡ held d s
  held-settle_two d c from to amount x y t' f' s ne et ef le = ground (
    arith,
    held-settle cfg quiet d from c y f' s,
    held-settle cfg quiet d to c x t' (settle cfg from c y f' s),
    accounts-settle_ne cfg quiet to from c y f' s (λ e. ne (sym e)),
  )

  settle_two-SameTotals :
      (d c from to amount : ℕ) (x y : Bool) (t' f' : AccountData) (s : State Sys)
      → from ≢ to
      → t' ≡ record (accounts to c s) { free = (accounts to c s).free + amount }
      → f' ≡ record (accounts from c s) { free = (accounts from c s).free - amount }
      → amount ≤ (accounts from c s).free
      → SameTotals d (settle cfg to c x t' (settle cfg from c y f' s)) s
  settle_two-SameTotals d c from to amount x y t' f' s ne et ef le = (
    held-settle_two d c from to amount x y t' f' s ne et ef le,
    (settle-SameBooks cfg quiet to c x t' (settle cfg from c y f' s)).total_issuance
        ∙ (settle-SameBooks cfg quiet from c y f' s).total_issuance,
  )

  move_between-SameTotals :
      (d c from to amount : ℕ) (req : ExistenceRequirement) (s : State Sys)
      → from ≢ to
      → SameTotals d (move_between cfg c from to amount req s).1 s
  move_between-SameTotals d c from to amount req s ne =
      go (move_free cfg c from to amount req (accounts to c s) (accounts from c s) s) refl
    where
      go :
          (r : Result (AccountData × AccountData))
          → move_free cfg c from to amount req (accounts to c s) (accounts from c s) s ≡ r
          → SameTotals d (move_between cfg c from to amount req s).1 s
      go (ok (t', f')) h =
          let facts =
            move_free_ok cfg c from to amount req (accounts to c s) (accounts from c s) s t' f' h in
          rw (move_between_ok cfg c from to amount req s t' f' h)
            (settle_two-SameTotals d c from to amount _ _ t' f' s ne facts.0 facts.1 facts.2)
      go (err e) h = rw (move_between_err cfg c from to amount req s e h) (refl, refl)

  -- With hooks that leave the storage of the pallet alone, a transfer changes, whatever its outcome,
  -- no total issuance and in no currency the sum of all free and reserved balances.
  pub do_transfer-SameTotals :
      (d c from to amount : ℕ) (req : ExistenceRequirement) (s : State Sys)
      → SameTotals d (do_transfer cfg c from to amount req s).1 s
  unfolding do_transfer
  do_transfer-SameTotals d c from to amount req s =
      elim (Bool-cases (is_zero amount || from == to)) [
        | inl nothing ↦ rw nothing (refl, refl)
        | inr moves ↦
            let s0 = (cfg.pre_transfer c from to amount s).1 in
            let s1 = (move_between cfg c from to amount req s0).1 in
            rw moves (
              ground (
                arith,
                SameBooks-SameTotals d (quiet.pre_transfer c from to amount s),
                move_between-SameTotals d c from to amount req s0 (ground arith),
                SameBooks-SameTotals d (quiet.post_transfer c from to amount s1),
              ))
      ]
