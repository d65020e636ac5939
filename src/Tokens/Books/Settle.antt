-- ===== src/Tokens/Books/Settle.antt =====
-- What `try_mutate_account` writes once the change is accepted (tokens/src/lib.rs).
use open_runtime_module_libr.Storage.Laws.{get-put}
use open_runtime_module_libr.Prelude.{
  ◌≢◌, ◌≢◌, ℕ, ◌+◌, ◌≡◌, refl, Bool, true, false, Option, none, some, arith, nat_eq, pair_eq, ◌∙◌,
  ap,
}
use open_runtime_module_libr.Storage.{get, put}
use open_runtime_module_libr.Storage.Sum.{weigh, total_of-put}
use open_runtime_module_libr.Tokens.Types.{AccountData, State, Config}
use open_runtime_module_libr.Tokens.Account.{
  accounts, kept, dust_of, track_existence, report_endowed, handle_dust, settle,
}
use open_runtime_module_libr.Tokens.Books.{
  holding, held, SameBooks, SameBooks-refl, SameBooks-trans, SameBooks-of_fields, HasQuietHooks,
}

module _ {Sys : Type 0} where
  -- The weight of an entry, read through the getter.
  pub weigh-accounts :
      (d who c : ℕ) (s : State Sys)
      → weigh (holding d) (who, c) (get (who, c) s.accounts) ≡ holding d (who, c) (accounts who c s)
  weigh-accounts d who c s = ground arith

module _ {Sys : Type 0} (cfg : Config Sys) (quiet : HasQuietHooks cfg) where
  -- A reaped account held nothing.
  kept-holding :
      (d who c : ℕ) (account : AccountData)
      → weigh (holding d) (who, c) (kept cfg c account) ≡ holding d (who, c) account
  unfolding kept
  kept-holding d who c account = ground (arith, quiet.max_value_pos)

  track_existence-SameBooks :
      (who c : ℕ) (existed exists : Bool) (s : State Sys)
      → SameBooks (track_existence cfg who c existed exists s) s
  unfolding track_existence
  track_existence-SameBooks who c true true s = SameBooks-refl s
  track_existence-SameBooks who c true false s =
      SameBooks-trans (quiet.on_killed who c (record s { system = cfg.dec_providers who s.system }))
        (SameBooks-of_fields _ s refl refl refl refl)
  track_existence-SameBooks who c false true s =
      SameBooks-trans (quiet.on_new who c (record s { system = cfg.inc_providers who s.system }))
        (SameBooks-of_fields _ s refl refl refl refl)
  track_existence-SameBooks who c false false s = SameBooks-refl s

  report_endowed-SameBooks :
      (who c : ℕ) (existed : Bool) (a : AccountData) (s : State Sys)
      → SameBooks (report_endowed cfg who c existed a s) s
  unfolding report_endowed
  report_endowed-SameBooks who c true a s = SameBooks-refl s
  report_endowed-SameBooks who c false a s = SameBooks-of_fields _ s refl refl refl refl

  handle_dust-SameBooks :
      (who c : ℕ) (dust : Option ℕ) (s : State Sys) → SameBooks (handle_dust cfg who c dust s) s
  unfolding handle_dust
  handle_dust-SameBooks who c none s = SameBooks-refl s
  handle_dust-SameBooks who c (some dust) s =
      SameBooks-trans (SameBooks-of_fields _ (cfg.on_dust who c dust s) refl refl refl refl)
        (quiet.on_dust who c dust s)

  -- The books after `settle`: one account is written.
  pub settle-SameBooks :
      (who c : ℕ) (existed : Bool) (a : AccountData) (s : State Sys)
      → SameBooks
          (settle cfg who c existed a s)
          (record s { accounts = put (who, c) (kept cfg c a) s.accounts })
  unfolding settle
  settle-SameBooks who c existed a s =
      SameBooks-trans (handle_dust-SameBooks who c (dust_of cfg who c a) _) (
        SameBooks-trans (report_endowed-SameBooks who c existed a _)
          (track_existence-SameBooks who c existed _ _))

  -- The change of the holdings: those of the account as found give way to those of the changed one.
  pub held-settle :
      (d who c : ℕ) (existed : Bool) (a : AccountData) (s : State Sys)
      → held d (settle cfg who c existed a s) + holding d (who, c) (accounts who c s)
        ≡ held d s + holding d (who, c) a
  held-settle d who c existed a s =
      rw ((settle-SameBooks who c existed a s).accounts, ← weigh-accounts d who c s)
        (total_of-put (holding d) (who, c) (kept cfg c a) s.accounts
          ∙ ap (◌+◌ (held d s)) (kept-holding d who c a))

  -- Another account reads as before.
  pub accounts-settle_ne :
      (j who c : ℕ) (existed : Bool) (a : AccountData) (s : State Sys)
      → j ≢ who
      → accounts j c (settle cfg who c existed a s) ≡ accounts j c s
  accounts-settle_ne j who c existed a s ne =
      rw
        (
          (settle-SameBooks who c existed a s).accounts,
          get-put (j, c) (who, c) (kept cfg c a) s.accounts,
        )
        (ground arith)

  -- So does every account in another currency.
  pub accounts-settle_other :
      (j d who c : ℕ) (existed : Bool) (a : AccountData) (s : State Sys)
      → d ≢ c
      → accounts j d (settle cfg who c existed a s) ≡ accounts j d s
  accounts-settle_other j d who c existed a s ne =
      rw
        (
          (settle-SameBooks who c existed a s).accounts,
          get-put (j, d) (who, c) (kept cfg c a) s.accounts,
        )
        (ground arith)

  -- The changed account reads as the closure left it; a reaped one reads as empty, which it was.
  pub accounts-settle_self :
      (who c : ℕ) (existed : Bool) (a : AccountData) (s : State Sys)
      → let b = accounts who c (settle cfg who c existed a s) in
        (b.free ≡ a.free) × (b.reserved ≡ a.reserved)
  unfolding kept
  accounts-settle_self who c existed a s =
      rw
        (
          (settle-SameBooks who c existed a s).accounts,
          get-put (who, c) (who, c) (kept cfg c a) s.accounts,
        )
        (ground (arith, quiet.max_value_pos))
