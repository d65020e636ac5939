-- ===== src/Tokens/Books.antt =====
-- The books of the tokens pallet (tokens/src/lib.rs): what all accounts hold of a currency against
-- its total issuance, and hooks that leave the storage of the pallet alone.
pub mod Settle
pub mod Transfer
pub mod Supply
pub mod Deposit
pub mod Reserves
pub mod Unreserve
pub mod Repatriate
pub mod Slash
pub mod SlashReserved
pub mod Imbalances
pub mod Offsets
pub mod RoundTrip
pub mod SetBalance
pub mod Genesis
use open_runtime_module_libr.Prelude.{
  ap, ℕ, ◌+◌, ◌≤◌, ◌<◌, ◌≡◌, if◌then◌else◌, ◌==◌, nat_eq, refl, ◌∙◌,
}
use open_runtime_module_libr.Storage.Sum.{total_of}
use open_runtime_module_libr.Tokens.Types.{AccountData, State, Config}
use open_runtime_module_libr.Tokens.Account.{total_issuance}

-- What an account adds to the holdings of a currency.
abbrev pub holding : ℕ → ℕ × ℕ → AccountData → ℕ
holding currency_id (who, c) account =
    if c == currency_id then account.free + account.reserved else 0

-- The free and reserved balances of all accounts in a currency.
abbrev pub held : {Sys : Type 0} → ℕ → State Sys → ℕ
held currency_id s = total_of (holding currency_id) s.accounts

-- Two states with the same accounts, issuance, locks and named reserves.
pub record SameBooks {Sys : Type 0} (s t : State Sys) : Type 0 where
  pub accounts : s.accounts ≡ t.accounts
  pub total_issuance : s.total_issuance ≡ t.total_issuance
  pub locks : s.locks ≡ t.locks
  pub reserves : s.reserves ≡ t.reserves

pub SameBooks-refl : {Sys : Type 0} (s : State Sys) → SameBooks s s
SameBooks-refl s = record { accounts = refl; total_issuance = refl; locks = refl; reserves = refl }

pub SameBooks-trans :
    {Sys : Type 0} {s t u : State Sys} → SameBooks s t → SameBooks t u → SameBooks s u
SameBooks-trans h k = record {
  accounts = h.accounts ∙ k.accounts;
  total_issuance = h.total_issuance ∙ k.total_issuance;
  locks = h.locks ∙ k.locks;
  reserves = h.reserves ∙ k.reserves;
}

-- Events and the counts of `frame_system` are no part of the books.
pub SameBooks-of_fields :
    {Sys : Type 0} (s t : State Sys)
    → s.accounts ≡ t.accounts
    → s.total_issuance ≡ t.total_issuance
    → s.locks ≡ t.locks
    → s.reserves ≡ t.reserves
    → SameBooks s t
SameBooks-of_fields s t a i l r = record {
  accounts = a;
  total_issuance = i;
  locks = l;
  reserves = r;
}

-- Neither the holdings of a currency nor any total issuance differ.
abbrev pub SameTotals : {Sys : Type 0} → ℕ → State Sys → State Sys → Type 0
SameTotals d s t = (held d s ≡ held d t) × (s.total_issuance ≡ t.total_issuance)

pub SameBooks-SameTotals :
    {Sys : Type 0} (d : ℕ) {s t : State Sys} → SameBooks s t → SameTotals d s t
SameBooks-SameTotals d b = (ap (total_of (holding d)) b.accounts, b.total_issuance)

-- Every balance is backed: the holdings are the total issuance, a value of the balance type.
pub record IsBacked {Sys : Type 0} (cfg : Config Sys) (currency_id : ℕ) (s : State Sys)
    : Type 0 where
  pub backed : held currency_id s ≡ total_issuance currency_id s
  pub bounded : total_issuance currency_id s ≤ cfg.max_value

-- A runtime whose hooks do not write to the storage of the pallet, as those of `()` do not.
pub record HasQuietHooks {Sys : Type 0} (cfg : Config Sys) : Type 0 where
  pub max_value_pos : 0 < cfg.max_value
  pub on_dust : (who c a : ℕ) (s : State Sys) → SameBooks (cfg.on_dust who c a s) s
  pub on_slash : (c who a : ℕ) (s : State Sys) → SameBooks (cfg.on_slash c who a s) s
  pub pre_deposit : (c who a : ℕ) (s : State Sys) → SameBooks (cfg.pre_deposit c who a s).1 s
  pub post_deposit : (c who a : ℕ) (s : State Sys) → SameBooks (cfg.post_deposit c who a s).1 s
  pub pre_transfer :
      (c from to a : ℕ) (s : State Sys) → SameBooks (cfg.pre_transfer c from to a s).1 s
  pub post_transfer :
      (c from to a : ℕ) (s : State Sys) → SameBooks (cfg.post_transfer c from to a s).1 s
  pub on_new : (who c : ℕ) (s : State Sys) → SameBooks (cfg.on_new_token_account who c s) s
  pub on_killed : (who c : ℕ) (s : State Sys) → SameBooks (cfg.on_killed_token_account who c s) s

pub SameTotals-IsBacked :
    {Sys : Type 0} (cfg : Config Sys) (d : ℕ) (s t : State Sys)
    → SameTotals d s t
    → IsBacked cfg d t
    → IsBacked cfg d s
SameTotals-IsBacked cfg d s t h b = record {
  backed = rw (h.0, h.1) b.backed;
  bounded = rw (h.1) b.bounded;
}
