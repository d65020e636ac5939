-- ===== src/Nft/Calls.antt =====
-- The operations of the nft pallet (nft/src/lib.rs).
use mathlib.Core.Option
use open_runtime_module_libr.Numeric.{checked_sub, checked_add}
use open_runtime_module_libr.Storage.{get, put, Map}
use open_runtime_module_libr.Effect.{ok, err, Action}
use open_runtime_module_libr.Prelude.{
  [], ◌∷◌, Option, is_zero, ◌==◌, length, leb, none, nat_eq, some, is_some, if◌then◌else◌, Bool,
  List, unwrap_or, ℕ, pair_eq,
}
use open_runtime_module_libr.Nft.Types.{triple_eq, State, Config, Error}

-- A token given to an owner, and taken from one.
abbrev pub give :
    (owner class_id token_id : ℕ) → Map (ℕ × (ℕ × ℕ)) (Unit {0}) → Map (ℕ × (ℕ × ℕ)) (Unit {0})
give owner class_id token_id m = put (owner, (class_id, token_id)) (some tt) m

abbrev pub take :
    (owner class_id token_id : ℕ) → Map (ℕ × (ℕ × ℕ)) (Unit {0}) → Map (ℕ × (ℕ × ℕ)) (Unit {0})
take owner class_id token_id m = put (owner, (class_id, token_id)) none m

module _ {ClassData TokenData : Type 0} where
  abbrev pub next_token : ℕ → State ClassData TokenData → ℕ
  next_token class_id s = unwrap_or (get class_id s.next_token_id) 0

  -- `Pallet::transfer`
  unfoldable pub transfer :
      (from to class_id token_id : ℕ) → Action (State ClassData TokenData) Error (Unit {0})
  transfer from to class_id token_id s = elim (get (class_id, token_id) s.tokens) [
    | none ↦ (err Error.token_not_found, s)
    | some info ↦
        if info.owner == from
        then (if from == to then (ok tt, s) else (
          ok tt,
          record s {
            tokens = put (class_id, token_id) (some record info { owner = to }) s.tokens;
            tokens_by_owner =
                give to class_id token_id (take from class_id token_id s.tokens_by_owner);
          },
        ))
        else (err Error.no_permission, s)
  ]

  -- `Pallet::burn`
  unfoldable pub burn :
      (owner class_id token_id : ℕ) → Action (State ClassData TokenData) Error (Unit {0})
  burn owner class_id token_id s = elim (get (class_id, token_id) s.tokens) [
    | none ↦ (err Error.token_not_found, s)
    | some t ↦
        if t.owner == owner
        then elim (get class_id s.classes) [
          | none ↦ (err Error.class_not_found, s)
          | some info ↦ elim (checked_sub info.total_issuance 1) [
            | none ↦ (err Error.overflow, s)
            | some issuance ↦ (
              ok tt,
              record s {
                classes = put class_id (some record info { total_issuance = issuance }) s.classes;
                tokens = put (class_id, token_id) none s.tokens;
                tokens_by_owner = take owner class_id token_id s.tokens_by_owner;
              },
            )
          ]
        ]
        else (err Error.no_permission, s)
  ]

  -- `Pallet::destroy_class`
  unfoldable pub destroy_class :
      (owner class_id : ℕ) → Action (State ClassData TokenData) Error (Unit {0})
  destroy_class owner class_id s = elim (get class_id s.classes) [
    | none ↦ (err Error.class_not_found, s)
    | some info ↦
        if info.owner == owner
        then (if is_zero info.total_issuance
            then (
              ok tt,
              record s {
                classes = put class_id none s.classes;
                next_token_id = put class_id none s.next_token_id;
              },
            )
            else (err Error.cannot_destroy_class, s))
        else (err Error.no_permission, s)
  ]

  -- `Pallet::is_owner`
  unfoldable pub is_owner : (account class_id token_id : ℕ) → State ClassData TokenData → Bool
  is_owner account class_id token_id s =
      is_some (get (account, (class_id, token_id)) s.tokens_by_owner)

module _ {ClassData TokenData : Type 0} (cfg : Config) where
  -- `Pallet::create_class`
  unfoldable pub create_class :
      (owner : ℕ) (metadata : List ℕ) → ClassData → Action (State ClassData TokenData) Error ℕ
  create_class owner metadata properties s =
      if leb (length metadata) cfg.max_class_metadata
      then elim (checked_add cfg.max_class_id s.next_class_id 1) [
        | none ↦ (err Error.no_available_class_id, s)
        | some next ↦ (
          ok s.next_class_id,
          record s {
            next_class_id = next;
            classes =
                put s.next_class_id
                  (some (record {
                    metadata = metadata;
                    total_issuance = 0;
                    owner = owner;
                    properties = properties;
                  }))
                  s.classes;
          },
        )
      ]
      else (err Error.max_metadata_exceeded, s)

  -- `Pallet::mint`
  unfoldable pub mint :
      (owner class_id : ℕ) (metadata : List ℕ)
      → TokenData
      → Action (State ClassData TokenData) Error ℕ
  mint owner class_id metadata properties s =
      let token_id = next_token class_id s in
      if leb (length metadata) cfg.max_token_metadata
      then elim (checked_add cfg.max_token_id token_id 1) [
        | none ↦ (err Error.no_available_token_id, s)
        | some next ↦ elim (get class_id s.classes) [
          | none ↦ (err Error.class_not_found, s)
          | some info ↦ elim (checked_add cfg.max_token_id info.total_issuance 1) [
            | none ↦ (err Error.overflow, s)
            | some issuance ↦ (
              ok token_id,
              record s {
                next_token_id = put class_id (some next) s.next_token_id;
                classes = put class_id (some record info { total_issuance = issuance }) s.classes;
                tokens =
                    put (class_id, token_id)
                      (some
                        (record { metadata = metadata; owner = owner; properties = properties }))
                      s.tokens;
                tokens_by_owner = give owner class_id token_id s.tokens_by_owner;
              },
            )
          ]
        ]
      ]
      else (err Error.max_metadata_exceeded, s)

  -- The tokens of a class in `GenesisConfig::build`: `none` where an expectation panics.
  unfoldable pub mint_all :
      (class_id : ℕ)
      → List (ℕ × (List ℕ × TokenData))
      → State ClassData TokenData
      → Option (State ClassData TokenData)
  mint_all class_id [] s = some s
  mint_all class_id ((account_id, (token_metadata, token_data)) ∷ tokens) s =
      let (r, t) = mint account_id class_id token_metadata token_data s in
      elim r [ ok _ ↦ mint_all class_id tokens t | err _ ↦ none ]

  -- `GenesisConfig::build`
  unfoldable pub build_genesis :
      List (ℕ × (List ℕ × (ClassData × List (ℕ × (List ℕ × TokenData)))))
      → State ClassData TokenData
      → Option (State ClassData TokenData)
  build_genesis [] s = some s
  build_genesis ((owner, (metadata, (properties, minted))) ∷ classes) s =
      let (r, t) = create_class owner metadata properties s in
      elim r [
        | ok class_id ↦ Option.bind (mint_all class_id minted t) (build_genesis classes)
        | err _ ↦ none
      ]
