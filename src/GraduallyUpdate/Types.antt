-- ===== src/GraduallyUpdate/Types.antt =====
-- Data of the gradually-update pallet (gradually-update/src/lib.rs). A storage key stands for its bytes,
-- which are only compared; a value is the list of its bytes.
use open_runtime_module_libr.Prelude.{List, ℕ}
use open_runtime_module_libr.Storage.{Map}

pub record GraduallyUpdate : Type 0 where
  pub key : ℕ
  pub target_value : List ℕ
  pub per_block : List ℕ

-- `panicked` stands for the `unwrap` of `gradually_update`, and `foreign` for the errors of others.
pub data Error : Type 0 where
  invalid_per_block_or_target_value invalid_target_value gradually_update_has_existed : Error
  gradually_update_not_found max_gradually_update_exceeded : Error
  panicked : Error
  foreign : ℕ → Error

pub data Event : Type 0 where
  gradually_update_added : (key : ℕ) (per_block target_value : List ℕ) → Event
  gradually_update_cancelled : (key : ℕ) → Event
  updated : (block_number key : ℕ) (target_value : List ℕ) → Event

-- A raw value of the storage: the bytes that it decodes to, or one that does not decode as bytes.
pub data RawValue : Type 0 where
  decoded : List ℕ → RawValue
  undecodable : RawValue

pub record State : Type 0 where
  pub gradually_updates : List GraduallyUpdate
  pub last_updated_at : ℕ
  pub storage : Map ℕ RawValue
  pub events : List Event

pub record Config : Type 0 where
  pub update_frequency : ℕ
  pub max_gradually_update : ℕ
  pub max_block : ℕ
  pub max_u128 : ℕ
