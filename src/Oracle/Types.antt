-- ===== src/Oracle/Types.antt =====
-- Data of the oracle pallet (oracle/src/lib.rs). The hook on new data is code of the runtime: its state
-- is `H`, apart from the storage of the pallet. Values are natural numbers, as their order is all that
-- the code uses.
use open_runtime_module_libr.Prelude.{Option, List, ℕ}
use open_runtime_module_libr.Storage.{Map}

pub record TimestampedValue : Type 0 where
  pub value : ℕ
  pub timestamp : ℕ

pub data Error : Type 0 where
  no_permission already_feeded : Error
  foreign : ℕ → Error

pub data Event : Type 0 where
  new_feed_data : (sender : ℕ) (values : List (ℕ × ℕ)) → Event

-- `members` and `now` are what `T::Members` and `T::Time` answer.
pub record State (H : Type 0) : Type 0 where
  pub raw_values : Map (ℕ × ℕ) TimestampedValue
  pub values : Map ℕ TimestampedValue
  pub has_dispatched : List ℕ
  pub members : List ℕ
  pub now : ℕ
  pub events : List Event
  pub handler : H

pub record Config (H : Type 0) : Type 0 where
  pub root_operator_account_id : ℕ
  pub max_has_dispatched_size : ℕ
  pub combine_data :
      (now key : ℕ)
      → List TimestampedValue
      → (prev_value : Option TimestampedValue) → Option TimestampedValue
  pub on_new_data : (who key value : ℕ) → H → H
