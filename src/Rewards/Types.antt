-- ===== src/Rewards/Types.antt =====
-- Data of the rewards pallet (rewards/src/lib.rs). The handler that pays rewards is code of the runtime:
-- its state is `H`, apart from the storage of the pallet.
use open_runtime_module_libr.BTreeMap.{BTreeMap}
use open_runtime_module_libr.Prelude.{ℕ, []}
use open_runtime_module_libr.Storage.{Map}

pub record PoolInfo : Type 0 where
  pub total_shares : ℕ
  pub rewards : BTreeMap (ℕ × ℕ)

abbrev pub default_pool : PoolInfo
default_pool = record { total_shares = 0; rewards = [] }

abbrev pub ShareInfo : Type 0
ShareInfo = ℕ × BTreeMap ℕ

pub data Error : Type 0 where
  pool_does_not_exist share_does_not_exist can_split_only_less_than_share : Error

pub record State (H : Type 0) : Type 0 where
  pub pool_infos : Map ℕ PoolInfo
  pub shares_and_withdrawn_rewards : Map (ℕ × ℕ) ShareInfo
  pub handler : H

pub record Config (H : Type 0) : Type 0 where
  pub max_share : ℕ
  pub max_balance : ℕ
  pub max_u128 : ℕ
  pub payout : (who pool currency_id amount : ℕ) → H → H
