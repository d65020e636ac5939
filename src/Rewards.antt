-- ===== src/Rewards.antt =====
-- The rewards pallet (rewards/src/lib.rs): pools of shares, and rewards in proportion to them.
pub mod Types
pub mod Amounts
pub mod Shares
pub mod Balanced
pub mod Claims
pub mod Removal
pub mod Moves
pub mod Steps
pub mod Payouts
pub mod Tests
