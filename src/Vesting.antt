-- ===== src/Vesting.antt =====
-- The vesting pallet (vesting/src/lib.rs): schedules that release a locked balance over time.
pub mod Types
pub mod Schedule
pub mod Calls
pub mod Amounts
pub mod Lists
pub mod Covered
pub mod Claims
pub mod Transfers
pub mod Updates
pub mod Dispatched
pub mod Steps
pub mod Tests
