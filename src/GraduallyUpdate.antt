-- ===== src/GraduallyUpdate.antt =====
-- The gradually-update pallet (gradually-update/src/lib.rs): stored values that move to a target step by
-- step.
pub mod Types
pub mod Bytes
pub mod Calls
pub mod Progress
pub mod Values
pub mod Tests
