-- ===== src/Oracle.antt =====
-- The oracle pallet (oracle/src/lib.rs, oracle/src/default_combine_data.rs): operators feed values, and
-- the raw values of a key are combined into one.
pub mod Types
pub mod Combine
pub mod Calls
pub mod Median
pub mod Blocks
pub mod Feeds
pub mod Tests
