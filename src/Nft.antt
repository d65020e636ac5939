-- ===== src/Nft.antt =====
-- The nft pallet (nft/src/lib.rs): classes of tokens, each with one owner.
pub mod Types
pub mod Calls
pub mod Consistent
pub mod Kept
pub mod Made
pub mod Genesis
pub mod Steps
pub mod Tests
