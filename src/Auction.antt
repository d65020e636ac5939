-- ===== src/Auction.antt =====
-- The auction pallet (auction/src/lib.rs): auctions that take rising bids until a block closes them.
pub mod Types
pub mod Calls
pub mod Index
pub mod Bids
pub mod Closing
pub mod Steps
pub mod Tests
