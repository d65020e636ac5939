-- ===== src/Tokens.antt =====
-- The tokens pallet (tokens/src): its storage and configuration, its operations on
-- accounts, locks and reserves, and the traits it implements for other pallets.
pub mod Types
pub mod Monad
pub mod Account
pub mod Transfer
pub mod Currency
pub mod Locks
pub mod Reserves
pub mod Named
pub mod Fungibles
pub mod Hold
pub mod Calls
pub mod Imbalances
pub mod Adapter
pub mod Books
pub mod Safety
pub mod Ordered
mod Tests
