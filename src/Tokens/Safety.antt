-- ===== src/Tokens/Safety.antt =====
-- About what the calls of the tokens pallet leave in accounts and locks (tokens/src/lib.rs).
pub mod Transfer
pub mod Reducible
pub mod Locks
pub mod Frozen
pub mod LockCalls
pub mod Inspect
