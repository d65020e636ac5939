-- ===== src/Tokens/Ordered.antt =====
-- About the lists of named reserves of the tokens pallet (tokens/src/lib.rs).
pub mod Entries
pub mod Reserve
