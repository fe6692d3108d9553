-- ===== src/Nullifier.antt =====
-- crates/nullifier: the table of nullifiers and its snapshot.
pub mod Types
pub mod Table
pub mod Snapshot
