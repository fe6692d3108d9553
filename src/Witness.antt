-- ===== src/Witness.antt =====
-- The witness crate: the note commitment tree, and what is computed from it.
pub mod Types
pub mod Position
pub mod Merkle
pub mod Hashing
pub mod Tree
pub mod Snapshot
pub mod Roots
pub mod Build
