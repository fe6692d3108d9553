-- ===== src/Ingest.antt =====
-- crates/server/src/ingest: compact blocks from lightwalletd, their validation, and the events
-- that reach the servers.
pub mod Block
pub mod Range
pub mod Sync
pub mod Follow
pub mod Ironwood
pub mod Commitment
