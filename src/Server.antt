-- ===== src/Server.antt =====
-- crates/server.
pub mod P2p
pub mod TreeSync
pub mod TableSync
