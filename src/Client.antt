-- ===== src/Client.antt =====
-- The client crate: what a wallet does with the answers of a server.
pub mod Reconstruct
pub mod Served
pub mod P2p
pub mod Spend
pub mod Window
