-- ===== src/Tests.antt =====
-- Runs of the model, and the theorems at concrete inputs.
mod Toy
mod Chain
mod Sync
mod Prepare
mod Tree
mod Snapshot
mod Table
mod P2p
mod Wallet
