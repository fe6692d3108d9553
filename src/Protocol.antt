-- ===== src/Protocol.antt =====
-- crates/protocol: the messages and frames that client and server share.
pub mod Types
pub mod Message
pub mod Decoder
