-- ===== src/Protocol.antt =====
-- crates/rnet-protocol: logical frames and security records.
pub mod Frame
pub mod Control
