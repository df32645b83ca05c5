-- ===== src/Security.antt =====
-- The rnet-security crate: the server-led transitions of mode and keys, and the datagram transport.
pub mod Transition
pub mod Replay
pub mod Datagram
