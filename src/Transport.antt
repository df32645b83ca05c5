-- ===== src/Transport.antt =====
-- The rnet-transport crate.
pub mod RecordReader
