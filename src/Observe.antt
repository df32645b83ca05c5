-- ===== src/Observe.antt =====
-- The rnet-observe crate: the latency histogram.
pub mod Latency
