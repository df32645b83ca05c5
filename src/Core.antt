-- ===== src/Core.antt =====
-- crates/rnet-core: handles, buffers, the event queue and the lifecycle of a runtime.
pub mod Handle
pub mod EventQueue
pub mod Lifecycle
pub mod Buffer
