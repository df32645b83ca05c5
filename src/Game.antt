-- ===== src/Game.antt =====
-- The rnet-game crate: the game layer on top of the transports.
pub mod Admission
pub mod Envelope
pub mod Quality
pub mod Heartbeat
pub mod Scheduler
pub mod ClockSync
pub mod Realtime
pub mod Join
