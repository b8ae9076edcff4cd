-- ===== src/Daemon.antt =====
-- The daemon (internal/daemon): the event deriver and the fan-out of its events.
pub mod Deriver
pub mod Bus
pub mod Loop
