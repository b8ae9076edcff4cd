-- ===== src/Stream.antt =====
-- The event stream between the daemon and its clients.
pub mod Sse
pub mod RoundTrip
