-- ===== src/Core.antt =====
-- The domain model (internal/core): events, the connection status, VPNs, links, errors.
pub mod Event
pub mod Device
pub mod Status
pub mod Vpn
pub mod Monitor
pub mod Errors
pub mod Secrets
