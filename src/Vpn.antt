-- ===== src/Vpn.antt =====
-- The VPN backends (internal/vpn).
pub mod Registry
pub mod WireGuard
