-- ===== src/Vpn/WireGuard.antt =====
-- internal/vpn/wireguard/parse.go: the import of wg-quick files.
pub mod Text
pub mod Spec
pub mod Lines
pub mod Conf
pub mod Values
pub mod Keys
pub mod Valid
pub mod Defaults
pub mod Routes
