-- ===== src/Nm/Settings.antt =====
-- Connection settings (internal/nm/settings.go).
pub mod Ip
pub mod RoundTrip
pub mod Written
pub mod Decoded
pub mod Profile
pub mod Created
pub mod Imported
