-- ===== src/Nm.antt =====
-- The NetworkManager client (internal/nm): values, settings, errors and the secret agent.
pub mod Texts
pub mod Variant
pub mod Consts
pub mod Errors
pub mod Mapping
pub mod Reasons
pub mod Settings
pub mod Request
pub mod Reply
pub mod Agent
