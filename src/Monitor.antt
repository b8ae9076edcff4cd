-- ===== src/Monitor.antt =====
-- Connection quality (internal/monitor): the baseline engine.
pub mod Floats
pub mod Config
pub mod Stats
pub mod Anchor
pub mod Engine
pub mod Steady
pub mod Streaks
pub mod Verdicts
pub mod Transitions
pub mod Load
pub mod Loaded
pub mod Restored
pub mod Events
pub mod Rounds
pub mod Warm
pub mod Life
pub mod Reports
pub mod Noticed
