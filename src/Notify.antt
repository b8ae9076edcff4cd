-- ===== src/Notify.antt =====
-- Desktop notifications (internal/notify): which events pass, and how they are delivered.
pub mod RateKey
pub mod Policy
pub mod Filter
pub mod Desktop
pub mod Trace
pub mod Spaced
pub mod Arrivals
pub mod Spacing
pub mod Timers
pub mod Waiting
pub mod Debounce
pub mod HeldOnce
pub mod Notable
