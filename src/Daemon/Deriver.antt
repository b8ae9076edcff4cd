-- ===== src/Daemon/Deriver.antt =====
-- internal/daemon/derive.go: the state machine that turns successive views of the world into events.
pub mod State
pub mod Events
pub mod Machine
pub mod Replay
pub mod Follow
pub mod Trace
pub mod Sound
pub mod Roam
pub mod Deadline
pub mod Drop
