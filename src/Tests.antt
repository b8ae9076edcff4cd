-- ===== src/Tests.antt =====
-- Runs at concrete inputs.
mod Notify
mod Daemon
mod Loop
mod Monitor
mod Rounds
mod Vpn
mod Errors
mod Cli
mod Infra
mod Stream
mod Nm
mod Settings
