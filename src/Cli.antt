-- ===== src/Cli.antt =====
-- internal/cli: what the command line prints, and how it finds what an argument names.
pub mod Safe
pub mod Resolve
