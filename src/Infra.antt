-- ===== src/Infra.antt =====
-- internal/infra: the links and bridges that container runtimes and hypervisors leave on a host.
pub mod Classify
pub mod Networks
pub mod Docker
pub mod Neighbours
