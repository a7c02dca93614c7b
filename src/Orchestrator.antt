-- ===== src/Orchestrator.antt =====
-- crates/gz-orchestrator: the execution drivers for search workers.
pub mod Leases
