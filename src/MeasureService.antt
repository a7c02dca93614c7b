-- ===== src/MeasureService.antt =====
-- crates/gz-measure-service: the coordinator that leases measurement jobs to device agents.
pub mod Protocol
pub mod Receipts
pub mod Coordinator
