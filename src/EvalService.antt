-- ===== src/EvalService.antt =====
-- crates/gz-eval-service: the protocol between the orchestrator and the evaluator process.
pub mod Frames
pub mod RoundTrip
pub mod Hello
pub mod Handshake
