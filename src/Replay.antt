-- ===== src/Replay.antt =====
-- crates/gz-replay: the store of finished episodes.
pub mod Keys
