-- ===== src/Search.antt =====
-- crates/gz-search: the search for better graphs.
pub mod Schedule
