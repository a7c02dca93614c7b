-- ===== src/Whittle.antt =====
-- crates/gz-engine-whittle: graphs of Boolean gates and the rewrites that the search applies.
pub mod Graph
pub mod Artifact
pub mod RuleTable
pub mod Rules
pub mod Candidates
pub mod Builder
pub mod Rewrite
pub mod Enumerate
pub mod Listing
pub mod Acyclic
