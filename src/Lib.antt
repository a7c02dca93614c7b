-- ===== src/Lib.antt =====
-- Verification library of graphzero, a Rust workspace that searches for better computation graphs
-- with a learned policy and measures the candidates on a fleet of devices.
--
-- What is modelled:
--   * MeasureService (crates/gz-measure-service): the coordinator that queues measurement jobs,
--     offers them to agents under leases and commits one report for each. A job is submitted by a
--     search process; an agent connects, reports free slots, accepts or rejects offers, fetches the
--     job's artifacts, sends heartbeats, and submits a report. A lease that runs out, a session that
--     ends or a rejection sends the job back to the queue.
--       MeasureService/Protocol.antt: the wire types of proto/measure.proto and src/protocol.rs.
--       MeasureService/Receipts.antt: src/receipt.rs, which reports are committed.
--       MeasureService/Coordinator.antt: the state of src/coordinator.rs, with its operations in
--       Coordinator/Artifacts (retain_artifacts, release_artifact), Sessions (expire_leases,
--       requeue_active, remove_agent_session, cancel_job, drain_agents), Schedule (schedule,
--       agent_matches, lease_command), Validate (the checks of configurations, submissions, leases
--       and reports), Handlers (enqueue, reap_expired, disconnect, handle_agent_event), Connect
--       (connect, validate_hello, reconcile_recoveries) and Results (fetch_artifact, submit_result).
--       Coordinator/View and Coordinator/Invariant hold the agreement of queue, jobs and agents,
--       Coordinator/Ledger the agreement of jobs and receipts, Coordinator/Storage that of jobs and
--       stored artifacts, Coordinator/DataPlane, Reporting and Resubmission what an agent is given and
--       told.
--   * Orchestrator (crates/gz-orchestrator): Orchestrator/Leases.antt models src/leases.rs, the
--     registry of resident model generations and the leases that episodes hold on them. World is the
--     registry with all lanes, and an interleaving of lanes and batcher is a sequence of operations. Safety leaves out that a
--     generation is published while it waits for its release; Republish shows what happens then.
--   * EvalService (crates/gz-eval-service): EvalService/Frames.antt models src/frames.rs, the
--     length-prefixed frames between orchestrator and evaluator with the buffers that both sides
--     reuse, EvalService/Hello.antt the bodies of src/hello.rs. RoundTrip and Handshake relate
--     writing and reading.
--   * Replay (crates/gz-replay): Replay/Keys.antt models src/keys.rs, the keys of stored episodes.
--   * Search (crates/gz-search): Search/Schedule.antt models the visit schedule of
--     src/gumbel/schedule.rs.
--   * Whittle (crates/gz-engine-whittle): Whittle/Graph.antt and Whittle/Artifact.antt model src/graph.rs,
--     graphs of Boolean gates with their validation, compaction and serialized form. RuleTable, Rules,
--     Candidates and Builder of Whittle/ model src/rules.rs: the rewrite rules, their application, the
--     requests that the enumeration makes for each node, and the builder that collects candidates.
--     Graph/Meaning.antt says what a graph computes. Rewrite, Enumerate, Listing and Acyclic hold the
--     theorems on rewrites.
-- Base holds what they share: Boolean tests, lists, association lists, results and bytes.
--
-- How code becomes a definition:
--   * The coordinator and the registry keep their state behind a mutex that is held for a whole
--     operation, so an operation is a function on the state. Concurrent calls are steps in any order.
--   * Ids, keys and hashes are natural numbers. A bytes field that should hold an id is an optional
--     number: none stands for every value of the wrong width.
--   * Maps are association lists, a BTreeMap one in key order. Times are numbers of one clock. Sums
--     that the code checks against usize or u32 are compared with the bound; a cast to u32 and the
--     u32 visit counts of the schedule wrap as in a release build.
--   * What an operation reads from the clock or draws at random is its argument, so a theorem holds
--     for all values of it.
--   * Hashes (blake3), tonic statuses, certificates and tokio channels are not modelled: hashes are
--     functions that a theorem takes, and a command channel is an instance of CommandChannel, whose
--     try_send may fail at any time.
--   * Text fields of a device profile stand as their lengths, rewards of a report as whether they are
--     finite, and telemetry as the number of its samples: no more of them is looked at.
--
-- Fuel: the scheduler's loop runs on fuel, the number of slots that agents report free. Each round
-- takes one of them, or ends a session that has one, and schedule_settles proves that the loop ends
-- by its own test. The stream of chunks runs on the length of the bytes; a chunk takes at least one.
-- The visit schedule runs on the number of simulations; each round of it adds an entry.
-- The marking of a graph's nodes runs on one more than twice their number: each round takes a node off
-- the stack, and a node puts two on it at most once. compact_graph_total proves that this is enough:
-- to run out of fuel is an error that the source does not have.
--
-- Not modelled: the agent's own process and its disk, the log file of the receipts at start, the
-- search trees and the replay store, the feature encoders, the compiler engine, the command line tools and
-- the Python trainer. PROJECT.json lists them.
pub mod Base
pub mod EvalService
pub mod MeasureService
pub mod Orchestrator
pub mod Replay
pub mod Search
pub mod Whittle
mod Tests
