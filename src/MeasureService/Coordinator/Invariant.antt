-- ===== src/MeasureService/Coordinator/Invariant.antt =====
-- crates/gz-measure-service/src/coordinator.rs: the invariant of the coordinator's state.
pub mod Leases
pub mod Sessions
pub mod Offers
pub mod Schedule
pub mod Termination
pub mod Parts
pub mod Departures
pub mod Recovery
pub mod Connection
pub mod Handlers
pub mod Events
pub mod Reports
pub mod Reachable
use graphzero.Base.{ℕ, Bool, true, ◌≡◌, Option, none, some, List}
use graphzero.Base.Assoc
use graphzero.Base.Sums.{IsMap}
use graphzero.MeasureService.Coordinator.{ActiveLease, CoordinatorState}
use graphzero.MeasureService.Coordinator.View.{
  count, waiting, keeps_to_queue, lease_at, leased, held, session,
}

pub record Inv {Tx : Type 0} (s : CoordinatorState Tx) : Type 0 where
  pub maps : IsMap s.jobs
  pub agent_maps : IsMap s.agents
  -- The queue holds exactly the jobs that are neither offered nor running, each once.
  pub queued : (k : ℕ) → count k s.queue ≡ waiting (Assoc.lookup k s.jobs)
  -- A lease is kept for recovery only while its job waits.
  pub recovery : (k : ℕ) → keeps_to_queue (Assoc.lookup k s.jobs) ≡ true
  -- An agent holds a lease of a job exactly where the job is leased to its device, under that id.
  pub agreed : (d k : ℕ) → held s d k ≡ lease_at d (leased s k)
  -- A leased job names the current session of its device.
  pub current :
      (k : ℕ) (a : ActiveLease)
      → leased s k ≡ some a
      → session s a.device_id ≡ some a.current_session_id
