-- ===== src/MeasureService/Coordinator/View.antt =====
-- crates/gz-measure-service/src/coordinator.rs: what the invariants observe of the coordinator's
-- state: the queue, the lease of each job, and the leases and the session of each agent.
mod Counting
pub mod Requeue
pub use Counting.*
use graphzero.Base.{
  ℕ, suc, ◌+◌, ◌≡◌, Bool, true, false, Option, none, some, List, [], ◌∷◌, if◌then◌else◌, ◌==◌,
}
use graphzero.Base.Assoc
use graphzero.MeasureService.Coordinator.{
  ActiveLease, JobState, queued, offered, running, Job, AgentSession, CoordinatorState,
}
use graphzero.MeasureService.Coordinator.Sessions.{lease_of}

abbrev pub is_queued_state : JobState → Bool
is_queued_state queued = true
is_queued_state (offered active) = false
is_queued_state (running active) = false

-- How often a job belongs in the queue.
abbrev pub waiting : Option Job → ℕ
waiting none = 0
waiting (some job) = if is_queued_state job.state then 1 else 0

-- A lease is kept for its recovery only while the job waits in the queue.
abbrev pub keeps_to_queue : Option Job → Bool
keeps_to_queue none = true
keeps_to_queue (some job) = elim job.recovery [
  | none ↦ true
  | some active ↦ is_queued_state job.state
]

abbrev pub lease_in : Option Job → Option ActiveLease
lease_in none = none
lease_in (some job) = lease_of job.state

-- What an agent must hold of a job that is leased like this.
abbrev pub lease_at : ℕ → Option ActiveLease → Option ℕ
lease_at device_id none = none
lease_at device_id (some active) =
    if active.device_id == device_id then some active.lease_id else none

module _ {Tx : Type 0} where
  abbrev pub held_in : Option (AgentSession Tx) → ℕ → Option ℕ
  held_in none job_id = none
  held_in (some agent) job_id = Assoc.lookup job_id agent.active

  abbrev pub session_in : Option (AgentSession Tx) → Option ℕ
  session_in none = none
  session_in (some agent) = some agent.session_id

  -- The lease under which a job is recorded, the lease of it that an agent holds, an agent's session.
  abbrev pub leased : CoordinatorState Tx → ℕ → Option ActiveLease
  leased s job_id = lease_in (Assoc.lookup job_id s.jobs)

  abbrev pub held : CoordinatorState Tx → ℕ → ℕ → Option ℕ
  held s device_id job_id = held_in (Assoc.lookup device_id s.agents) job_id

  abbrev pub session : CoordinatorState Tx → ℕ → Option ℕ
  session s device_id = session_in (Assoc.lookup device_id s.agents)
