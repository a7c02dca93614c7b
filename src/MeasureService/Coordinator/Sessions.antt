-- ===== src/MeasureService/Coordinator/Sessions.antt =====
-- crates/gz-measure-service/src/coordinator.rs: leases that end without a report, by expiry, by
-- the end of the agent's session, or by cancellation.
use graphzero.Base.{
  ℕ, Bool, true, false, ◌&&◌, Option, none, some, List, [], ◌∷◌, ◌++◌, if◌then◌else◌, ◌==◌, leb,
}
use graphzero.Base.Assoc
use graphzero.MeasureService.Protocol.{CoordinatorCommand, cancel_lease, drain, ArtifactDescriptor}
use graphzero.MeasureService.Coordinator.{
  CommandChannel, ActiveLease, JobState, queued, offered, running, Job, AgentSession,
  CoordinatorState, is_queued, unqueue, is_lease,
}
use graphzero.MeasureService.Coordinator.Artifacts.{release_artifact}

-- What an offered or a running job is leased under.
abbrev pub lease_of : JobState → Option ActiveLease
lease_of queued = none
lease_of (offered active) = some active
lease_of (running active) = some active

-- The jobs whose lease has run out, each with its lease.
unfoldable pub expired : ℕ → List (ℕ × Job) → List (ℕ × ActiveLease)
expired now [] = []
expired now (entry ∷ jobs) =
    let later = expired now jobs in
    elim (lease_of (entry.1).state) [
      | none ↦ later
      | some active ↦ if leb active.deadline now then (entry.0, active) ∷ later else later
    ]

-- The lease under which a job is recorded, if it is this one, and whether the job was accepted.
abbrev pub matching_lease : Option Job → ℕ → Option (ActiveLease × Bool)
matching_lease none lease_id = none
matching_lease (some job) lease_id = elim job.state [
  | queued ↦ none
  | offered active ↦ if active.lease_id == lease_id then some (active, false) else none
  | running active ↦ if active.lease_id == lease_id then some (active, true) else none
]

module _ {Tx : Type 0} where
  -- The job's half of `requeue_active`.
  unfoldable pub requeue_job : CoordinatorState Tx → ℕ → ActiveLease → Bool → CoordinatorState Tx
  requeue_job s job_id active preserve_for_recovery = elim (Assoc.lookup job_id s.jobs) [
    | none ↦ s
    | some job ↦ record s {
      jobs =
          Assoc.insert job_id
            (record job {
              state = queued;
              recovery = if preserve_for_recovery then some active else none;
            })
            s.jobs;
      queue = if is_queued job_id s.queue then s.queue else s.queue ++ (job_id ∷ []);
    }
  ]

  -- The agent's half of `requeue_active`.
  unfoldable pub end_lease : CoordinatorState Tx → ℕ → ActiveLease → CoordinatorState Tx
  end_lease s job_id active = elim (Assoc.lookup active.device_id s.agents) [
    | none ↦ s
    | some agent ↦
        if agent.session_id == active.current_session_id
          && is_lease (Assoc.lookup job_id agent.active) active.lease_id
        then record s {
          agents =
              Assoc.insert active.device_id
                (record agent { active = Assoc.remove job_id agent.active }) s.agents;
        }
        else s
  ]

  unfoldable pub requeue_active : CoordinatorState Tx → ℕ → ActiveLease → Bool → CoordinatorState Tx
  unfolding requeue_job end_lease
  requeue_active s job_id active preserve_for_recovery =
      end_lease (requeue_job s job_id active preserve_for_recovery) job_id active

  unfoldable pub requeue_all : CoordinatorState Tx → List (ℕ × ActiveLease) → CoordinatorState Tx
  requeue_all s [] = s
  requeue_all s (entry ∷ rest) = requeue_all (requeue_active s entry.0 entry.1 false) rest

  unfoldable pub expire_leases : CoordinatorState Tx → ℕ → CoordinatorState Tx
  unfolding expired requeue_all
  expire_leases s now = requeue_all s (expired now s.jobs)

  abbrev pub requeue_if :
      CoordinatorState Tx → ℕ → Option (ActiveLease × Bool) → CoordinatorState Tx
  requeue_if s job_id none = s
  requeue_if s job_id (some (active, accepted)) = requeue_active s job_id active accepted

  -- The loop over the leases of a session that ends.
  unfoldable pub requeue_session : CoordinatorState Tx → List (ℕ × ℕ) → CoordinatorState Tx
  requeue_session s [] = s
  requeue_session s (entry ∷ rest) =
      requeue_session (requeue_if s entry.0 (matching_lease (Assoc.lookup entry.0 s.jobs) entry.1))
        rest

  unfoldable pub remove_agent_session : CoordinatorState Tx → ℕ → CoordinatorState Tx
  unfolding requeue_session
  remove_agent_session s device_id = elim (Assoc.lookup device_id s.agents) [
    | none ↦ s
    | some agent ↦
        requeue_session (record s { agents = Assoc.remove device_id s.agents }) agent.active
  ]

  -- `for descriptor in &job.descriptors { release_artifact(..) }`.
  unfoldable pub release_all : CoordinatorState Tx → List ArtifactDescriptor → CoordinatorState Tx
  release_all s [] = s
  release_all s (descriptor ∷ rest) = release_all (release_artifact s descriptor.digest) rest

module _ {Tx : Type 0} ⦃channel : CommandChannel Tx⦄ where
  -- A command that cannot be sent is given up.
  abbrev pub send_or_skip : Tx → CoordinatorCommand → Tx
  send_or_skip tx command = elim (channel.try_send tx command) [ none ↦ tx | some tx' ↦ tx' ]

  -- The part of `cancel_job` that concerns the agent.
  unfoldable pub cancel_at_agent :
      CoordinatorState Tx → ℕ → Option ActiveLease → CoordinatorState Tx
  cancel_at_agent s job_id none = s
  cancel_at_agent s job_id (some active) = elim (Assoc.lookup active.device_id s.agents) [
    | none ↦ s
    | some agent ↦ record s {
      agents =
          Assoc.insert active.device_id
            (record agent {
              command_tx = send_or_skip agent.command_tx (cancel_lease job_id active.lease_id);
              active =
                  if is_lease (Assoc.lookup job_id agent.active) active.lease_id
                  then Assoc.remove job_id agent.active
                  else agent.active;
            })
            s.agents;
    }
  ]

  unfoldable pub cancel_job : CoordinatorState Tx → ℕ → CoordinatorState Tx
  unfolding cancel_at_agent release_all
  cancel_job s job_id =
      let s' : CoordinatorState Tx = record s { queue = unqueue job_id s.queue } in
      elim (Assoc.lookup job_id s.jobs) [
        | none ↦ s'
        | some job ↦
            release_all
              (cancel_at_agent (record s' { jobs = Assoc.remove job_id s.jobs }) job_id
                (lease_of job.state))
              job.descriptors
      ]

  -- `drain_agents`, agent by agent.
  unfoldable pub drain_each : List (ℕ × AgentSession Tx) → List (ℕ × AgentSession Tx)
  drain_each [] = []
  drain_each (entry ∷ rest) =
      (
        entry.0,
        record (entry.1) {
          draining = true;
          free_slots = 0;
          command_tx = send_or_skip (entry.1).command_tx (drain false);
        },
      )
      ∷ drain_each rest

  unfoldable pub drain_agents : CoordinatorState Tx → CoordinatorState Tx
  unfolding drain_each
  drain_agents s = record s { agents = drain_each s.agents }
