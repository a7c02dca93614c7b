-- ===== src/MeasureService/Coordinator/Handlers.antt =====
-- crates/gz-measure-service/src/coordinator.rs: submissions, agents' events and connections.
use graphzero.Base.{
  ℕ, ◌+◌, ◌-◌, Bool, true, false, ◌||◌, none, some, List, [], ◌∷◌, ◌++◌, if◌then◌else◌, ◌==◌, leb,
  length, min,
}
use graphzero.Base.Assoc
use graphzero.Base.Result.{Result, ok, err, ◌>>=◌, ◌>>◌, guard}
use graphzero.MeasureService.Protocol.{
  ServiceError, capacity, protocol, from_slice, GraphArtifact, ArtifactDescriptor, artifact_format,
  MeasureSubmission, AgentEvent, hello, ready, accepted, rejected, heartbeat, draining, empty,
}
use graphzero.MeasureService.Receipts
use graphzero.MeasureService.Coordinator.{
  CommandChannel, CoordinatorConfig, ActiveLease, JobState, queued, offered, running, Job,
  AgentSession, CoordinatorState,
}
use graphzero.MeasureService.Coordinator.Artifacts.{retain_artifacts}
use graphzero.MeasureService.Coordinator.Sessions.{
  requeue_active, expire_leases, remove_agent_session,
}
use graphzero.MeasureService.Coordinator.Schedule.{schedule}
use graphzero.MeasureService.Coordinator.Validate.{validate_submission, validate_agent_lease_ids}

-- The hashes (blake3) that protocol.rs takes of an artifact's format and bytes, of a submission
-- with its artifacts, and of a measurement key with a nonce.
pub record Hashes : Type 0 where
  pub artifact_digest : ℕ → ℕ → List ℕ → ℕ
  pub measurement_key : MeasureSubmission → List ArtifactDescriptor → ℕ
  pub job_id : ℕ → ℕ → ℕ

unfoldable pub artifact_descriptors : Hashes → List GraphArtifact → List ArtifactDescriptor
unfolding artifact_format
artifact_descriptors h [] = []
artifact_descriptors h (artifact ∷ artifacts) =
    let (format_kind, adapter_format_id) = artifact_format artifact.format in
    record {
      digest = h.artifact_digest format_kind adapter_format_id artifact.bytes;
      size = length artifact.bytes;
      format_kind = format_kind;
      adapter_format_id = adapter_format_id;
    }
    ∷ artifact_descriptors h artifacts

abbrev pub is_offered : JobState → Bool
is_offered queued = false
is_offered (offered active) = true
is_offered (running active) = false

abbrev pub is_running : JobState → Bool
is_running queued = false
is_running (offered active) = false
is_running (running active) = true

module _ {Tx : Type 0} where
  -- A new job enters the queue.
  unfoldable pub enqueue_job : CoordinatorState Tx → ℕ → Job → CoordinatorState Tx
  enqueue_job s job_id job = record s {
    jobs = Assoc.insert job_id job s.jobs;
    queue = s.queue ++ (job_id ∷ []);
  }

  -- The guards of `enqueue` on the state, and the retention of the artifacts.
  unfoldable pub admit_job :
      CoordinatorConfig
      → CoordinatorState Tx
      → ℕ
      → List ArtifactDescriptor
      → List GraphArtifact
      → Result ServiceError (CoordinatorState Tx)
  unfolding retain_artifacts
  admit_job config s job_id descriptors artifacts =
      if Receipts.is_some (Assoc.lookup job_id s.jobs) || Receipts.contains s.receipts job_id
      then err (protocol "job id is already admitted")
      else (if leb config.queue_capacity (length s.queue)
          then err (capacity "coordinator job queue is full")
          else (if Receipts.can_admit s.receipts (length s.jobs)
              then retain_artifacts config s descriptors artifacts
              else err (capacity "coordinator receipt ledger is full")))

module _ {Tx : Type 0} ⦃channel : CommandChannel Tx⦄ where
  -- `enqueue`: the new state, and the job id or the refusal. Leases that have run out are requeued
  -- even where the submission is refused.
  unfoldable pub enqueue :
      CoordinatorConfig
      → Hashes
      → ℕ
      → (ℕ → ℕ)
      → CoordinatorState Tx
      → MeasureSubmission
      → ℕ
      → ℕ
      → CoordinatorState Tx × Result ServiceError ℕ
  unfolding artifact_descriptors admit_job enqueue_job
  enqueue config h now draws s submission request_nonce reply =
      let descriptors = artifact_descriptors h submission.subjects in
      let key = h.measurement_key submission descriptors in
      let job_id = h.job_id key request_nonce in
      let s' = expire_leases s now in
      let job : Job = record {
        submission = submission;
        descriptors = descriptors;
        measurement_key = key;
        request_nonce = request_nonce;
        reply = some reply;
        state = queued;
        recovery = none;
      } in
      elim (validate_submission config submission) [
        | err e ↦ (s, err e)
        | ok u ↦ elim (admit_job config s' job_id descriptors submission.subjects) [
          | err e ↦ (s', err e)
          | ok s'' ↦ (schedule config now draws (enqueue_job s'' job_id job), ok job_id)
        ]
      ]

  unfoldable pub reap_expired :
      CoordinatorConfig → ℕ → (ℕ → ℕ) → CoordinatorState Tx → CoordinatorState Tx
  reap_expired config now draws s = schedule config now draws (expire_leases s now)

  unfoldable pub disconnect :
      CoordinatorConfig → ℕ → (ℕ → ℕ) → CoordinatorState Tx → ℕ → ℕ → CoordinatorState Tx
  disconnect config now draws s device_id session_id = elim (Assoc.lookup device_id s.agents) [
    | none ↦ s
    | some agent ↦
        if agent.session_id == session_id
        then schedule config now draws (remove_agent_session s device_id)
        else s
  ]

module _ {Tx : Type 0} where
  -- The job runs under its lease, which is extended.
  unfoldable pub run_job :
      CoordinatorConfig → ℕ → CoordinatorState Tx → ℕ → Job → ActiveLease → CoordinatorState Tx
  run_job config now s job_id job active = record s {
    jobs =
        Assoc.insert job_id
          (record job {
            state = running (record active { deadline = now + config.lease_duration });
          })
          s.jobs;
  }

  unfoldable pub set_agent : CoordinatorState Tx → ℕ → AgentSession Tx → CoordinatorState Tx
  set_agent s device_id agent = record s { agents = Assoc.insert device_id agent s.agents }

  -- The free slots that are taken from a report of the agent.
  abbrev pub usable_slots : AgentSession Tx → ℕ → ℕ
  usable_slots agent free_slots = min free_slots (agent.slot_capacity - length agent.active)

  -- One event of a session that is registered: what it changes, or the error that ends the session.
  unfoldable pub handle_event :
      CoordinatorConfig
      → ℕ
      → CoordinatorState Tx
      → ℕ
      → ℕ
      → AgentSession Tx
      → AgentEvent
      → Result ServiceError (CoordinatorState Tx)
  unfolding validate_agent_lease_ids run_job set_agent requeue_active
  handle_event config now s device_id session_id agent (ready event_session free_slots) = do
    id ← from_slice event_session
    guard (id == session_id) (protocol "ready session id mismatch")
    guard (leb free_slots agent.slot_capacity)
        (protocol "free_slots exceeds the advertised agent slot capacity")
    ok (set_agent s device_id (record agent { free_slots = usable_slots agent free_slots }))
  handle_event config now s device_id session_id agent
        (accepted event_session event_job event_lease) =
      do
        (job_id, job, active) ←
            validate_agent_lease_ids s device_id session_id event_session event_job event_lease
        guard (is_offered job.state) (protocol "job was accepted more than once")
        ok (run_job config now s job_id job active)
  handle_event config now s device_id session_id agent
        (rejected event_session event_job event_lease) =
      do
        (job_id, job, active) ←
            validate_agent_lease_ids s device_id session_id event_session event_job event_lease
        ok (requeue_active s job_id active false)
  handle_event config now s device_id session_id agent
        (heartbeat event_session event_job event_lease) =
      do
        (job_id, job, active) ←
            validate_agent_lease_ids s device_id session_id event_session event_job event_lease
        guard (is_running job.state) (protocol "heartbeat preceded acceptance")
        ok (run_job config now s job_id job active)
  handle_event config now s device_id session_id agent (draining event_session) = do
    id ← from_slice event_session
    guard (id == session_id) (protocol "draining session id mismatch")
    ok (set_agent s device_id (record agent { draining = true; free_slots = 0 }))
  handle_event config now s device_id session_id agent hello =
      err (protocol "AgentHello appeared more than once")
  handle_event config now s device_id session_id agent empty = err (protocol "empty agent event")

module _ {Tx : Type 0} ⦃channel : CommandChannel Tx⦄ where
  -- `handle_agent_event`: leases that have run out are requeued also where the event is refused.
  unfoldable pub handle_agent_event :
      CoordinatorConfig
      → ℕ
      → (ℕ → ℕ)
      → CoordinatorState Tx
      → ℕ
      → ℕ
      → AgentEvent
      → CoordinatorState Tx × Result ServiceError (Unit {0})
  unfolding handle_event
  handle_agent_event config now draws s device_id session_id event =
      let s' = expire_leases s now in
      elim (Assoc.lookup device_id s'.agents) [
        | none ↦ (s', err (protocol "agent session is not registered"))
        | some agent ↦
            if agent.session_id == session_id
            then elim (handle_event config now s' device_id session_id agent event) [
              | err e ↦ (s', err e)
              | ok s'' ↦ (schedule config now draws s'', ok tt)
            ]
            else (s', err (protocol "agent session was superseded"))
      ]
