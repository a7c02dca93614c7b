-- ===== src/MeasureService/Coordinator/Validate.antt =====
-- crates/gz-measure-service/src/coordinator.rs: the checks of configurations, submissions, sessions,
-- leases and reports. A `Status` of the transport is kept by its code and message.
use Prim.Native.String.{String}
use graphzero.Base.{
  ℕ, suc, ◌+◌, ◌*◌, ◌%◌, Bool, true, false, not, ◌&&◌, ◌||◌, Option, none, some, List, [], ◌∷◌,
  if◌then◌else◌, ◌==◌, ltb, leb, length, get_elem?, set, replicate, u32_mod, u64_mod,
}
use graphzero.Base.Assoc
use graphzero.Base.Result.{Result, ok, err, ◌>>=◌, ◌>>◌, guard, ok_or}
use graphzero.MeasureService.Protocol.{
  ServiceError, configuration, capacity, protocol, authentication, timeout, transport, io,
  remote_failure, closed, WireId, from_slice, spells, engine_is, MeasureSubmission, GraphArtifact,
  subject_count, kind_wire, MeasureReport, SubjectMeasurement, MeasurementSample,
}
use graphzero.MeasureService.Coordinator.{
  CoordinatorConfig, ActiveLease, JobState, queued, offered, running, Job, AgentSession,
  CoordinatorState, is_lease,
}
use graphzero.MeasureService.Coordinator.Sessions.{lease_of}

pub data Status : Type 0 where
  invalid_argument permission_denied not_found failed_precondition resource_exhausted data_loss
        unauthenticated deadline_exceeded unavailable :
      String → Status

unfoldable pub status_for_error : ServiceError → Status
status_for_error (authentication message) = unauthenticated message
status_for_error (capacity message) = resource_exhausted message
status_for_error (configuration message) = invalid_argument message
status_for_error (protocol message) = invalid_argument message
status_for_error (timeout message) = deadline_exceeded message
status_for_error (transport message) = unavailable message
status_for_error (io message) = unavailable message
status_for_error (remote_failure code message) = failed_precondition message
status_for_error closed = unavailable "measurement service closed"

-- `map_err(status_for_error)`.
abbrev pub as_status {ℓ} : {A : Type ℓ} → Result ServiceError A → Result Status A
as_status r = elim r [ ok a ↦ ok a | err e ↦ err (status_for_error e) ]

-- The values that must not be zero, in the order of the checks.
unfoldable pub all_positive : List ℕ → Result ServiceError (Unit {0})
all_positive [] = ok tt
all_positive (value ∷ values) =
    let rest = all_positive values in
    if value == 0 then err (configuration "value must be greater than zero") else rest

-- The receipt ledger is the memory one.
unfoldable pub validate_config : CoordinatorConfig → Result ServiceError (Unit {0})
unfolding all_positive
validate_config c = do
  all_positive (
      c.queue_capacity ∷ c.artifact_item_capacity ∷ c.artifact_byte_capacity ∷ c.command_capacity
      ∷ c.max_artifact_bytes ∷ c.artifact_chunk_bytes ∷ c.max_measure_config_bytes
      ∷ c.max_engine_metadata_bytes ∷ c.max_samples_per_subject ∷ c.max_telemetry_samples ∷ [])
  guard (not (c.receipt_capacity == 0))
      (configuration "receipt ledger capacity must be greater than zero")
  guard (leb c.artifact_chunk_bytes c.max_artifact_bytes)
      (configuration "artifact_chunk_bytes cannot exceed max_artifact_bytes")
  all_positive (c.heartbeat_interval ∷ c.accept_timeout ∷ c.lease_duration ∷ [])
  guard (ltb c.heartbeat_interval c.lease_duration)
      (configuration "lease_duration must exceed heartbeat_interval")

unfoldable pub all_fit : ℕ → List GraphArtifact → Bool
all_fit limit [] = true
all_fit limit (artifact ∷ artifacts) = leb (length artifact.bytes) limit && all_fit limit artifacts

unfoldable pub validate_submission :
    CoordinatorConfig → MeasureSubmission → Result ServiceError (Unit {0})
unfolding all_fit
validate_submission config s = do
  guard (length s.subjects == subject_count s.kind)
      (configuration "measurement kind has the wrong subject count")
  guard (all_fit config.max_artifact_bytes s.subjects)
      (capacity "artifact exceeds configured maximum")
  guard (not (s.measure_config.encoding == 0))
      (configuration "measure config encoding must be non-zero")
  guard (leb (length s.measure_config.payload) config.max_measure_config_bytes)
      (capacity "measure config exceeds configured maximum")

abbrev pub same_fingerprint : Option ℕ → Option ℕ → Bool
same_fingerprint none none = true
same_fingerprint (some a) (some b) = a == b
same_fingerprint none (some b) = false
same_fingerprint (some a) none = false

module _ {Tx : Type 0} where
  unfoldable pub find_session : List (ℕ × AgentSession Tx) → ℕ → Option (ℕ × AgentSession Tx)
  find_session [] session_id = none
  find_session (entry ∷ agents) session_id =
      let later = find_session agents session_id in
      if (entry.1).session_id == session_id then some entry else later

  unfoldable pub authenticate_session :
      CoordinatorState Tx → ℕ → Option ℕ → Result Status (ℕ × AgentSession Tx)
  unfolding find_session
  authenticate_session s session_id peer_fingerprint = elim (find_session s.agents session_id) [
    | none ↦ err (permission_denied "unknown agent session")
    | some entry ↦
        if same_fingerprint (entry.1).peer_fingerprint peer_fingerprint
        then ok entry
        else err (permission_denied "data-plane peer differs from control session")
  ]

  -- The lease of a job is the one that the agent presents, and the agent holds it.
  abbrev pub holds : ActiveLease → ℕ → ℕ → AgentSession Tx → ℕ → ℕ → Bool
  holds active job_id device_id agent session_id lease_id =
      active.device_id == device_id
      && active.current_session_id == session_id
      && active.lease_id == lease_id
      && is_lease (Assoc.lookup job_id agent.active) lease_id

  unfoldable pub validate_active_lease :
      ℕ → Job → ℕ × AgentSession Tx → ℕ → Result Status (Unit {0})
  validate_active_lease job_id job (device_id, agent) lease_id =
      let check = λ (active : ActiveLease).
        guard (holds active job_id device_id agent agent.session_id lease_id)
          (permission_denied "lease identity mismatch") in
      elim job.state [
        | queued ↦ err (failed_precondition "job is not leased")
        | offered active ↦ check active
        | running active ↦ check active
      ]

  -- The lease that an event of an agent's session names.
  unfoldable pub validate_agent_lease_ids :
      CoordinatorState Tx
      → ℕ
      → ℕ
      → WireId
      → WireId
      → WireId
      → Result ServiceError (ℕ × Job × ActiveLease)
  validate_agent_lease_ids s device_id session_id event_session event_job event_lease = do
    event_session_id ← from_slice event_session
    guard (event_session_id == session_id) (protocol "event session id mismatch")
    job_id ← from_slice event_job
    lease_id ← from_slice event_lease
    agent ← ok_or (Assoc.lookup device_id s.agents) (protocol "event agent is not connected")
    guard (is_lease (Assoc.lookup job_id agent.active) lease_id)
        (protocol "event references a lease not active on the agent")
    job ← ok_or (Assoc.lookup job_id s.jobs) (protocol "event references unknown job")
    active ← ok_or (lease_of job.state) (protocol "event references an unleased job")
    guard
        (active.device_id == device_id
          && active.current_session_id == session_id
          && active.lease_id == lease_id)
        (protocol "event lease identity mismatch")
    ok (job_id, job, active)

-- The subjects of a report are those of the job, in its order, with bounded metadata.
unfoldable pub check_subjects :
    ℕ → ℕ → List SubjectMeasurement → List GraphArtifact → Result Status (Unit {0})
check_subjects limit logical_index (actual ∷ actuals) (expected ∷ expecteds) =
    let rest = check_subjects limit (suc logical_index) actuals expecteds in
    if actual.logical_index == logical_index % u32_mod
      && spells actual.graph_hash expected.graph_hash
    then (if leb (length actual.engine_metadata) limit
        then rest
        else err (resource_exhausted "engine metadata is too large"))
    else err (invalid_argument "report subject mismatch")
check_subjects limit logical_index _ _ = ok tt

-- The samples are numbered through, and those of each subject too. `counts` is the number of
-- samples of each subject so far.
unfoldable pub check_samples : ℕ → List ℕ → List MeasurementSample → Result Status (Unit {0})
check_samples schedule_index counts [] = ok tt
check_samples schedule_index counts (sample ∷ samples) =
    let continue = λ (expected : ℕ).
      check_samples (suc schedule_index) (set counts sample.logical_index (suc expected)) samples in
    if sample.schedule_index == schedule_index % u32_mod
    then elim (get_elem? counts sample.logical_index) [
      | none ↦ err (invalid_argument "sample references an unknown subject")
      | some expected ↦
          if sample.subject_sample_index == expected
          then (if ltb (expected + 1) u32_mod
              then continue expected
              else err (resource_exhausted "subject sample index overflow"))
          else err (invalid_argument "subject sample indices are not contiguous")
    ]
    else err (invalid_argument "report sample schedule is not contiguous")

-- `is_none_or(|reward| !reward.is_finite())` for some subject.
unfoldable pub any_bad_reward : List SubjectMeasurement → Bool
any_bad_reward [] = false
any_bad_reward (subject ∷ subjects) =
    elim subject.scalar_reward [ none ↦ true | some finite ↦ not finite ] || any_bad_reward subjects

unfoldable pub any_reward : List SubjectMeasurement → Bool
any_reward [] = false
any_reward (subject ∷ subjects) =
    elim subject.scalar_reward [ none ↦ false | some finite ↦ true ] || any_reward subjects

abbrev absent {ℓ} : {A : Type ℓ} → Option A → Bool
absent none = true
absent (some a) = false

-- The outcome: 0 is unspecified, 1 is success, up to 11 are failures, others are unknown.
unfoldable pub check_outcome : MeasureReport → Result Status (Unit {0})
unfolding any_bad_reward any_reward
check_outcome report =
    if leb report.outcome 11
    then (if report.outcome == 0
        then err (invalid_argument "report outcome is unspecified")
        else (if report.outcome == 1
            then guard (absent report.failure && not (any_bad_reward report.subjects))
                (invalid_argument "successful report is malformed")
            else (do
              failure ← ok_or report.failure (invalid_argument "failed report omitted detail")
              guard (not (any_reward report.subjects))
                  (invalid_argument "failed report included scalar reward")
              guard (leb (length failure.bounded_message) 512)
                  (resource_exhausted "failure message is too large"))))
    else err (invalid_argument "unknown report outcome")

-- The lease of a running job.
unfoldable pub running_lease : JobState → Result Status ActiveLease
running_lease queued = err (failed_precondition "job is not leased")
running_lease (offered active) = err (failed_precondition "job was not accepted")
running_lease (running active) = ok active

module _ {Tx : Type 0} where
  unfoldable pub validate_report :
      CoordinatorConfig
      → ℕ
      → Job
      → ℕ × AgentSession Tx
      → ℕ
      → ℕ
      → MeasureReport
      → Result Status (Unit {0})
  unfolding check_subjects check_samples check_outcome running_lease
  validate_report config job_id job (device_id, agent) current_session lease_id report = do
    active ← running_lease job.state
    guard (holds active job_id device_id agent current_session lease_id)
        (failed_precondition "stale lease")
    guard
        (spells report.origin_session_id active.origin_session_id
          && spells report.device_profile_hash agent.profile_hash
          && spells report.measurement_key job.measurement_key
          && spells report.request_nonce job.request_nonce
          && spells report.measure_config_hash job.submission.config_hash
          && report.kind == kind_wire job.submission.kind
          && engine_is report.engine job.submission.engine)
        (invalid_argument "report identity mismatch")
    guard (length report.subjects == length job.submission.subjects)
        (invalid_argument "report subject mismatch")
    check_subjects config.max_engine_metadata_bytes 0 report.subjects job.submission.subjects
    guard (ltb (config.max_samples_per_subject * length report.subjects) u64_mod)
        (resource_exhausted "report sample limit overflow")
    guard
        (leb (length report.samples) (config.max_samples_per_subject * length report.subjects)
          && leb report.telemetry config.max_telemetry_samples)
        (resource_exhausted "report evidence is too large")
    check_samples 0 (replicate (length report.subjects) 0) report.samples
    check_outcome report
