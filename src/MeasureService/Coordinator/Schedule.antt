-- ===== src/MeasureService/Coordinator/Schedule.antt =====
-- crates/gz-measure-service/src/coordinator.rs: the scheduler, which offers queued jobs to agents.
use graphzero.Base.{
  ℕ, zero, suc, ◌+◌, ◌-◌, Bool, true, false, not, ◌&&◌, ◌||◌, Option, none, some, List, [], ◌∷◌,
  if◌then◌else◌, ◌==◌, ltb,
}
use graphzero.Base.Assoc
use graphzero.MeasureService.Protocol.{
  EngineCapability, ArtifactFormatCapability, ArtifactDescriptor, GraphArtifact, GraphSubject,
  CoordinatorCommand, lease, engine_is, engine_identity_to_wire, kind_wire,
  measurement_protocol_version,
}
use graphzero.MeasureService.Coordinator.{
  CommandChannel, CoordinatorConfig, duration_ms, ActiveLease, offered, Job, AgentSession,
  CoordinatorState, unqueue, is_queued,
}
use graphzero.MeasureService.Coordinator.Sessions.{remove_agent_session}

unfoldable pub has_format : List ArtifactFormatCapability → ArtifactDescriptor → Bool
has_format [] d = false
has_format (f ∷ fs) d =
    (f.format_kind == d.format_kind && f.adapter_format_id == d.adapter_format_id)
    || has_format fs d

unfoldable pub has_formats : List ArtifactFormatCapability → List ArtifactDescriptor → Bool
unfolding has_format
has_formats fs [] = true
has_formats fs (d ∷ ds) = has_format fs d && has_formats fs ds

unfoldable pub capability_matches : Job → List EngineCapability → Bool
unfolding has_formats is_queued
capability_matches job [] = false
capability_matches job (c ∷ cs) =
    (engine_is c.engine job.submission.engine
      && has_formats c.artifact_formats job.descriptors
      && is_queued job.submission.measure_config.encoding c.measure_config_encodings
      && is_queued measurement_protocol_version c.measurement_protocol_versions)
    || capability_matches job cs

-- The `GraphSubject` of each artifact, numbered from `logical_index`.
unfoldable pub lease_subjects : ℕ → List GraphArtifact → List ArtifactDescriptor → List GraphSubject
lease_subjects logical_index [] descriptors = []
lease_subjects logical_index (subject ∷ subjects) [] = []
lease_subjects logical_index (subject ∷ subjects) (descriptor ∷ descriptors) =
    record {
      logical_index = logical_index;
      graph_hash = subject.graph_hash;
      artifact_digest = descriptor.digest;
      artifact_size = descriptor.size;
      format_kind = descriptor.format_kind;
      adapter_format_id = descriptor.adapter_format_id;
    }
    ∷ lease_subjects (suc logical_index) subjects descriptors

unfoldable pub lease_command : CoordinatorConfig → Job → ℕ → ActiveLease → CoordinatorCommand
unfolding lease_subjects duration_ms
lease_command config job job_id active = lease (record {
  session_id = active.current_session_id;
  job_id = job_id;
  measurement_key = job.measurement_key;
  request_nonce = job.request_nonce;
  lease_id = active.lease_id;
  lease_duration_ms = duration_ms config.lease_duration;
  kind = kind_wire job.submission.kind;
  engine = engine_identity_to_wire job.submission.engine;
  measure_config_hash = job.submission.config_hash;
  measure_config_encoding = job.submission.measure_config.encoding;
  measure_config_payload = job.submission.measure_config.payload;
  target_device_profile_hash = job.submission.target_device_profile_hash;
  subjects = lease_subjects 0 job.submission.subjects job.descriptors;
})

module _ {Tx : Type 0} where
  unfoldable pub agent_matches : AgentSession Tx → Job → Bool
  unfolding capability_matches
  agent_matches agent job =
      ltb 0 agent.free_slots
      && not agent.draining
      && agent.profile_hash == job.submission.target_device_profile_hash
      && capability_matches job agent.capabilities

  -- The first agent, in the order of device ids, that can take the job.
  unfoldable pub find_agent : List (ℕ × AgentSession Tx) → Job → Option ℕ
  unfolding agent_matches
  find_agent [] job = none
  find_agent (entry ∷ agents) job =
      let later = find_agent agents job in if agent_matches entry.1 job then some entry.0 else later

  -- The first queued job that some agent can take, and that agent.
  unfoldable pub find_assignment :
      List (ℕ × Job) → List (ℕ × AgentSession Tx) → List ℕ → Option (ℕ × ℕ)
  unfolding find_agent
  find_assignment jobs agents [] = none
  find_assignment jobs agents (job_id ∷ queue) =
      let later = find_assignment jobs agents queue in
      elim (Assoc.lookup job_id jobs) [
        | none ↦ later
        | some job ↦ elim (find_agent agents job) [
          | none ↦ later
          | some device_id ↦ some (job_id, device_id)
        ]
      ]

  -- The slots that agents report free.
  unfoldable pub total_free : List (ℕ × AgentSession Tx) → ℕ
  total_free [] = 0
  total_free (entry ∷ agents) = (entry.1).free_slots + total_free agents

module _ {Tx : Type 0} ⦃channel : CommandChannel Tx⦄ where
  -- The lease that one round of the scheduler makes.
  abbrev pub new_lease : CoordinatorConfig → AgentSession Tx → ℕ → ℕ → ℕ → ActiveLease
  new_lease config agent device_id lease_id now = record {
    device_id = device_id;
    current_session_id = agent.session_id;
    origin_session_id = agent.session_id;
    lease_id = lease_id;
    deadline = now + config.accept_timeout;
  }

  -- One round of `schedule`: the job leaves the queue and is offered to the agent. Where the agent
  -- cannot be told, its session ends.
  unfoldable pub assign :
      CoordinatorConfig
      → CoordinatorState Tx
      → ℕ
      → ℕ
      → Job
      → AgentSession Tx
      → ActiveLease
      → CoordinatorState Tx
  unfolding lease_command
  assign config s job_id device_id job agent active =
      let offered_jobs =
        Assoc.insert job_id (record job { state = offered active; recovery = none }) s.jobs in
      let leased : AgentSession Tx = record agent {
        free_slots = agent.free_slots - 1;
        active = Assoc.insert job_id active.lease_id agent.active;
      } in
      let told = λ (tx : Tx). record s {
        jobs = offered_jobs;
        queue = unqueue job_id s.queue;
        agents = Assoc.insert device_id (record leased { command_tx = tx }) s.agents;
      } in
      elim (channel.try_send agent.command_tx (lease_command config job job_id active)) [
        | some tx ↦ told tx
        | none ↦ remove_agent_session (told agent.command_tx) device_id
      ]

  -- A round for an assignment whose job and agent are looked up.
  unfoldable pub round :
      CoordinatorConfig → ℕ → ℕ → CoordinatorState Tx → ℕ × ℕ → CoordinatorState Tx
  unfolding assign
  round config now lease_id s (job_id, device_id) = elim (Assoc.lookup job_id s.jobs) [
    | none ↦ s
    | some job ↦ elim (Assoc.lookup device_id s.agents) [
      | none ↦ s
      | some agent ↦
          assign config s job_id device_id job agent (new_lease config agent device_id lease_id now)
    ]
  ]

  -- The loop, on fuel. `draws` are the lease ids that its rounds draw at random.
  unfoldable pub schedule_from :
      ℕ → CoordinatorConfig → ℕ → (ℕ → ℕ) → CoordinatorState Tx → CoordinatorState Tx
  schedule_from zero config now draws s = s
  schedule_from (suc fuel) config now draws s = elim (find_assignment s.jobs s.agents s.queue) [
    | none ↦ s
    | some assignment ↦
        schedule_from fuel config now (λ n. draws (suc n)) (round config now (draws 0) s assignment)
  ]

  -- Each round takes a free slot, or ends a session that has one.
  unfoldable pub schedule :
      CoordinatorConfig → ℕ → (ℕ → ℕ) → CoordinatorState Tx → CoordinatorState Tx
  unfolding schedule_from
  schedule config now draws s = schedule_from (total_free s.agents) config now draws s
