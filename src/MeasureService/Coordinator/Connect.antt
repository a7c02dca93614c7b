-- ===== src/MeasureService/Coordinator/Connect.antt =====
-- crates/gz-measure-service/src/coordinator.rs: an agent connects, and leases whose reports it has
-- kept are bound to its new session.
use graphzero.Base.{
  ℕ, ◌+◌, ◌%◌, u32_mod, Bool, true, false, not, ◌&&◌, ◌||◌, Option, none, some, List, [], ◌∷◌, ◌++◌,
  if◌then◌else◌, ◌==◌, leb, length,
}
use graphzero.Base.Assoc
use graphzero.Base.Result.{Result, ok, err, ◌>>=◌, ◌>>◌, guard, ok_or}
use graphzero.MeasureService.Protocol.{
  ServiceError, protocol, authentication, WireId, from_slice, LeaseRecovery, RecoveryDisposition,
  RecoveryAction, submit_report, cancel, already_committed, EngineCapability,
  engine_identity_from_wire, measurement_protocol_version, AgentWelcome, welcome,
}
use graphzero.MeasureService.Receipts
use graphzero.MeasureService.Coordinator.{
  CommandChannel, CoordinatorConfig, duration_ms, ActiveLease, running, Job, CoordinatorState,
  is_queued, unqueue,
}
use graphzero.MeasureService.Coordinator.Sessions.{remove_agent_session}
use graphzero.MeasureService.Coordinator.Validate.{
  Status, invalid_argument, resource_exhausted, as_status,
}

-- `texts` are the lengths of the twelve text fields that `validate_profile` checks, in its order.
pub record DeviceProfile : Type 0 where
  pub texts : List ℕ
  pub operating_system_image_digest : WireId
  pub agent_image_digest : WireId
  pub measurement_protocol_version : ℕ

-- `agent_build` is the length of that text.
pub record AgentHello : Type 0 where
  pub protocol_major : ℕ
  pub protocol_minor : ℕ
  pub device_id : WireId
  pub agent_build : ℕ
  pub profile : Option DeviceProfile
  pub capabilities : List EngineCapability
  pub recoveries : List LeaseRecovery
  pub job_slots : ℕ

unfoldable pub texts_fit : List ℕ → Bool
texts_fit [] = true
texts_fit (len ∷ lens) = not (len == 0) && leb len 128 && texts_fit lens

unfoldable pub validate_profile : DeviceProfile → Result ServiceError (Unit {0})
unfolding texts_fit
validate_profile p = do
  guard (texts_fit p.texts) (protocol "device profile field has invalid length")
  os ← from_slice p.operating_system_image_digest
  image ← from_slice p.agent_image_digest
  guard (p.measurement_protocol_version == measurement_protocol_version)
      (protocol "unsupported device measurement protocol version")

abbrev pub is_empty {ℓ} : {A : Type ℓ} → List A → Bool
is_empty [] = true
is_empty (x ∷ xs) = false

unfoldable pub check_capabilities : List EngineCapability → Result ServiceError (Unit {0})
unfolding engine_identity_from_wire
check_capabilities [] = ok tt
check_capabilities (c ∷ cs) =
    let rest = check_capabilities cs in
    (do
      identity ← ok_or c.engine (protocol "capability engine identity is required")
      engine ← engine_identity_from_wire identity
      guard
          (not (
            is_empty c.artifact_formats
            || is_empty c.measure_config_encodings
            || is_empty c.measurement_protocol_versions))
          (protocol "capability lists must be non-empty")
      rest)

-- `seen` are the jobs of the recoveries so far. Phases go from 1 to 9; 0 is unspecified.
unfoldable pub check_recoveries : List ℕ → List LeaseRecovery → Result ServiceError (Unit {0})
check_recoveries seen [] = ok tt
check_recoveries seen (r ∷ rs) = do
  job_id ← from_slice r.job_id
  guard (not (is_queued job_id seen)) (protocol "agent supplied duplicate lease recoveries")
  lease_id ← from_slice r.lease_id
  guard (leb r.phase 9) (protocol "unknown recovery phase")
  guard (not (r.phase == 0)) (protocol "recovery phase is unspecified")
  guard r.report_persisted (protocol "this agent version can recover persisted reports only")
  check_recoveries (job_id ∷ seen) rs

unfoldable pub validate_hello : CoordinatorConfig → AgentHello → Result ServiceError (Unit {0})
unfolding validate_profile check_capabilities check_recoveries
validate_hello config hello = do
  guard (hello.protocol_major == 1) (protocol "unsupported protocol major")
  guard (hello.protocol_minor == 1) (protocol "unsupported protocol minor")
  device_id ← from_slice hello.device_id
  guard (not (hello.agent_build == 0) && leb hello.agent_build 128)
      (protocol "agent_build length is invalid")
  profile ← ok_or hello.profile (protocol "device profile is required")
  validate_profile profile
  guard (not (is_empty hello.capabilities)) (protocol "at least one engine capability is required")
  guard (not (hello.job_slots == 0) && leb hello.job_slots config.command_capacity)
      (protocol "agent job_slots exceeds the coordinator capacity")
  check_capabilities hello.capabilities
  guard (leb (length hello.recoveries) hello.job_slots)
      (protocol "agent supplied too many lease recoveries")
  check_recoveries [] hello.recoveries

pub data Enrollment : Type 0 where
  -- The device of each certificate fingerprint.
  mutual_tls : List (ℕ × ℕ) → Enrollment
  insecure_for_tests : List ℕ → Enrollment

unfoldable pub authenticate_enrollment : Enrollment → Option ℕ → ℕ → Result ServiceError (Unit {0})
authenticate_enrollment (mutual_tls devices) peer_fingerprint claimed_device = do
  fingerprint ← ok_or peer_fingerprint (authentication "client certificate is required")
  enrolled ←
      ok_or (Assoc.lookup fingerprint devices) (authentication "client certificate is not enrolled")
  guard (enrolled == claimed_device) (authentication "certificate and device id do not match")
authenticate_enrollment (insecure_for_tests devices) peer_fingerprint claimed_device =
    guard (is_queued claimed_device devices) (authentication "device id is not enrolled")

-- The lease under which a requeued job may be recovered by the device that presents it.
abbrev pub recoverable : Option Job → ℕ → ℕ → Option (Job × ActiveLease)
recoverable none device_id lease_id = none
recoverable (some job) device_id lease_id = elim job.recovery [
  | none ↦ none
  | some active ↦
      if active.device_id == device_id && active.lease_id == lease_id
      then some (job, active)
      else none
]

module _ {Tx : Type 0} where
  -- The job runs again, under the new session.
  unfoldable pub rebind :
      CoordinatorConfig → ℕ → CoordinatorState Tx → ℕ → ℕ → Job → ActiveLease → CoordinatorState Tx
  rebind config now s session_id job_id job active = record s {
    jobs =
        Assoc.insert job_id
          (record job {
            state = running (record active {
              current_session_id = session_id;
              deadline = now + config.lease_duration;
            });
            recovery = none;
          })
          s.jobs;
    queue = unqueue job_id s.queue;
  }

  -- The loop of `reconcile_recoveries`, with the new session's leases and the answers so far. An id
  -- of the wrong width ends it with an error; `validate_hello` has ruled that out.
  unfoldable pub reconcile_recoveries :
      CoordinatorConfig
      → ℕ
      → ℕ
      → ℕ
      → List LeaseRecovery
      → CoordinatorState Tx
      → List (ℕ × ℕ)
      → List RecoveryDisposition
      → CoordinatorState Tx × Result ServiceError (List RecoveryDisposition × List (ℕ × ℕ))
  unfolding rebind
  reconcile_recoveries config now device_id session_id [] s active answers =
      (s, ok (answers, active))
  reconcile_recoveries config now device_id session_id (r ∷ rs) s active answers =
      let answer = λ (job_id : ℕ) (lease_id : ℕ) (action : RecoveryAction).
        answers ++ (record { job_id = job_id; lease_id = lease_id; action = action } ∷ []) in
      elim (from_slice r.job_id) [
        | err e ↦ (s, err e)
        | ok job_id ↦ elim (from_slice r.lease_id) [
          | err e ↦ (s, err e)
          | ok lease_id ↦ elim (Receipts.contains s.receipts job_id) [
            | true ↦
                reconcile_recoveries config now device_id session_id rs s active
                  (answer job_id lease_id already_committed)
            | false ↦ elim (recoverable (Assoc.lookup job_id s.jobs) device_id lease_id) [
              | none ↦
                  reconcile_recoveries config now device_id session_id rs s active
                    (answer job_id lease_id cancel)
              | some (job, lease) ↦
                  reconcile_recoveries config now device_id session_id rs
                    (rebind config now s session_id job_id job lease)
                    (Assoc.insert job_id lease_id active) (answer job_id lease_id submit_report)
            ]
          ]
        ]
      ]

-- What `connect` checks before it takes the lock: the device and its profile.
unfoldable pub admit_hello :
    CoordinatorConfig → Enrollment → Option ℕ → AgentHello → Result Status (ℕ × DeviceProfile)
unfolding validate_hello authenticate_enrollment
admit_hello config enrollment peer_fingerprint hello = do
  as_status (validate_hello config hello)
  device_id ← as_status (from_slice hello.device_id)
  as_status (authenticate_enrollment enrollment peer_fingerprint device_id)
  profile ← ok_or hello.profile (invalid_argument "device profile is required")
  ok (device_id, profile)

-- `welcome`. The sizes of the configuration are `usize`, and the message casts them.
unfoldable pub welcome_message : CoordinatorConfig → ℕ → ℕ → List RecoveryDisposition → AgentWelcome
unfolding duration_ms
welcome_message config session_id profile_hash recoveries = record {
  session_id = session_id;
  negotiated_minor = 1;
  device_profile_hash = profile_hash;
  heartbeat_interval_ms = duration_ms config.heartbeat_interval;
  accept_timeout_ms = duration_ms config.accept_timeout;
  default_lease_duration_ms = duration_ms config.lease_duration;
  max_artifact_bytes = config.max_artifact_bytes;
  artifact_chunk_bytes = config.artifact_chunk_bytes % u32_mod;
  max_measure_config_bytes = config.max_measure_config_bytes % u32_mod;
  max_engine_metadata_bytes = config.max_engine_metadata_bytes % u32_mod;
  max_samples_per_subject = config.max_samples_per_subject % u32_mod;
  max_telemetry_samples = config.max_telemetry_samples % u32_mod;
  max_bounded_string_bytes = 512;
  recoveries = recoveries;
}

module _ {Tx : Type 0} ⦃channel : CommandChannel Tx⦄ where
  -- The new session is registered, then it is sent the welcome.
  unfoldable pub register :
      CoordinatorConfig
      → ℕ
      → ℕ
      → Tx
      → Option ℕ
      → AgentHello
      → ℕ
      → CoordinatorState Tx
      → List RecoveryDisposition
      → List (ℕ × ℕ)
      → CoordinatorState Tx × Result Status AgentWelcome
  unfolding welcome_message
  register config profile_hash session_id new_tx peer_fingerprint hello device_id s answers active =
      let message = welcome_message config session_id profile_hash answers in
      let registered = λ (tx : Tx). record s {
        agents =
            Assoc.insert_sorted device_id
              (record {
                session_id = session_id;
                profile_hash = profile_hash;
                capabilities = hello.capabilities;
                command_tx = tx;
                peer_fingerprint = peer_fingerprint;
                slot_capacity = hello.job_slots;
                free_slots = 0;
                draining = false;
                active = active;
              })
              s.agents;
      } in
      elim (channel.try_send new_tx (welcome message)) [
        | none ↦ (registered new_tx, err (resource_exhausted "agent command queue is full"))
        | some tx ↦ (registered tx, ok message)
      ]

  -- `connect`, up to the start of the task that reads the agent's events. `new_tx` is the new
  -- command channel, `profile_hash` the hash of a profile, `session_id` is drawn at random.
  unfoldable pub connect :
      CoordinatorConfig
      → Enrollment
      → ℕ
      → (DeviceProfile → ℕ)
      → ℕ
      → Tx
      → CoordinatorState Tx
      → Option ℕ
      → AgentHello
      → CoordinatorState Tx × Result Status AgentWelcome
  unfolding admit_hello reconcile_recoveries register
  connect config enrollment now profile_hash session_id new_tx s peer_fingerprint hello =
      elim (admit_hello config enrollment peer_fingerprint hello) [
        | err e ↦ (s, err e)
        | ok (device_id, profile) ↦
            let (s', outcome) =
              reconcile_recoveries config now device_id session_id hello.recoveries
                (remove_agent_session s device_id) [] [] in
            elim outcome [
              | err e ↦ (s', as_status (err e))
              | ok (answers, active) ↦
                  register config (profile_hash profile) session_id new_tx peer_fingerprint hello
                    device_id s' answers active
            ]
      ]
