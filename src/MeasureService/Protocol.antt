-- ===== src/MeasureService/Protocol.antt =====
-- crates/gz-measure-service/src/protocol.rs, error.rs and proto/measure.proto: the messages.
-- An id or a hash of fixed width is the number that its bytes spell. A bytes field of a message is
-- `some` of that number where it has the width of its id, and `none` where it has not.
use Prim.Native.String.{String}
use graphzero.Base.{ℕ, Bool, false, ◌&&◌, Option, none, some, List, ◌==◌}
use graphzero.Base.Result.{Result, ok, err, ok_or}

pub data ServiceError : Type 0 where
  configuration capacity authentication protocol transport timeout io : String → ServiceError
  remote_failure : ℕ → String → ServiceError
  closed : ServiceError

-- `JobId::from_slice` and its kin.
abbrev pub WireId : Type 0
WireId = Option ℕ

abbrev pub from_slice : WireId → Result ServiceError ℕ
from_slice w = ok_or w (protocol "id has the wrong number of bytes")

-- The comparison of a bytes field with `as_bytes()` of an id.
abbrev pub spells : WireId → ℕ → Bool
spells none n = false
spells (some m) n = m == n

pub record EngineIdentity : Type 0 where
  pub engine_id : ℕ
  pub engine_version : ℕ
  pub action_set_hash : ℕ

-- A `wire::EngineIdentity`, whose fields may have any width.
pub record WireEngineIdentity : Type 0 where
  pub engine_id : WireId
  pub engine_version : WireId
  pub action_set_hash : WireId

abbrev pub engine_identity_to_wire : EngineIdentity → WireEngineIdentity
engine_identity_to_wire e = record {
  engine_id = some e.engine_id;
  engine_version = some e.engine_version;
  action_set_hash = some e.action_set_hash;
}

unfoldable pub engine_identity_from_wire : WireEngineIdentity → Result ServiceError EngineIdentity
engine_identity_from_wire w = elim (from_slice w.engine_id) [
  | err e ↦ err e
  | ok engine_id ↦ elim (from_slice w.engine_version) [
    | err e ↦ err e
    | ok engine_version ↦ elim (from_slice w.action_set_hash) [
      | err e ↦ err e
      | ok action_set_hash ↦ ok (record {
        engine_id = engine_id;
        engine_version = engine_version;
        action_set_hash = action_set_hash;
      })
    ]
  ]
]

-- `capability.engine == Some(engine_identity_to_wire(..))`.
abbrev pub engine_is : Option WireEngineIdentity → EngineIdentity → Bool
engine_is none e = false
engine_is (some w) e =
    spells w.engine_id e.engine_id
    && spells w.engine_version e.engine_version
    && spells w.action_set_hash e.action_set_hash

pub data GraphArtifactFormat : Type 0 where
  text json dot binary : GraphArtifactFormat
  adapter_specific : ℕ → GraphArtifactFormat

-- The wire number of the format, and the adapter's own format id.
unfoldable pub artifact_format : GraphArtifactFormat → ℕ × ℕ
artifact_format text = (1, 0)
artifact_format json = (2, 0)
artifact_format dot = (3, 0)
artifact_format binary = (4, 0)
artifact_format (adapter_specific id) = (5, id)

pub record GraphArtifact : Type 0 where
  pub graph_hash : ℕ
  pub format : GraphArtifactFormat
  pub bytes : List ℕ

pub record ArtifactDescriptor : Type 0 where
  pub digest : ℕ
  pub size : ℕ
  pub format_kind : ℕ
  pub adapter_format_id : ℕ

pub data MeasureSubmissionKind : Type 0 where
  single symmetric_pair : MeasureSubmissionKind

-- `wire::MeasureKind` by number: 0 is unspecified.
abbrev pub kind_wire : MeasureSubmissionKind → ℕ
kind_wire single = 1
kind_wire symmetric_pair = 2

abbrev pub subject_count : MeasureSubmissionKind → ℕ
subject_count single = 1
subject_count symmetric_pair = 2

pub record EncodedMeasureConfig : Type 0 where
  pub encoding : ℕ
  pub payload : List ℕ

pub record MeasureSubmission : Type 0 where
  pub kind : MeasureSubmissionKind
  pub engine : EngineIdentity
  pub subjects : List GraphArtifact
  pub config_hash : ℕ
  pub timeout_ms : Option ℕ
  pub measure_config : EncodedMeasureConfig
  pub target_device_profile_hash : ℕ

pub record ArtifactFormatCapability : Type 0 where
  pub format_kind : ℕ
  pub adapter_format_id : ℕ

pub record EngineCapability : Type 0 where
  pub engine : Option WireEngineIdentity
  pub artifact_formats : List ArtifactFormatCapability
  pub measure_config_encodings : List ℕ
  pub measurement_protocol_versions : List ℕ

abbrev pub measurement_protocol_version : ℕ
measurement_protocol_version = 1

pub record SubjectMeasurement : Type 0 where
  pub logical_index : ℕ
  pub graph_hash : WireId
  -- `Some(reward)` with whether it is finite.
  pub scalar_reward : Option Bool
  pub engine_metadata : List ℕ

pub record MeasurementSample : Type 0 where
  pub schedule_index : ℕ
  pub logical_index : ℕ
  pub subject_sample_index : ℕ

pub record FailureDetail : Type 0 where
  pub engine_error_code : ℕ
  pub bounded_message : List ℕ

pub record MeasureReport : Type 0 where
  pub origin_session_id : WireId
  pub device_id : WireId
  pub device_profile_hash : WireId
  pub job_id : WireId
  pub measurement_key : WireId
  pub request_nonce : WireId
  pub lease_id : WireId
  pub engine : Option WireEngineIdentity
  pub measure_config_hash : WireId
  pub kind : ℕ
  pub outcome : ℕ
  pub subjects : List SubjectMeasurement
  pub samples : List MeasurementSample
  -- The number of telemetry samples.
  pub telemetry : ℕ
  pub failure : Option FailureDetail

pub record CommittedMeasurement : Type 0 where
  pub job_id : ℕ
  pub report : MeasureReport

pub record LeaseRecovery : Type 0 where
  pub job_id : WireId
  pub lease_id : WireId
  pub phase : ℕ
  pub report_persisted : Bool

pub data RecoveryAction : Type 0 where
  submit_report cancel already_committed : RecoveryAction

pub record RecoveryDisposition : Type 0 where
  pub job_id : ℕ
  pub lease_id : ℕ
  pub action : RecoveryAction

pub record GraphSubject : Type 0 where
  pub logical_index : ℕ
  pub graph_hash : ℕ
  pub artifact_digest : ℕ
  pub artifact_size : ℕ
  pub format_kind : ℕ
  pub adapter_format_id : ℕ

pub record MeasureLease : Type 0 where
  pub session_id : ℕ
  pub job_id : ℕ
  pub measurement_key : ℕ
  pub request_nonce : ℕ
  pub lease_id : ℕ
  pub lease_duration_ms : ℕ
  pub kind : ℕ
  pub engine : WireEngineIdentity
  pub measure_config_hash : ℕ
  pub measure_config_encoding : ℕ
  pub measure_config_payload : List ℕ
  pub target_device_profile_hash : ℕ
  pub subjects : List GraphSubject

pub record AgentWelcome : Type 0 where
  pub session_id : ℕ
  pub negotiated_minor : ℕ
  pub device_profile_hash : ℕ
  pub heartbeat_interval_ms : ℕ
  pub accept_timeout_ms : ℕ
  pub default_lease_duration_ms : ℕ
  pub max_artifact_bytes : ℕ
  pub artifact_chunk_bytes : ℕ
  pub max_measure_config_bytes : ℕ
  pub max_engine_metadata_bytes : ℕ
  pub max_samples_per_subject : ℕ
  pub max_telemetry_samples : ℕ
  pub max_bounded_string_bytes : ℕ
  pub recoveries : List RecoveryDisposition

pub data CoordinatorCommand : Type 0 where
  welcome : AgentWelcome → CoordinatorCommand
  lease : MeasureLease → CoordinatorCommand
  -- The job and its lease; the reason is always the caller's deadline.
  cancel_lease : ℕ → ℕ → CoordinatorCommand
  -- `cancel_active`.
  drain : Bool → CoordinatorCommand

pub data AgentEvent : Type 0 where
  hello : AgentEvent
  -- The session, and the free slots that the agent reports.
  ready : WireId → ℕ → AgentEvent
  -- The session, the job and the lease.
  accepted rejected heartbeat : WireId → WireId → WireId → AgentEvent
  draining : WireId → AgentEvent
  empty : AgentEvent
