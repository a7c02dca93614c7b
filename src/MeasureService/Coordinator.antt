-- ===== src/MeasureService/Coordinator.antt =====
-- crates/gz-measure-service/src/coordinator.rs: the state of the coordinator. Its mutex is held for
-- a whole operation, so each operation is a function on the state. Times are numbers of one clock
-- (nanoseconds); what an operation reads from the clock or draws at random is its argument.
pub mod Artifacts
pub mod Sessions
pub mod Schedule
pub mod Validate
pub mod Handlers
pub mod Connect
pub mod Results
pub mod View
pub mod Invariant
pub mod Ledger
pub mod Storage
pub mod DataPlane
pub mod Reporting
pub mod Resubmission
use graphzero.Base.{
  ℕ, ◌-◌, ◌/◌, min, u64_mod, Bool, true, false, Option, none, some, List, [], ◌∷◌, if◌then◌else◌,
  ◌==◌,
}
use graphzero.MeasureService.Protocol.{
  EngineCapability, MeasureSubmission, ArtifactDescriptor, CoordinatorCommand,
}
use graphzero.MeasureService.Receipts.{ReceiptLedger}

-- The sending half of an agent's command channel (tokio's `mpsc::Sender`), which is not modelled:
-- `try_send` gives the channel with the command in it, or fails where it is full or closed.
pub record CommandChannel (Tx : Type 0) : Type 0 where
  pub try_send : Tx → CoordinatorCommand → Option Tx

pub record CoordinatorConfig : Type 0 where
  pub queue_capacity : ℕ
  pub artifact_item_capacity : ℕ
  pub artifact_byte_capacity : ℕ
  pub receipt_capacity : ℕ
  pub command_capacity : ℕ
  pub max_artifact_bytes : ℕ
  pub artifact_chunk_bytes : ℕ
  pub max_measure_config_bytes : ℕ
  pub max_engine_metadata_bytes : ℕ
  pub max_samples_per_subject : ℕ
  pub max_telemetry_samples : ℕ
  pub heartbeat_interval : ℕ
  pub accept_timeout : ℕ
  pub lease_duration : ℕ

-- `duration_ms`: whole milliseconds, and the greatest `u64` where they do not fit.
unfoldable pub duration_ms : ℕ → ℕ
duration_ms duration = min (duration / 1000000) (u64_mod - 1)

pub record ActiveLease : Type 0 where
  pub device_id : ℕ
  pub current_session_id : ℕ
  pub origin_session_id : ℕ
  pub lease_id : ℕ
  pub deadline : ℕ

pub data JobState : Type 0 where
  queued : JobState
  offered running : ActiveLease → JobState

-- `reply` is the caller's one-shot channel, by a number of its own.
pub record Job : Type 0 where
  pub submission : MeasureSubmission
  pub descriptors : List ArtifactDescriptor
  pub measurement_key : ℕ
  pub request_nonce : ℕ
  pub reply : Option ℕ
  pub state : JobState
  pub recovery : Option ActiveLease

-- `active` maps a job to its lease.
pub record AgentSession (Tx : Type 0) : Type 0 where
  pub session_id : ℕ
  pub profile_hash : ℕ
  pub capabilities : List EngineCapability
  pub command_tx : Tx
  pub peer_fingerprint : Option ℕ
  pub slot_capacity : ℕ
  pub free_slots : ℕ
  pub draining : Bool
  pub active : List (ℕ × ℕ)

pub record ArtifactRecord : Type 0 where
  pub bytes : List ℕ
  pub references : ℕ

pub record CoordinatorState (Tx : Type 0) : Type 0 where
  pub agents : List (ℕ × AgentSession Tx)
  pub jobs : List (ℕ × Job)
  pub queue : List ℕ
  pub artifacts : List (ℕ × ArtifactRecord)
  pub artifact_bytes : ℕ
  pub receipts : ReceiptLedger

-- `queue.contains`.
unfoldable pub is_queued : ℕ → List ℕ → Bool
is_queued id [] = false
is_queued id (x ∷ xs) = let later = is_queued id xs in if x == id then true else later

-- `position` and `queue.remove`: the first occurrence goes.
unfoldable pub unqueue : ℕ → List ℕ → List ℕ
unqueue id [] = []
unqueue id (x ∷ xs) = let later = unqueue id xs in if x == id then xs else x ∷ later

abbrev pub is_lease : Option ℕ → ℕ → Bool
is_lease none lease_id = false
is_lease (some held) lease_id = held == lease_id
