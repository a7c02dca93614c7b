-- ===== src/MeasureService/Coordinator/Results.antt =====
-- crates/gz-measure-service/src/coordinator.rs: the data plane, by which an agent fetches artifacts
-- and submits its report.
use graphzero.Base.{
  take, skip, ℕ, zero, suc, ◌+◌, Bool, false, ◌||◌, Option, none, some, List, [], ◌∷◌, ◌==◌, leb,
  length,
}
use graphzero.Base.Assoc
use graphzero.Base.Result.{Result, ok, err, ◌>>=◌, ◌>>◌, guard, ok_or}
use graphzero.MeasureService.Protocol.{
  ServiceError, WireId, from_slice, MeasureReport, CommittedMeasurement, ArtifactDescriptor,
}
use graphzero.MeasureService.Receipts
use graphzero.MeasureService.Receipts.{ReceiptState, missing, identical, conflict}
use graphzero.MeasureService.Coordinator.{
  CommandChannel, CoordinatorConfig, Job, AgentSession, ArtifactRecord, CoordinatorState, unqueue,
}
use graphzero.MeasureService.Coordinator.Sessions.{release_all}
use graphzero.MeasureService.Coordinator.Schedule.{schedule}
use graphzero.MeasureService.Coordinator.Validate.{
  Status, invalid_argument, permission_denied, not_found, data_loss, as_status,
  authenticate_session, validate_active_lease, validate_report,
}

pub data ResultDisposition : Type 0 where
  job_committed already_committed invalid_report : ResultDisposition

-- What the agent is told (it may delete its report), and the reply that the caller is sent.
pub record Submitted : Type 0 where
  pub disposition : ResultDisposition
  pub reply : Option (ℕ × CommittedMeasurement)

abbrev pub told : ResultDisposition → Submitted
told d = record { disposition = d; reply = none }

unfoldable pub has_digest : ℕ → List ArtifactDescriptor → Bool
has_digest digest [] = false
has_digest digest (d ∷ ds) = d.digest == digest || has_digest digest ds

-- The chunks of a stream, each with its offset: `(offset..len).step_by(chunk_bytes)`, with the
-- length of the bytes as fuel.
unfoldable pub chunks_from : ℕ → ℕ → ℕ → List ℕ → List (ℕ × List ℕ)
unfolding skip take
chunks_from zero chunk_bytes offset bytes = []
chunks_from (suc fuel) chunk_bytes offset [] = []
chunks_from (suc fuel) chunk_bytes offset (b ∷ bytes) =
    (offset, take chunk_bytes (b ∷ bytes))
    ∷ chunks_from fuel chunk_bytes (offset + chunk_bytes) (skip chunk_bytes (b ∷ bytes))

abbrev pub reply_to : Option ℕ → CommittedMeasurement → Option (ℕ × CommittedMeasurement)
reply_to none committed = none
reply_to (some caller) committed = some (caller, committed)

module _ {Tx : Type 0} where
  -- The part of `fetch_artifact` that holds the lock: the bytes of an artifact of a leased job.
  unfoldable pub leased_artifact :
      CoordinatorState Tx → Option ℕ → ℕ → ℕ → ℕ → ℕ → Result Status ArtifactRecord
  unfolding has_digest
  leased_artifact s peer_fingerprint session_id job_id lease_id digest = do
    agent ← authenticate_session s session_id peer_fingerprint
    job ← ok_or (Assoc.lookup job_id s.jobs) (not_found "unknown job")
    validate_active_lease job_id job agent lease_id
    guard (has_digest digest job.descriptors)
        (permission_denied "artifact is not authorized for this lease")
    ok_or (Assoc.lookup digest s.artifacts) (data_loss "leased artifact is missing")

  -- `fetch_artifact`: the chunks of the artifact from an offset on.
  unfoldable pub fetch_artifact :
      CoordinatorConfig
      → CoordinatorState Tx
      → Option ℕ
      → WireId
      → WireId
      → WireId
      → WireId
      → ℕ
      → Result Status (List (ℕ × List ℕ))
  unfolding leased_artifact chunks_from
  fetch_artifact config s peer_fingerprint session job lease artifact offset = do
    session_id ← as_status (from_slice session)
    job_id ← as_status (from_slice job)
    lease_id ← as_status (from_slice lease)
    digest ← as_status (from_slice artifact)
    stored ← leased_artifact s peer_fingerprint session_id job_id lease_id digest
    guard (leb offset (length stored.bytes)) (invalid_argument "artifact offset exceeds size")
    ok (
        chunks_from (length stored.bytes) config.artifact_chunk_bytes offset
          (skip offset stored.bytes))

module _ {Tx : Type 0} ⦃channel : CommandChannel Tx⦄ where
  abbrev pub without_lease : CoordinatorState Tx → ℕ → ℕ → List (ℕ × AgentSession Tx)
  without_lease s device_id job_id = elim (Assoc.lookup device_id s.agents) [
    | none ↦ s.agents
    | some agent ↦
        Assoc.insert device_id (record agent { active = Assoc.remove job_id agent.active }) s.agents
  ]

  -- A job with a committed report leaves the coordinator.
  unfoldable pub complete_job : CoordinatorState Tx → ℕ → ℕ → Job → CoordinatorState Tx
  unfolding release_all
  complete_job s device_id job_id job =
      release_all
        (record s {
          jobs = Assoc.remove job_id s.jobs;
          queue = unqueue job_id s.queue;
          agents = without_lease s device_id job_id;
        })
        job.descriptors

  -- The report is valid: its receipt is committed, then the job completes.
  unfoldable pub commit_result :
      CoordinatorConfig
      → ℕ
      → (ℕ → ℕ)
      → CoordinatorState Tx
      → ℕ
      → ℕ
      → Job
      → MeasureReport
      → ℕ
      → Result ServiceError (Unit {0})
      → CoordinatorState Tx × Result Status Submitted
  unfolding complete_job
  commit_result config now draws s device_id job_id job report digest written =
      elim (Receipts.commit s.receipts job_id digest written) [
        | err e ↦ (s, as_status (err e))
        | ok (outcome, receipts) ↦ elim outcome [
          | identical ↦ (s, ok (told already_committed))
          | conflict ↦ (s, ok (told invalid_report))
          | missing ↦ (
            schedule config now draws
                (complete_job (record s { receipts = receipts }) device_id job_id job),
            ok (record {
              disposition = job_committed;
              reply = reply_to job.reply (record { job_id = job_id; report = report });
            }),
          )
        ]
      ]

  -- What `submit_result` checks of a report before it looks at the receipts.
  unfoldable pub admit_report :
      CoordinatorState Tx
      → Option ℕ
      → WireId
      → Option MeasureReport
      → Result Status (ℕ × MeasureReport × ℕ × ℕ × (ℕ × AgentSession Tx))
  admit_report s peer_fingerprint session maybe_report = do
    current_session ← as_status (from_slice session)
    report ← ok_or maybe_report (invalid_argument "measure report is required")
    job_id ← as_status (from_slice report.job_id)
    lease_id ← as_status (from_slice report.lease_id)
    agent ← authenticate_session s current_session peer_fingerprint
    device_id ← as_status (from_slice report.device_id)
    guard (device_id == agent.0) (permission_denied "report device identity mismatch")
    ok (current_session, report, job_id, lease_id, agent)

  -- `submit_result`. `digest` hashes a report; `written` is what the write of its record gives.
  unfoldable pub submit_result :
      CoordinatorConfig
      → ℕ
      → (ℕ → ℕ)
      → (MeasureReport → ℕ)
      → Result ServiceError (Unit {0})
      → CoordinatorState Tx
      → Option ℕ
      → WireId
      → Option MeasureReport
      → CoordinatorState Tx × Result Status Submitted
  unfolding commit_result admit_report
  submit_result config now draws digest written s peer_fingerprint session maybe_report =
      elim (admit_report s peer_fingerprint session maybe_report) [
        | err e ↦ (s, err e)
        | ok (current_session, report, job_id, lease_id, agent) ↦
            elim (Receipts.state s.receipts job_id (digest report)) [
              | identical ↦ (s, ok (told already_committed))
              | conflict ↦ (s, ok (told invalid_report))
              | missing ↦ elim (Assoc.lookup job_id s.jobs) [
                | none ↦ (s, err (not_found "unknown job"))
                | some job ↦
                    elim (validate_report config job_id job agent current_session lease_id report) [
                      | err e ↦ (s, err e)
                      | ok u ↦
                          commit_result config now draws s agent.0 job_id job report (digest report)
                            written
                    ]
              ]
            ]
      ]
