-- ===== src/Tests/Coordinator.antt =====
-- crates/gz-measure-service/src/coordinator.rs at concrete inputs: an agent connects, reports a free
-- slot, is offered a job, accepts it and submits its report.
use graphzero.Base.{
  length, ◌≤◌, skip, take, ℕ, zero, suc, ◌+◌, ◌<◌, ◌≡◌, refl, true, false, none, some, List, [],
  ◌∷◌,
}
use graphzero.Base.Assoc
use graphzero.MeasureService.Coordinator.{duration_ms, ArtifactRecord}
use graphzero.MeasureService.Coordinator.Ledger.{named}
use graphzero.MeasureService.Coordinator.Storage.{refs, total}
use graphzero.MeasureService.Coordinator.Storage.Always.{artifacts_lem}
use graphzero.Base.Result.{ok}
use graphzero.MeasureService.Protocol.{
  WireEngineIdentity, MeasureSubmission, MeasureReport, single, binary, ready, accepted,
  engine_identity_from_wire, artifact_format,
}
use graphzero.MeasureService.Receipts
use graphzero.MeasureService.Receipts.{ReceiptLedger, memory, missing}
use graphzero.MeasureService.Coordinator.{
  CommandChannel, CoordinatorConfig, CoordinatorState, AgentSession, Job, running, is_queued,
  unqueue,
}
use graphzero.MeasureService.Coordinator.Validate.{
  status_for_error, all_positive, all_fit, validate_submission, find_session, authenticate_session,
  validate_active_lease, validate_agent_lease_ids, check_subjects, check_samples, any_bad_reward,
  any_reward, check_outcome, running_lease, validate_report,
}
use graphzero.MeasureService.Coordinator.Sessions.{
  expired, requeue_job, end_lease, requeue_active, requeue_all, expire_leases, requeue_session,
  remove_agent_session, release_all, cancel_at_agent, cancel_job,
}
use graphzero.MeasureService.Coordinator.Handlers.{
  artifact_descriptors, enqueue_job, admit_job, enqueue, run_job, set_agent, handle_event,
  handle_agent_event, Hashes,
}
use graphzero.MeasureService.Coordinator.DataPlane.{joined, Served, fetch_artifact_sound}
use graphzero.MeasureService.Coordinator.Connect.{
  texts_fit, validate_profile, check_capabilities, check_recoveries, validate_hello,
  authenticate_enrollment, rebind, reconcile_recoveries, admit_hello, register, welcome_message,
  connect, Enrollment, insecure_for_tests, AgentHello,
}
use graphzero.MeasureService.Coordinator.Artifacts.{
  bytes_eq, request_one, request_all, count_new, store_one, store_all, admit, retain_artifacts,
  release_artifact,
}
use graphzero.MeasureService.Coordinator.Schedule.{
  has_format, has_formats, capability_matches, lease_subjects, lease_command, agent_matches,
  find_agent, find_assignment, total_free, assign, round, schedule_from, schedule,
}
use graphzero.MeasureService.Coordinator.Results.{
  has_digest, chunks_from, leased_artifact, fetch_artifact, complete_job, commit_result,
  admit_report, submit_result, job_committed, Submitted,
}
use graphzero.MeasureService.Coordinator.View.{count, held}
use graphzero.MeasureService.Coordinator.Invariant.{Inv}
use graphzero.MeasureService.Coordinator.Invariant.Termination.{schedule_settles}
use graphzero.MeasureService.Coordinator.Invariant.Reachable.{
  submitted, canceled, connected, notified, reported, Reachable, started, stepped, empty_state,
  Reachable-Inv, held_once,
}
use graphzero.MeasureService.Coordinator.Ledger.Durable.{commit_has_room, receipt_lasts}
use graphzero.MeasureService.Coordinator.Reporting.{committed_by_holder, HolderCommits}

instance room_channel : CommandChannel ℕ
room_channel = record {
  try_send = λ room command. elim room [ zero ↦ none | suc left ↦ some left ];
}

abbrev config : CoordinatorConfig
config = record {
  queue_capacity = 4;
  artifact_item_capacity = 4;
  artifact_byte_capacity = 100;
  receipt_capacity = 4;
  command_capacity = 4;
  max_artifact_bytes = 10;
  artifact_chunk_bytes = 2;
  max_measure_config_bytes = 10;
  max_engine_metadata_bytes = 10;
  max_samples_per_subject = 4;
  max_telemetry_samples = 4;
  heartbeat_interval = 10;
  accept_timeout = 100;
  lease_duration = 1000;
}

abbrev hashes : Hashes
hashes = record {
  artifact_digest = λ kind format bytes. 77;
  measurement_key = λ submission descriptors. 88;
  job_id = λ key nonce. key + nonce;
}

abbrev engine : WireEngineIdentity
engine = record { engine_id = some 1; engine_version = some 2; action_set_hash = some 3 }

abbrev submission : MeasureSubmission
submission = record {
  kind = single;
  engine = record { engine_id = 1; engine_version = 2; action_set_hash = 3 };
  subjects = record { graph_hash = 9; format = binary; bytes = 1 ∷ 2 ∷ 3 ∷ [] } ∷ [];
  config_hash = 5;
  timeout_ms = none;
  measure_config = record { encoding = 1; payload = [] };
  target_device_profile_hash = 7;
}

abbrev greeting : AgentHello
greeting = record {
  protocol_major = 1;
  protocol_minor = 1;
  device_id = some 3;
  agent_build = 4;
  profile = some (record {
    texts = 2 ∷ [];
    operating_system_image_digest = some 1;
    agent_image_digest = some 1;
    measurement_protocol_version = 1;
  });
  capabilities =
      record {
        engine = some engine;
        artifact_formats = record { format_kind = 4; adapter_format_id = 0 } ∷ [];
        measure_config_encodings = 1 ∷ [];
        measurement_protocol_versions = 1 ∷ [];
      }
      ∷ [];
  recoveries = [];
  job_slots = 2;
}

abbrev report : MeasureReport
report = record {
  origin_session_id = some 40;
  device_id = some 3;
  device_profile_hash = some 7;
  job_id = some 88;
  measurement_key = some 88;
  request_nonce = some 0;
  lease_id = some 60;
  engine = some engine;
  measure_config_hash = some 5;
  kind = 1;
  outcome = 1;
  subjects =
      record {
        logical_index = 0;
        graph_hash = some 9;
        scalar_reward = some true;
        engine_metadata = [];
      }
      ∷ [];
  samples = record { schedule_index = 0; logical_index = 0; subject_sample_index = 0 } ∷ [];
  telemetry = 0;
  failure = none;
}

abbrev ledger : ReceiptLedger
ledger = memory 4 []

abbrev enrollment : Enrollment
enrollment = insecure_for_tests (3 ∷ [])

abbrev draws : ℕ → ℕ
draws n = 60 + n

abbrev waiting_state : CoordinatorState ℕ
waiting_state = (enqueue config hashes 0 draws (empty_state ledger) submission 0 1).0

abbrev connected_state : CoordinatorState ℕ
connected_state = (connect config enrollment 1 (λ profile. 7) 40 5 waiting_state none greeting).0

abbrev offered_state : CoordinatorState ℕ
offered_state = (handle_agent_event config 2 draws connected_state 3 40 (ready (some 40) 1)).0

abbrev running_state : CoordinatorState ℕ
running_state =
    (handle_agent_event config 3 draws offered_state 3 40
      (accepted (some 40) (some 88) (some 60))).0

abbrev committed_state : CoordinatorState ℕ
committed_state =
    (submit_result config 4 draws (λ report. 99) (ok tt) running_state none (some 40)
      (some report)).0

waiting_reached : Reachable config hashes waiting_state
waiting_reached =
    stepped (empty_state ledger) waiting_state (started ledger refl)
      (submitted (empty_state ledger) 0 draws submission 0 1)

connected_reached : Reachable config hashes connected_state
connected_reached =
    stepped waiting_state connected_state waiting_reached
      (connected waiting_state enrollment 1 (λ profile. 7) 40 5 none greeting)

offered_reached : Reachable config hashes offered_state
offered_reached =
    stepped connected_state offered_state connected_reached
      (notified connected_state 2 draws 3 40 (ready (some 40) 1))

running_reached : Reachable config hashes running_state
running_reached =
    stepped offered_state running_state offered_reached
      (notified offered_state 3 draws 3 40 (accepted (some 40) (some 88) (some 60)))

committed_reached : Reachable config hashes committed_state
committed_reached =
    stepped running_state committed_state running_reached
      (reported running_state 4 draws (λ report. 99) (ok tt) none (some 40) (some report))

abbrev running_job : Job
running_job = record {
  submission = submission;
  descriptors = record { digest = 77; size = 3; format_kind = 4; adapter_format_id = 0 } ∷ [];
  measurement_key = 88;
  request_nonce = 0;
  reply = some 1;
  state = running (record {
    device_id = 3;
    current_session_id = 40;
    origin_session_id = 40;
    lease_id = 60;
    deadline = 1003;
  });
  recovery = none;
}

abbrev committed_agent : AgentSession ℕ
committed_agent = record {
  session_id = 40;
  profile_hash = 7;
  capabilities = greeting.capabilities;
  command_tx = 3;
  peer_fingerprint = none;
  slot_capacity = 2;
  free_slots = 0;
  draining = false;
  active = [];
}

abbrev outcome : Submitted
outcome = record {
  disposition = job_committed;
  reply = some (1, record { job_id = 88; report = report });
}

abbrev fetched : List (ℕ × List ℕ)
fetched = (1, 2 ∷ 3 ∷ []) ∷ []

-- What the operations compute in this run.
computed :
    (held running_state 3 88 ≡ some 60)
    × (Assoc.lookup 88 running_state.jobs ≡ some running_job)
    × (Assoc.lookup 88 (Receipts.receipts committed_state.receipts) ≡ some 99)
    × (admit_report committed_state none (some 40) (some report)
        ≡ ok (40, report, 88, 60, (3, committed_agent)))
    × ((submit_result config 4 draws
          (λ report. 99)
          (ok tt)
          running_state
          none
          (some 40)
          (some report)).1
        ≡ ok outcome)
    × (fetch_artifact config running_state none (some 40) (some 88) (some 60) (some 77) 1
        ≡ ok fetched)
unfolding engine_identity_from_wire artifact_format Receipts.can_admit Receipts.state
    Receipts.contains Receipts.add Receipts.refusal Receipts.commit is_queued unqueue
    status_for_error all_positive all_fit validate_submission find_session authenticate_session
    validate_active_lease validate_agent_lease_ids check_subjects check_samples any_bad_reward
    any_reward check_outcome running_lease validate_report expired requeue_job end_lease
    requeue_active requeue_all expire_leases requeue_session remove_agent_session release_all
    cancel_at_agent cancel_job artifact_descriptors enqueue_job admit_job enqueue run_job set_agent
    handle_event handle_agent_event joined texts_fit validate_profile check_capabilities
    check_recoveries validate_hello authenticate_enrollment rebind reconcile_recoveries admit_hello
    register welcome_message duration_ms connect bytes_eq request_one request_all count_new
    store_one store_all admit retain_artifacts release_artifact has_format has_formats
    capability_matches lease_subjects lease_command agent_matches find_agent find_assignment
    total_free assign round schedule_from schedule has_digest skip take chunks_from leased_artifact
    fetch_artifact complete_job commit_result admit_report submit_result Assoc.lookup Assoc.insert
    Assoc.remove Assoc.insert_sorted room_channel
computed = (refl, refl, refl, refl, refl, refl)

Reachable-Inv_example : Inv running_state
Reachable-Inv_example = Reachable-Inv config hashes running_state running_reached

held_once_example :
    let three : ℕ = 3 in
    let sixty : ℕ = 60 in (three ≡ three) × (sixty ≡ sixty) × (count 88 running_state.queue ≡ 0)
held_once_example =
    held_once config hashes running_state 3 3 88 60 60 running_reached (computed.0) (computed.0)

schedule_settles_example :
    let t = schedule config 5 draws running_state in
    (find_assignment t.jobs t.agents t.queue ≡ none)
    × ((j d : ℕ) (job : Job) (agent : AgentSession ℕ)
        → 0 < count j t.queue
        → Assoc.lookup j t.jobs ≡ some job
        → Assoc.lookup d t.agents ≡ some agent
        → agent_matches agent job ≡ false)
schedule_settles_example =
    schedule_settles config 5 draws running_state
      (Reachable-Inv config hashes running_state running_reached)

commit_has_room_example :
    Receipts.commit running_state.receipts 88 99 (ok tt)
    ≡ ok (missing, Receipts.add running_state.receipts 88 99)
commit_has_room_example =
    commit_has_room config hashes running_state 88 99 running_job running_reached (computed.1)

receipt_lasts_example :
    Assoc.lookup 88 (Receipts.receipts (cancel_job committed_state 88).receipts) ≡ some 99
receipt_lasts_example =
    receipt_lasts config hashes committed_state (cancel_job committed_state 88) 88 99
      committed_reached (canceled committed_state 88) (computed.2)

committed_by_holder_example :
    HolderCommits config 4 draws
      (λ report. 99)
      (ok tt)
      running_state
      none
      (some 40)
      (some report)
      outcome
committed_by_holder_example =
    committed_by_holder config 4 draws (λ report. 99) (ok tt) running_state none (some 40)
      (some report) outcome (computed.4) refl

fetch_artifact_sound_example :
    Served config running_state none (some 40) (some 88) (some 60) (some 77) 1 fetched
fetch_artifact_sound_example =
    fetch_artifact_sound config 1 running_state none (some 40) (some 88) (some 60) (some 77) 1
      fetched refl (computed.5)

artifacts_lem_example :
    (length running_state.artifacts ≤ 4)
    × (running_state.artifact_bytes ≤ 100)
    × (running_state.artifact_bytes ≡ total running_state.artifacts)
    × ((g : ℕ) → refs (Assoc.lookup g running_state.artifacts) ≡ named g running_state.jobs)
    × ((j g : ℕ) (job : Job)
        → Assoc.lookup j running_state.jobs ≡ some job
        → has_digest g job.descriptors ≡ true
        → (stored : ArtifactRecord) × (Assoc.lookup g running_state.artifacts ≡ some stored))
artifacts_lem_example = artifacts_lem config hashes running_state running_reached
