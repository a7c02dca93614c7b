-- ===== src/MeasureService/Coordinator/Invariant/Reachable.antt =====
-- Every state that a coordinator can be in has the invariant:
-- crates/gz-measure-service/src/coordinator.rs, `Coordinator` and its service.
use graphzero.Base.{ℕ, ◌≡◌, refl, Bool, true, false, Option, some, [], ◌∷◌, arith}
use graphzero.Base.Assoc
use graphzero.Base.Result.{Result}
use graphzero.MeasureService.Protocol.{
  ServiceError, WireId, MeasureReport, MeasureSubmission, AgentEvent,
}
use graphzero.MeasureService.Receipts.{ReceiptLedger, memory, file}
use graphzero.MeasureService.Coordinator.{CommandChannel, CoordinatorConfig, CoordinatorState}
use graphzero.MeasureService.Coordinator.Sessions.{cancel_job, drain_agents}
use graphzero.MeasureService.Coordinator.Handlers.{
  Hashes, enqueue, reap_expired, disconnect, handle_agent_event,
}
use graphzero.MeasureService.Coordinator.Connect.{Enrollment, DeviceProfile, AgentHello, connect}
use graphzero.MeasureService.Coordinator.Results.{submit_result}
use graphzero.MeasureService.Coordinator.View.{count, held}
use graphzero.MeasureService.Coordinator.Invariant.{Inv}
use graphzero.MeasureService.Coordinator.Invariant.Departures.{cancel_job-Inv, drain_agents-Inv}
use graphzero.MeasureService.Coordinator.Invariant.Connection.{connect-Inv}
use graphzero.MeasureService.Coordinator.Invariant.Handlers.{
  enqueue-Inv, reap_expired-Inv, disconnect-Inv,
}
use graphzero.MeasureService.Coordinator.Invariant.Events.{handle_agent_event-Inv}
use graphzero.MeasureService.Coordinator.Invariant.Reports.{submit_result-Inv}

-- A ledger in memory is opened empty, one in a file with the entries of its log.
abbrev pub opened : ReceiptLedger → Bool
opened (memory limit []) = true
opened (memory limit (entry ∷ entries)) = false
opened (file entries) = true

-- The state of `Coordinator::new`, over a ledger that was opened.
abbrev pub empty_state : {Tx : Type 0} → ReceiptLedger → CoordinatorState Tx
empty_state ledger = record {
  agents = [];
  jobs = [];
  queue = [];
  artifacts = [];
  artifact_bytes = 0;
  receipts = ledger;
}

module _ {Tx : Type 0} ⦃channel : CommandChannel Tx⦄ (config : CoordinatorConfig) (h : Hashes) where
  -- One critical section of the coordinator: a call of its handle, a request of an agent, an event
  -- of its stream, the end of the stream, or the timer. Each may come at any time, in any state.
  pub data Step : CoordinatorState Tx → CoordinatorState Tx → Type 0 where
    submitted :
        (s : CoordinatorState Tx) (now : ℕ) (draws : ℕ → ℕ) (submission : MeasureSubmission)
        (nonce reply : ℕ)
        → Step s (enqueue config h now draws s submission nonce reply).0
    canceled : (s : CoordinatorState Tx) (job_id : ℕ) → Step s (cancel_job s job_id)
    drained : (s : CoordinatorState Tx) → Step s (drain_agents s)
    reaped :
        (s : CoordinatorState Tx) (now : ℕ) (draws : ℕ → ℕ)
        → Step s (reap_expired config now draws s)
    connected :
        (s : CoordinatorState Tx) (enrollment : Enrollment) (now : ℕ)
        (profile_hash : DeviceProfile → ℕ) (session_id : ℕ) (tx : Tx) (peer : Option ℕ)
        (greeting : AgentHello)
        → Step s (connect config enrollment now profile_hash session_id tx s peer greeting).0
    disconnected :
        (s : CoordinatorState Tx) (now : ℕ) (draws : ℕ → ℕ) (device_id session_id : ℕ)
        → Step s (disconnect config now draws s device_id session_id)
    notified :
        (s : CoordinatorState Tx) (now : ℕ) (draws : ℕ → ℕ) (device_id session_id : ℕ)
        (event : AgentEvent)
        → Step s (handle_agent_event config now draws s device_id session_id event).0
    reported :
        (s : CoordinatorState Tx) (now : ℕ) (draws : ℕ → ℕ) (digest : MeasureReport → ℕ)
        (written : Result ServiceError (Unit {0})) (peer : Option ℕ) (control : WireId)
        (report : Option MeasureReport)
        → Step s (submit_result config now draws digest written s peer control report).0

  pub data Reachable : CoordinatorState Tx → Type 0 where
    started : (ledger : ReceiptLedger) → opened ledger ≡ true → Reachable (empty_state ledger)
    stepped : (s t : CoordinatorState Tx) → Reachable s → Step s t → Reachable t

  empty_state-Inv : (ledger : ReceiptLedger) → Inv {Tx = Tx} (empty_state ledger)
  unfolding Assoc.lookup
  empty_state-Inv ledger = record {
    maps = tt;
    agent_maps = tt;
    queued = λ k. refl;
    recovery = λ k. refl;
    agreed = λ d k. refl;
    current = λ k a e. absurd (ground (arith, e));
  }

  step-Inv : (s t : CoordinatorState Tx) → Step s t → Inv s → Inv t
  step-Inv _ _ (submitted s now draws submission nonce reply) v =
      enqueue-Inv config h now draws s submission nonce reply v
  step-Inv _ _ (canceled s job_id) v = cancel_job-Inv s job_id v
  step-Inv _ _ (drained s) v = drain_agents-Inv s v
  step-Inv _ _ (reaped s now draws) v = reap_expired-Inv config now draws s v
  step-Inv _ _ (connected s enrollment now profile_hash session_id tx peer greeting) v =
      connect-Inv config enrollment now profile_hash session_id tx s peer greeting v
  step-Inv _ _ (disconnected s now draws device_id session_id) v =
      disconnect-Inv config now draws s device_id session_id v
  step-Inv _ _ (notified s now draws device_id session_id event) v =
      handle_agent_event-Inv config now draws s device_id session_id event v
  step-Inv _ _ (reported s now draws digest written peer control report) v =
      submit_result-Inv config now draws digest written s peer control report v

  -- In every state that the coordinator reaches, by any sequence of calls, events, connections,
  -- disconnections and timer ticks at any times: jobs and agents have unique ids; the queue holds
  -- exactly the jobs that are neither offered nor running, each once; a lease is kept for recovery
  -- only while its job is queued; an agent holds a lease of a job exactly where the job is leased to
  -- its device, under that id; and a leased job names the current session of its device.
  pub Reachable-Inv : (s : CoordinatorState Tx) → Reachable s → Inv s
  Reachable-Inv _ (started ledger o) = empty_state-Inv ledger
  Reachable-Inv _ (stepped s t r step) = step-Inv s t step (Reachable-Inv s r)

  -- In every state that the coordinator reaches, a job is held by at most one agent, and a job that
  -- an agent holds is not in the queue.
  pub held_once :
      (s : CoordinatorState Tx) (d e j l m : ℕ)
      → Reachable s
      → held s d j ≡ some l
      → held s e j ≡ some m
      → (d ≡ e) × (l ≡ m) × (count j s.queue ≡ 0)
  held_once s d e j l m r hd he =
      let v = Reachable-Inv s r in ground (arith, v.agreed d j, v.agreed e j, v.queued j, hd, he)
