-- ===== src/MeasureService/Coordinator/Ledger/Durable.antt =====
-- What the receipts promise in every state that the coordinator reaches:
-- crates/gz-measure-service/src/coordinator.rs with receipt.rs.
use graphzero.Base.{ℕ, suc, ◌≡◌, true, none, some, [], ◌∷◌, length, arith}
use graphzero.Base.Assoc
use graphzero.Base.Sums.{length-remove}
use graphzero.Base.Result.{ok}
use graphzero.MeasureService.Receipts
use graphzero.MeasureService.Receipts.{
  ReceiptLedger, memory, file, ReceiptState, missing, identical, conflict,
}
use graphzero.MeasureService.Coordinator.{CommandChannel, CoordinatorConfig, Job, CoordinatorState}
use graphzero.MeasureService.Coordinator.Handlers.{Hashes}
use graphzero.MeasureService.Coordinator.Invariant.{Inv}
use graphzero.MeasureService.Coordinator.Ledger.{Room, Accounts}
use graphzero.MeasureService.Coordinator.Ledger.Connections.{
  connect-Keeps, reap_expired-Keeps, disconnect-Keeps, handle_agent_event-Keeps, drain_agents-Keeps,
}
use graphzero.MeasureService.Coordinator.Invariant.Reachable.{
  Step, submitted, canceled, drained, reaped, connected, disconnected, notified, reported,
  Reachable, started, stepped, opened, empty_state, Reachable-Inv,
}
use graphzero.MeasureService.Coordinator.Ledger.Follows.{
  Follows, Follows-Keeps, cancel_job-Follows, submit_result-Follows, enqueue-Follows,
}

commit-fresh :
    (ledger : ReceiptLedger) (n j digest : ℕ)
    → Assoc.lookup j (Receipts.receipts ledger) ≡ none
    → Room ledger (suc n)
    → Receipts.commit ledger j digest (ok tt) ≡ ok (missing, Receipts.add ledger j digest)
unfolding Receipts.commit Receipts.refusal
commit-fresh (memory limit entries) n j digest h room = ground (arith, h, room)
commit-fresh (file entries) n j digest h room = ground (arith, h)

module _ {Tx : Type 0} ⦃channel : CommandChannel Tx⦄ (config : CoordinatorConfig) (h : Hashes) where
  step-Follows : (s t : CoordinatorState Tx) → Step config h s t → Inv s → Accounts s → Follows s t
  step-Follows _ _ (submitted s now draws submission nonce reply) v a =
      enqueue-Follows config h now draws s submission nonce reply a
  step-Follows _ _ (canceled s job_id) v a = cancel_job-Follows s job_id v.maps a
  step-Follows _ _ (drained s) v a = Follows-Keeps s _ (drain_agents-Keeps s) a
  step-Follows _ _ (reaped s now draws) v a =
      Follows-Keeps s _ (reap_expired-Keeps config now draws s) a
  step-Follows _ _ (connected s enrollment now profile_hash session_id tx peer greeting) v a =
      Follows-Keeps s _
        (connect-Keeps config enrollment now profile_hash session_id tx s peer greeting) a
  step-Follows _ _ (disconnected s now draws device_id session_id) v a =
      Follows-Keeps s _ (disconnect-Keeps config now draws s device_id session_id) a
  step-Follows _ _ (notified s now draws device_id session_id event) v a =
      Follows-Keeps s _ (handle_agent_event-Keeps config now draws s device_id session_id event) a
  step-Follows _ _ (reported s now draws digest written peer control report) v a =
      submit_result-Follows config now draws digest written s peer control report v.maps a

  empty_state-Accounts :
      (ledger : ReceiptLedger) → opened ledger ≡ true → Accounts {Tx = Tx} (empty_state ledger)
  unfolding Assoc.lookup
  empty_state-Accounts (memory limit []) o = record {
    apart = λ k n. absurd (ground (arith, n));
    room = omega arith;
  }
  empty_state-Accounts (memory limit (entry ∷ entries)) o = absurd (ground (arith, o))
  empty_state-Accounts (file entries) o = record {
    apart = λ k n. absurd (ground (arith, n));
    room = tt;
  }

  Reachable-Accounts : (s : CoordinatorState Tx) → Reachable config h s → Accounts s
  Reachable-Accounts _ (started ledger o) = empty_state-Accounts ledger o
  Reachable-Accounts _ (stepped s t r step) =
      (step-Follows s t step (Reachable-Inv config h s r) (Reachable-Accounts s r)).accounts

  -- In every state that the coordinator reaches, the commit of a report of a job that it knows is
  -- never refused for want of room, and never finds a receipt of the job: where the write of the
  -- record succeeds, the receipt is added.
  pub commit_has_room :
      (s : CoordinatorState Tx) (j digest : ℕ) (job : Job)
      → Reachable config h s
      → Assoc.lookup j s.jobs ≡ some job
      → Receipts.commit s.receipts j digest (ok tt) ≡ ok (missing, Receipts.add s.receipts j digest)
  commit_has_room s j digest job r e =
      let a = Reachable-Accounts s r in
      let v = Reachable-Inv config h s r in
      commit-fresh s.receipts (length (Assoc.remove j s.jobs)) j digest
        (a.apart j (ground (arith, e))) (rw (length-remove j job s.jobs v.maps e) a.room)

  -- A receipt outlasts every later call, event, connection, disconnection and timer tick: the job
  -- keeps the digest of the report that was committed for it.
  pub receipt_lasts :
      (s t : CoordinatorState Tx) (j digest : ℕ)
      → Reachable config h s
      → Step config h s t
      → Assoc.lookup j (Receipts.receipts s.receipts) ≡ some digest
      → Assoc.lookup j (Receipts.receipts t.receipts) ≡ some digest
  receipt_lasts s t j digest r step e =
      (step-Follows s t step (Reachable-Inv config h s r) (Reachable-Accounts s r)).durable j digest
        e
