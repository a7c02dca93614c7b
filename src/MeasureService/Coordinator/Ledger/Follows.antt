-- ===== src/MeasureService/Coordinator/Ledger/Follows.antt =====
-- What the operations that write the known jobs or the receipts do to both:
-- crates/gz-measure-service/src/coordinator.rs, `enqueue`, `cancel_job` and `submit_result`.
use graphzero.Base.{
  ℕ, ◌≡◌, refl, ◌∙◌, inl, inr, Option, none, some, List, length, arith, Option-cases,
}
use graphzero.Base.Assoc
use graphzero.Base.Sums.{IsMap}
use graphzero.Base.Result.{Result, ok, Result-cases}
use graphzero.MeasureService.Protocol.{
  ServiceError, WireId, MeasureSubmission, MeasureReport, ArtifactDescriptor, GraphArtifact,
}
use graphzero.MeasureService.Receipts
use graphzero.MeasureService.Receipts.{
  ReceiptLedger, memory, file, ReceiptState, missing, identical, conflict,
}
use graphzero.MeasureService.Coordinator.{
  CommandChannel, CoordinatorConfig, ActiveLease, Job, CoordinatorState, unqueue,
}
use graphzero.MeasureService.Coordinator.Sessions.{
  release_all, cancel_at_agent, cancel_job, lease_of, expire_leases,
}
use graphzero.MeasureService.Coordinator.Validate.{validate_submission, validate_report}
use graphzero.MeasureService.Coordinator.Handlers.{
  Hashes, artifact_descriptors, admit_job, enqueue_job, enqueue,
}
use graphzero.MeasureService.Coordinator.Results.{
  without_lease, complete_job, commit_result, admit_report, submit_result,
}
use graphzero.MeasureService.Coordinator.Invariant.Reports.{ReceiptState-cases}
use graphzero.MeasureService.Coordinator.Invariant.Handlers.{admit_job-admits}
use graphzero.MeasureService.Coordinator.Invariant.Parts.{release_all-SameView}
use graphzero.MeasureService.Coordinator.Ledger.{Keeps, Keeps-refl, Keeps-jobs, Accounts}
use graphzero.MeasureService.Coordinator.Ledger.Unchanged.{expire_leases-Keeps, schedule-Keeps}
use graphzero.MeasureService.Coordinator.Ledger.Accounting.{
  receipts-add, can_admit-Room, Keeps-Accounts, release_all-receipts, admit_job-accounts,
  removed-Accounts,
}

-- A commit that finds no receipt adds one.
pub commit_missing :
    (ledger after : ReceiptLedger) (j digest : ℕ) (written : Result ServiceError (Unit {0}))
    → Receipts.commit ledger j digest written ≡ ok (missing, after)
    → after ≡ Receipts.add ledger j digest
unfolding Receipts.commit
commit_missing ledger after j digest written h = ground (arith, h)

add-durable :
    (ledger : ReceiptLedger) (j digest k x : ℕ)
    → Assoc.lookup j (Receipts.receipts ledger) ≡ none
    → Assoc.lookup k (Receipts.receipts ledger) ≡ some x
    → Assoc.lookup k (Receipts.receipts (Receipts.add ledger j digest)) ≡ some x
add-durable ledger j digest k x n h =
    rw (receipts-add ledger j digest)
      (ground (arith, Assoc.lookup-insert j k digest (Receipts.receipts ledger), h, n))

-- The books stay in order, and no receipt is lost or changed.
pub record Follows {Tx : Type 0} (s t : CoordinatorState Tx) : Type 0 where
  pub accounts : Accounts t
  pub durable :
      (j x : ℕ)
      → Assoc.lookup j (Receipts.receipts s.receipts) ≡ some x
      → Assoc.lookup j (Receipts.receipts t.receipts) ≡ some x

pub Follows-Keeps : {Tx : Type 0} (s t : CoordinatorState Tx) → Keeps s t → Accounts s → Follows s t
Follows-Keeps s t k v = record {
  accounts = Keeps-Accounts s t k v;
  durable = λ j x h. rw (k.receipts) h;
}

Follows-Keeps_after :
    {Tx : Type 0} (s t u : CoordinatorState Tx) → Keeps t u → Follows s t → Follows s u
Follows-Keeps_after s t u k v = record {
  accounts = Keeps-Accounts t u k v.accounts;
  durable = λ j x h. rw (k.receipts) (v.durable j x h);
}

after_Keeps : {Tx : Type 0} (s t u : CoordinatorState Tx) → Keeps s t → Follows t u → Follows s u
after_Keeps s t u k v = record {
  accounts = v.accounts;
  durable = λ j x h. v.durable j x (rw (k.receipts) h);
}

module _ {Tx : Type 0} ⦃channel : CommandChannel Tx⦄ where
  pub cancel_at_agent-same :
      (s : CoordinatorState Tx) (j : ℕ) (o : Option ActiveLease)
      → ((cancel_at_agent s j o).jobs ≡ s.jobs) × ((cancel_at_agent s j o).receipts ≡ s.receipts)
  unfolding cancel_at_agent
  cancel_at_agent-same s j none = (refl, refl)
  cancel_at_agent-same s j (some a) = elim (Option-cases (Assoc.lookup a.device_id s.agents)) [
    | inl e ↦ rw (e, cancel_at_agent) (refl, refl)
    | inr (agent, e) ↦ rw (e, cancel_at_agent) (refl, refl)
  ]

  pub cancel_job-Follows :
      (s : CoordinatorState Tx) (j : ℕ) → IsMap s.jobs → Accounts s → Follows s (cancel_job s j)
  unfolding cancel_job
  cancel_job-Follows s j m v = elim (Option-cases (Assoc.lookup j s.jobs)) [
    | inl e ↦ rw (e, cancel_job) (Follows-Keeps s _ (Keeps-jobs s _ refl refl (refl, refl)) v)
    | inr (job, e) ↦
        let u : CoordinatorState Tx = record s {
          queue = unqueue j s.queue;
          jobs = Assoc.remove j s.jobs;
        } in
        let w = cancel_at_agent u j (lease_of job.state) in
        let same = cancel_at_agent-same u j (lease_of job.state) in
        let kept = release_all-receipts w job.descriptors ∙ same.1 in
        rw (e, cancel_job)
          (record {
            accounts =
                removed-Accounts s (release_all w job.descriptors) j job m e
                  ((release_all-SameView w job.descriptors).1 ∙ same.0) (inl kept) v;
            durable = λ k x h. rw kept h;
          })
  ]

  -- A job completes with its receipt.
  complete_job-Follows :
      (s : CoordinatorState Tx) (d j digest : ℕ) (job : Job) (receipts : ReceiptLedger)
      → receipts ≡ Receipts.add s.receipts j digest
      → IsMap s.jobs
      → Assoc.lookup j s.jobs ≡ some job
      → Accounts s
      → Follows s (complete_job (record s { receipts = receipts }) d j job)
  unfolding complete_job
  complete_job-Follows s d j digest job receipts r m h v =
      let u : CoordinatorState Tx = record s {
        receipts = receipts;
        jobs = Assoc.remove j s.jobs;
        queue = unqueue j s.queue;
        agents = without_lease (record s { receipts = receipts }) d j;
      } in
      let kept = release_all-receipts u job.descriptors ∙ r in
      record {
        accounts =
            removed-Accounts s (release_all u job.descriptors) j job m h
              ((release_all-SameView u job.descriptors).1) (inr (digest, kept)) v;
        durable = λ k x n.
            rw kept (add-durable s.receipts j digest k x (v.apart j (ground (arith, h))) n);
      }

  commit_result-Follows :
      (config : CoordinatorConfig) (now : ℕ) (draws : ℕ → ℕ) (s : CoordinatorState Tx) (d j : ℕ)
      (job : Job) (report : MeasureReport) (digest : ℕ) (written : Result ServiceError (Unit {0}))
      → IsMap s.jobs
      → Assoc.lookup j s.jobs ≡ some job
      → Accounts s
      → Follows s (commit_result config now draws s d j job report digest written).0
  unfolding commit_result
  commit_result-Follows config now draws s d j job report digest written m h v =
      let same = Follows-Keeps s s (Keeps-refl s) v in
      elim (Result-cases (Receipts.commit s.receipts j digest written)) [
        | inl (e, q) ↦ rw (q, commit_result) same
        | inr ((missing, receipts), q) ↦
            rw (q, commit_result)
              (Follows-Keeps_after s _ _ (schedule-Keeps config now draws _) (
                complete_job-Follows s d j digest job receipts
                  (commit_missing s.receipts receipts j digest written q) m h v))
        | inr ((identical, receipts), q) ↦ rw (q, commit_result) same
        | inr ((conflict, receipts), q) ↦ rw (q, commit_result) same
      ]

  pub submit_result-Follows :
      (config : CoordinatorConfig) (now : ℕ) (draws : ℕ → ℕ) (digest : MeasureReport → ℕ)
      (written : Result ServiceError (Unit {0})) (s : CoordinatorState Tx) (peer : Option ℕ)
      (control : WireId) (maybe_report : Option MeasureReport)
      → IsMap s.jobs
      → Accounts s
      → Follows s (submit_result config now draws digest written s peer control maybe_report).0
  unfolding submit_result
  submit_result-Follows config now draws digest written s peer control maybe_report m v =
      let same = Follows-Keeps s s (Keeps-refl s) v in
      elim (Result-cases (admit_report s peer control maybe_report)) [
        | inl (e, q) ↦ rw (q, submit_result) same
        | inr ((sid, report, j, lease, (d, agent)), q) ↦
            rw (q, submit_result)
              (elim (ReceiptState-cases (Receipts.state s.receipts j (digest report))) [
                | inl e ↦
                    rw (e, submit_result)
                      (elim (Option-cases (Assoc.lookup j s.jobs)) [
                        | inl f ↦ rw f same
                        | inr (job, f) ↦
                            rw f
                              (elim (Result-cases
                                (validate_report config j job (d, agent) sid lease report)) [
                                  | inl (x, g) ↦ rw g same
                                  | inr (tt, g) ↦ rw g (
                                      commit_result-Follows config now draws s d j job report
                                        (digest report) written m f v)
                                ])
                      ])
                | inr (inl e) ↦ rw (e, submit_result) same
                | inr (inr e) ↦ rw (e, submit_result) same
              ])
      ]

  -- A job that is admitted has room for its receipt.
  enqueue_job-Follows :
      (config : CoordinatorConfig) (s t : CoordinatorState Tx) (j : ℕ) (job : Job)
      (ds : List ArtifactDescriptor) (gs : List GraphArtifact)
      → admit_job config s j ds gs ≡ ok t
      → Accounts s
      → Follows s (enqueue_job t j job)
  unfolding enqueue_job
  enqueue_job-Follows config s t j job ds gs h v =
      let (new, same) = admit_job-admits config s t j ds gs h in
      let (r, fresh, can) = admit_job-accounts config s t j ds gs h in
      record {
        accounts = record {
          apart = λ k n.
              rw r
                (ground (arith, v.apart k, Assoc.lookup-insert j k job s.jobs, simp (same.1) at n));
          room =
              rw (r, same.1, Assoc.length-insert_new j job s.jobs new)
                (can_admit-Room s.receipts (length s.jobs) can);
        };
        durable = λ k x n. rw r n;
      }

  pub enqueue-Follows :
      (config : CoordinatorConfig) (h : Hashes) (now : ℕ) (draws : ℕ → ℕ) (s : CoordinatorState Tx)
      (submission : MeasureSubmission) (nonce reply : ℕ)
      → Accounts s
      → Follows s (enqueue config h now draws s submission nonce reply).0
  unfolding enqueue
  enqueue-Follows config h now draws s submission nonce reply v =
      let ds = artifact_descriptors h submission.subjects in
      let j = h.job_id (h.measurement_key submission ds) nonce in
      let t = expire_leases s now in
      let k = expire_leases-Keeps s now in
      let w = Keeps-Accounts s t k v in
      elim (Result-cases (validate_submission config submission)) [
        | inl (e, q) ↦ rw (q, enqueue) (Follows-Keeps s s (Keeps-refl s) v)
        | inr (u, q) ↦
            rw (q, enqueue)
              (elim (Result-cases (admit_job config t j ds submission.subjects)) [
                | inl (e, f) ↦ rw (f, enqueue) (Follows-Keeps s t k v)
                | inr (a, f) ↦
                    rw (f, enqueue)
                      (Follows-Keeps_after s _ _ (schedule-Keeps config now draws _) (
                        after_Keeps s t _ k
                          (enqueue_job-Follows config t a j _ ds submission.subjects f w)))
              ])
      ]
