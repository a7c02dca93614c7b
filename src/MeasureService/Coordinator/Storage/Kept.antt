-- ===== src/MeasureService/Coordinator/Storage/Kept.antt =====
-- The operations keep the agreement of the store with the known jobs:
-- crates/gz-measure-service/src/coordinator.rs.
use graphzero.Base.{
  ℕ, ◌≡◌, refl, ◌∙◌, inl, inr, Option, none, some, List, length, arith, Option-cases,
}
use graphzero.Base.Assoc
use graphzero.Base.Sums.{IsMap}
use graphzero.Base.Result.{Result, ok, Result-cases}
use graphzero.MeasureService.Protocol.{
  ServiceError, WireId, MeasureSubmission, MeasureReport, ArtifactDescriptor, GraphArtifact,
}
use graphzero.MeasureService.Receipts
use graphzero.MeasureService.Receipts.{
  ReceiptLedger, memory, file, ReceiptState, missing, identical, conflict,
}
use graphzero.MeasureService.Coordinator.{
  CommandChannel, CoordinatorConfig, ActiveLease, Job, CoordinatorState, unqueue,
}
use graphzero.MeasureService.Coordinator.Sessions.{
  release_all, cancel_at_agent, cancel_job, lease_of, expire_leases,
}
use graphzero.MeasureService.Coordinator.Validate.{validate_submission, validate_report}
use graphzero.MeasureService.Coordinator.Handlers.{
  Hashes, artifact_descriptors, admit_job, enqueue_job, enqueue,
}
use graphzero.MeasureService.Coordinator.Results.{
  without_lease, complete_job, commit_result, admit_report, submit_result,
}
use graphzero.MeasureService.Coordinator.Invariant.Reports.{ReceiptState-cases}
use graphzero.MeasureService.Coordinator.Invariant.Handlers.{admit_job-admits}
use graphzero.MeasureService.Coordinator.Invariant.Parts.{release_all-SameView}
use graphzero.MeasureService.Coordinator.Ledger.{Keeps, Keeps-jobs}
use graphzero.MeasureService.Coordinator.Ledger.Unchanged.{expire_leases-Keeps, schedule-Keeps}
use graphzero.Base.{◌≤◌, ap, sym, true, [], ◌∷◌}
use graphzero.Base.Sums.{sum_by-insert_new, sum_by-remove}
use graphzero.MeasureService.Coordinator.Artifacts.{retain_artifacts}
use graphzero.MeasureService.Coordinator.Results.{has_digest}
use graphzero.MeasureService.Coordinator.Ledger.{named, named_in, SameStore}
use graphzero.MeasureService.Coordinator.Ledger.Follows.{cancel_at_agent-same}
use graphzero.MeasureService.Coordinator.Storage.{Store, Store-wants, release_all-Store}
use graphzero.MeasureService.Coordinator.Storage.Admit.{retain_artifacts-Store}

-- The store has the references that the known jobs need.
abbrev pub Stores : {Tx : Type 0} → CoordinatorConfig → CoordinatorState Tx → Type 0
Stores config s =
    Store config.artifact_item_capacity config.artifact_byte_capacity s.artifacts s.artifact_bytes
      (λ g. named g s.jobs)

length-artifact_descriptors :
    (h : Hashes) (gs : List GraphArtifact) → length (artifact_descriptors h gs) ≡ length gs
unfolding artifact_descriptors
length-artifact_descriptors h [] = refl
length-artifact_descriptors h (g ∷ gs) = omega (arith, length-artifact_descriptors h gs)

pub named_in-has_digest :
    (g : ℕ) (ds : List ArtifactDescriptor) → has_digest g ds ≡ true → 1 ≤ named_in g ds
unfolding has_digest named_in
named_in-has_digest g [] h = absurd (ground (arith, h))
named_in-has_digest g (d ∷ ds) h = ground (arith, named_in-has_digest g ds, h)

module _ {Tx : Type 0} (config : CoordinatorConfig) where
  pub Keeps-Stores : (s t : CoordinatorState Tx) → Keeps s t → Stores config s → Stores config t
  Keeps-Stores s t k v = record {
    maps = rw (k.store.0) v.maps;
    wanted = λ g. rw (k.store.0, k.named_same g) (v.wanted g);
    used = λ g. rw (k.store.0) (v.used g);
    counted = rw (k.store.0, k.store.1) v.counted;
    few = rw (k.store.0) v.few;
    small = rw (k.store.1) v.small;
  }

  -- A job that leaves releases its artifacts.
  removed-Stores :
      (s u : CoordinatorState Tx) (j : ℕ) (job : Job)
      → IsMap s.jobs
      → Assoc.lookup j s.jobs ≡ some job
      → u.jobs ≡ Assoc.remove j s.jobs
      → SameStore s u
      → Stores config s
      → Stores config (release_all u job.descriptors)
  removed-Stores s u j job m h e same v =
      Store-wants config.artifact_item_capacity config.artifact_byte_capacity
        (release_all u job.descriptors) (λ g. named g (Assoc.remove j s.jobs)) _
        (λ g. ap (named g) (sym ((release_all-SameView u job.descriptors).1 ∙ e)))
        (release_all-Store config.artifact_item_capacity config.artifact_byte_capacity u
          job.descriptors (λ g. named g s.jobs) (λ g. named g (Assoc.remove j s.jobs))
          (λ g.
            omega
              (arith, sum_by-remove (λ (job : Job). named_in g job.descriptors) j job s.jobs m h))
          (rw (same.0, same.1) v))

  admit_job-retains :
      (s t : CoordinatorState Tx) (j : ℕ) (ds : List ArtifactDescriptor) (gs : List GraphArtifact)
      → admit_job config s j ds gs ≡ ok t
      → retain_artifacts config s ds gs ≡ ok t
  unfolding admit_job
  admit_job-retains s t j ds gs h = ground (arith, h)

  -- A job that enters has its artifacts stored.
  enqueue_job-Stores :
      (s t : CoordinatorState Tx) (j : ℕ) (job : Job) (gs : List GraphArtifact)
      → length job.descriptors ≡ length gs
      → admit_job config s j job.descriptors gs ≡ ok t
      → Stores config s
      → Stores config (enqueue_job t j job)
  unfolding enqueue_job
  enqueue_job-Stores s t j job gs l h v =
      let (new, same) = admit_job-admits config s t j job.descriptors gs h in
      Store-wants config.artifact_item_capacity config.artifact_byte_capacity t _ _
        (λ g.
          sym (sum_by-insert_new (λ (job : Job). named_in g job.descriptors) j job s.jobs new)
          ∙ ap (λ jobs. named g (Assoc.insert j job jobs)) (sym (same.1)))
        (retain_artifacts-Store config s t job.descriptors gs (λ g. named g s.jobs) l
          (admit_job-retains s t j job.descriptors gs h) v)

module _ {Tx : Type 0} ⦃channel : CommandChannel Tx⦄ (config : CoordinatorConfig) where
  cancel_at_agent-SameStore :
      (s : CoordinatorState Tx) (j : ℕ) (o : Option ActiveLease)
      → SameStore s (cancel_at_agent s j o)
  unfolding cancel_at_agent
  cancel_at_agent-SameStore s j none = (refl, refl)
  cancel_at_agent-SameStore s j (some a) = elim (Option-cases (Assoc.lookup a.device_id s.agents)) [
    | inl e ↦ rw (e, cancel_at_agent) (refl, refl)
    | inr (agent, e) ↦ rw (e, cancel_at_agent) (refl, refl)
  ]

  pub cancel_job-Stores :
      (s : CoordinatorState Tx) (j : ℕ)
      → IsMap s.jobs
      → Stores config s
      → Stores config (cancel_job s j)
  unfolding cancel_job
  cancel_job-Stores s j m v = elim (Option-cases (Assoc.lookup j s.jobs)) [
    | inl e ↦
        rw (e, cancel_job)
          (Keeps-Stores config s (record s { queue = unqueue j s.queue })
            (Keeps-jobs s _ refl refl (refl, refl)) v)
    | inr (job, e) ↦
        let u : CoordinatorState Tx = record s {
          queue = unqueue j s.queue;
          jobs = Assoc.remove j s.jobs;
        } in
        rw (e, cancel_job)
          (removed-Stores config s (cancel_at_agent u j (lease_of job.state)) j job m e
            (cancel_at_agent-same u j (lease_of job.state)).0
            (cancel_at_agent-SameStore u j (lease_of job.state)) v)
  ]

  commit_result-Stores :
      (now : ℕ) (draws : ℕ → ℕ) (s : CoordinatorState Tx) (d j : ℕ) (job : Job)
      (report : MeasureReport) (digest : ℕ) (written : Result ServiceError (Unit {0}))
      → IsMap s.jobs
      → Assoc.lookup j s.jobs ≡ some job
      → Stores config s
      → Stores config (commit_result config now draws s d j job report digest written).0
  unfolding commit_result complete_job
  commit_result-Stores now draws s d j job report digest written m h v =
      elim (Result-cases (Receipts.commit s.receipts j digest written)) [
        | inl (e, q) ↦ rw (q, commit_result) v
        | inr ((missing, receipts), q) ↦
            rw (q, commit_result)
              (Keeps-Stores config _ _ (schedule-Keeps config now draws _) (
                removed-Stores config s
                  (record s {
                    receipts = receipts;
                    jobs = Assoc.remove j s.jobs;
                    queue = unqueue j s.queue;
                    agents = without_lease (record s { receipts = receipts }) d j;
                  })
                  j job m h refl (refl, refl) v))
        | inr ((identical, receipts), q) ↦ rw (q, commit_result) v
        | inr ((conflict, receipts), q) ↦ rw (q, commit_result) v
      ]

  pub submit_result-Stores :
      (now : ℕ) (draws : ℕ → ℕ) (digest : MeasureReport → ℕ)
      (written : Result ServiceError (Unit {0})) (s : CoordinatorState Tx) (peer : Option ℕ)
      (control : WireId) (maybe_report : Option MeasureReport)
      → IsMap s.jobs
      → Stores config s
      → Stores config (submit_result config now draws digest written s peer control maybe_report).0
  unfolding submit_result
  submit_result-Stores now draws digest written s peer control maybe_report m v =
      elim (Result-cases (admit_report s peer control maybe_report)) [
        | inl (e, q) ↦ rw (q, submit_result) v
        | inr ((sid, report, j, lease, (d, agent)), q) ↦
            rw (q, submit_result)
              (elim (ReceiptState-cases (Receipts.state s.receipts j (digest report))) [
                | inl e ↦
                    rw (e, submit_result)
                      (elim (Option-cases (Assoc.lookup j s.jobs)) [
                        | inl f ↦ rw f v
                        | inr (job, f) ↦
                            rw f
                              (elim (Result-cases
                                (validate_report config j job (d, agent) sid lease report)) [
                                  | inl (x, g) ↦ rw g v
                                  | inr (tt, g) ↦ rw g (
                                      commit_result-Stores now draws s d j job report
                                        (digest report) written m f v)
                                ])
                      ])
                | inr (inl e) ↦ rw (e, submit_result) v
                | inr (inr e) ↦ rw (e, submit_result) v
              ])
      ]

  pub enqueue-Stores :
      (h : Hashes) (now : ℕ) (draws : ℕ → ℕ) (s : CoordinatorState Tx)
      (submission : MeasureSubmission) (nonce reply : ℕ)
      → Stores config s
      → Stores config (enqueue config h now draws s submission nonce reply).0
  unfolding enqueue
  enqueue-Stores h now draws s submission nonce reply v =
      let ds = artifact_descriptors h submission.subjects in
      let j = h.job_id (h.measurement_key submission ds) nonce in
      let t = expire_leases s now in
      let w = Keeps-Stores config s t (expire_leases-Keeps s now) v in
      elim (Result-cases (validate_submission config submission)) [
        | inl (e, q) ↦ rw (q, enqueue) v
        | inr (u, q) ↦
            rw (q, enqueue)
              (elim (Result-cases (admit_job config t j ds submission.subjects)) [
                | inl (e, f) ↦ rw (f, enqueue) w
                | inr (a, f) ↦
                    rw (f, enqueue)
                      (Keeps-Stores config _ _ (schedule-Keeps config now draws _) (
                        enqueue_job-Stores config t a j _ submission.subjects
                          (length-artifact_descriptors h submission.subjects) f w))
              ])
      ]
