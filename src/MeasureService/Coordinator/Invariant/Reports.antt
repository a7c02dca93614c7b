-- ===== src/MeasureService/Coordinator/Invariant/Reports.antt =====
-- The submission of a report keeps the invariant:
-- crates/gz-measure-service/src/coordinator.rs, `submit_result`.
use graphzero.Base.{
  ℕ, ◌≡◌, refl, ap, ◌∙◌, ◌⊎◌, inl, inr, true, Option, none, some, arith, Option-cases,
}
use graphzero.Base.Assoc
use graphzero.Base.Result.{Result, ok, err, Result-cases}
use graphzero.MeasureService.Protocol.{ServiceError, WireId, MeasureReport}
use graphzero.MeasureService.Receipts
use graphzero.MeasureService.Receipts.{ReceiptState, missing, identical, conflict}
use graphzero.MeasureService.Coordinator.{
  CommandChannel, CoordinatorConfig, ActiveLease, JobState, queued, offered, running, Job,
  AgentSession, CoordinatorState,
}
use graphzero.MeasureService.Coordinator.Sessions.{lease_of}
use graphzero.MeasureService.Coordinator.Validate.{validate_report}
use graphzero.MeasureService.Coordinator.View.{lease_in, leased}
use graphzero.MeasureService.Coordinator.Results.{
  Submitted, commit_result, admit_report, submit_result,
}
use graphzero.MeasureService.Coordinator.Validate.{Status, not_found, running_lease, holds}
use graphzero.MeasureService.Coordinator.Invariant.{Inv}
use graphzero.MeasureService.Coordinator.Invariant.Departures.{complete_job-Inv}
use graphzero.MeasureService.Coordinator.Invariant.Schedule.{schedule-Inv}
use graphzero.MeasureService.Coordinator.Invariant.Parts.{SameView-Inv}

pub ReceiptState-cases : (r : ReceiptState) → (r ≡ missing) ⊎ ((r ≡ identical) ⊎ (r ≡ conflict))
ReceiptState-cases missing = inl refl
ReceiptState-cases identical = inr (inl refl)
ReceiptState-cases conflict = inr (inr refl)

module _ {Tx : Type 0} where
  validate_report_by_state :
      (config : CoordinatorConfig) (j : ℕ) (job : Job) (d : ℕ) (agent : AgentSession Tx)
      (sid lease : ℕ) (report : MeasureReport) (state : JobState)
      → job.state ≡ state
      → validate_report config j job (d, agent) sid lease report ≡ ok tt
      → (a : ActiveLease) × (job.state ≡ running a) × (holds a j d agent sid lease ≡ true)
  unfolding validate_report running_lease
  validate_report_by_state config j job d agent sid lease report queued e h =
      absurd (ground (arith, h, e))
  validate_report_by_state config j job d agent sid lease report (offered a) e h =
      absurd (ground (arith, h, e))
  validate_report_by_state config j job d agent sid lease report (running a) e h =
      (a, e, ground (arith, h, e))

  -- A report is valid only where the job runs under the lease that the agent presents and holds.
  pub validate_report-holds :
      (config : CoordinatorConfig) (j : ℕ) (job : Job) (d : ℕ) (agent : AgentSession Tx)
      (sid lease : ℕ) (report : MeasureReport)
      → validate_report config j job (d, agent) sid lease report ≡ ok tt
      → (a : ActiveLease) × (job.state ≡ running a) × (holds a j d agent sid lease ≡ true)
  validate_report-holds config j job d agent sid lease report h =
      validate_report_by_state config j job d agent sid lease report job.state refl h

module _ {Tx : Type 0} ⦃channel : CommandChannel Tx⦄ where
  -- A committed report completes its job.
  commit_result-Inv :
      (config : CoordinatorConfig) (now : ℕ) (draws : ℕ → ℕ) (s : CoordinatorState Tx) (d j : ℕ)
      (job : Job) (report : MeasureReport) (digest : ℕ) (written : Result ServiceError (Unit {0}))
      (agent : AgentSession Tx) (a : ActiveLease)
      → Assoc.lookup d s.agents ≡ some agent
      → leased s j ≡ some a
      → a.device_id ≡ d
      → Inv s
      → Inv (commit_result config now draws s d j job report digest written).0
  unfolding commit_result
  commit_result-Inv config now draws s d j job report digest written agent a hq hl hd v =
      elim (Result-cases (Receipts.commit s.receipts j digest written)) [
        | inl (e, q) ↦ rw (q, commit_result) v
        | inr ((missing, receipts), q) ↦
            rw (q, commit_result)
              (schedule-Inv config now draws _ (
                complete_job-Inv (record s { receipts = receipts }) d j job agent a hq hl hd
                  (SameView-Inv s (record s { receipts = receipts }) (refl, refl, refl) v)))
        | inr ((identical, receipts), q) ↦ rw (q, commit_result) v
        | inr ((conflict, receipts), q) ↦ rw (q, commit_result) v
      ]

  -- The submission of a report keeps the invariant, whatever its outcome.
  pub submit_result-Inv :
      (config : CoordinatorConfig) (now : ℕ) (draws : ℕ → ℕ) (digest : MeasureReport → ℕ)
      (written : Result ServiceError (Unit {0})) (s : CoordinatorState Tx) (peer : Option ℕ)
      (control : WireId) (maybe_report : Option MeasureReport)
      → Inv s
      → Inv (submit_result config now draws digest written s peer control maybe_report).0
  unfolding submit_result
  submit_result-Inv config now draws digest written s peer control maybe_report v =
      elim (Result-cases (admit_report s peer control maybe_report)) [
        | inl (e, q) ↦ rw (q, submit_result) v
        | inr ((sid, report, j, lease, (d, agent)), q) ↦
            rw (q, submit_result)
              (elim (ReceiptState-cases (Receipts.state s.receipts j (digest report))) [
                | inl e ↦ rw (e, submit_result) (missing_lem sid report j lease d agent)
                | inr (inl e) ↦ rw (e, submit_result) v
                | inr (inr e) ↦ rw (e, submit_result) v
              ])
      ]
    where
      leased_lem :
          (report : MeasureReport) (j d : ℕ) (job : Job) (a : ActiveLease)
          → leased s j ≡ some a
          → a.device_id ≡ d
          → Inv (commit_result config now draws s d j job report (digest report) written).0
      leased_lem report j d job a hl hd = elim (Option-cases (Assoc.lookup d s.agents)) [
        | inl f ↦ absurd (ground (arith, v.current j a))
        | inr (agent, f) ↦
            commit_result-Inv config now draws s d j job report (digest report) written agent a f hl
              hd v
      ]

      missing_lem :
          (sid : ℕ) (report : MeasureReport) (j lease d : ℕ) (agent : AgentSession Tx)
          → Inv
              (elim (Assoc.lookup j s.jobs)
                as (λ x. CoordinatorState Tx × Result Status Submitted) [
                  | none ↦ (s, err (not_found "unknown job"))
                  | some job ↦
                      elim (validate_report config j job (d, agent) sid lease report)
                        as (λ x. CoordinatorState Tx × Result Status Submitted) [
                          | err e ↦ (s, err e)
                          | ok u ↦
                              commit_result config now draws s d j job report
                                (digest report)
                                written
                        ]
                ]).0
      missing_lem sid report j lease d agent = elim (Option-cases (Assoc.lookup j s.jobs)) [
        | inl f ↦ rw f v
        | inr (job, f) ↦
            rw f (elim (Result-cases (validate_report config j job (d, agent) sid lease report)) [
              | inl (e, g) ↦ rw g v
              | inr (tt, g) ↦
                  let (a, hs, hh) = validate_report-holds config j job d agent sid lease report g in
                  rw g (
                    leased_lem report j d job a (ap lease_in f ∙ ap lease_of hs)
                      (ground (arith, hh)))
            ])
      ]
