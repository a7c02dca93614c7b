-- ===== src/MeasureService/Coordinator/Reporting.antt =====
-- When a report is committed, and what a second submission is told:
-- crates/gz-measure-service/src/coordinator.rs, `submit_result`.
use graphzero.Base.{
  ℕ, ◌≡◌, refl, inl, inr, true, Option, none, some, ◌==◌, ==→eq, ap, sym, ◌∙◌, subst, length, arith,
  Bool-cases, Option-cases, if◌then◌else◌,
}
use graphzero.Base.Assoc
use graphzero.Base.Result.{Result, ok, Result-cases}
use graphzero.MeasureService.Protocol.{
  ServiceError, WireId, MeasureReport, spells, engine_is, kind_wire,
}
use graphzero.MeasureService.Receipts
use graphzero.MeasureService.Receipts.{ReceiptLedger, ReceiptState, missing, identical, conflict}
use graphzero.MeasureService.Coordinator.{
  unqueue, CommandChannel, CoordinatorConfig, ActiveLease, running, Job, AgentSession,
  CoordinatorState,
}
use graphzero.MeasureService.Coordinator.Validate.{
  Status, authenticate_session, validate_report, running_lease, holds,
}
use graphzero.MeasureService.Coordinator.DataPlane.{Authentic, authenticate_session_sound}
use graphzero.MeasureService.Coordinator.Results.{
  job_committed, already_committed, invalid_report, Submitted, without_lease, complete_job,
  reply_to, commit_result, admit_report, submit_result,
}
use graphzero.MeasureService.Coordinator.Invariant.Reports.{
  ReceiptState-cases, validate_report-holds,
}
use graphzero.MeasureService.Coordinator.Results.{told}
use graphzero.MeasureService.Coordinator.Sessions.{release_all}
use graphzero.MeasureService.Coordinator.Ledger.Follows.{commit_missing}
use graphzero.MeasureService.Coordinator.Ledger.Accounting.{receipts-add, release_all-receipts}
use graphzero.MeasureService.Coordinator.Ledger.Unchanged.{schedule-Keeps}

spells→eq : (w : WireId) (n : ℕ) → spells w n ≡ true → w ≡ some n
spells→eq none n h = cc
spells→eq (some m) n h = ap some (==→eq m n h)

-- The report is that of the job, of the lease's first session and of the agent's device profile.
abbrev pub Identifies : {Tx : Type 0} → MeasureReport → ActiveLease → AgentSession Tx → Job → Type 0
Identifies report a agent job =
    (report.origin_session_id ≡ some a.origin_session_id)
    × (report.device_profile_hash ≡ some agent.profile_hash)
    × (report.measurement_key ≡ some job.measurement_key)
    × (report.request_nonce ≡ some job.request_nonce)
    × (report.measure_config_hash ≡ some job.submission.config_hash)
    × (report.kind ≡ kind_wire job.submission.kind)
    × (engine_is report.engine job.submission.engine ≡ true)
    × (length report.subjects ≡ length job.submission.subjects)

validate_report-Identifies :
    {Tx : Type 0} (config : CoordinatorConfig) (j : ℕ) (job : Job) (d : ℕ) (agent : AgentSession Tx)
    (sid lease : ℕ) (report : MeasureReport) (a : ActiveLease)
    → job.state ≡ running a
    → validate_report config j job (d, agent) sid lease report ≡ ok tt
    → Identifies report a agent job
unfolding validate_report running_lease
validate_report-Identifies config j job d agent sid lease report a e h = (
  spells→eq report.origin_session_id a.origin_session_id (ground (arith, h, e)),
  spells→eq report.device_profile_hash agent.profile_hash (ground (arith, h, e)),
  spells→eq report.measurement_key job.measurement_key (ground (arith, h, e)),
  spells→eq report.request_nonce job.request_nonce (ground (arith, h, e)),
  spells→eq report.measure_config_hash job.submission.config_hash (ground (arith, h, e)),
  ground (arith, h, e),
  ground (arith, h, e),
  ground (arith, h, e),
)

module _ {Tx : Type 0} ⦃channel : CommandChannel Tx⦄ where
  module _ (config : CoordinatorConfig) (now : ℕ) (draws : ℕ → ℕ) (digest : MeasureReport → ℕ)
      (written : Result ServiceError (Unit {0})) (s : CoordinatorState Tx) (peer : Option ℕ)
      (control : WireId) where
    -- A report of a job that has a receipt changes nothing: it is told to be committed already where
    -- it has the digest of the receipt, and to be invalid where it has another.
    pub submit_result_again :
        (report : MeasureReport) (sid j lease old : ℕ) (agent : ℕ × AgentSession Tx)
        → admit_report s peer control (some report) ≡ ok (sid, report, j, lease, agent)
        → Assoc.lookup j (Receipts.receipts s.receipts) ≡ some old
        → submit_result config now draws digest written s peer control (some report)
          ≡ (s, ok (told (if old == digest report then already_committed else invalid_report)))
    unfolding submit_result Receipts.state
    submit_result_again report sid j lease old agent h e =
        rw (h, submit_result, e)
          (elim (Bool-cases (old == digest report)) [ inl q ↦ rw q refl | inr q ↦ rw q refl ])

    -- The session of the call is that of a device's agent, the peer has the certificate that this agent
    -- connected with, and the report names the job, the lease and this device.
    abbrev pub Presented : ℕ → MeasureReport → ℕ → ℕ → ℕ → AgentSession Tx → Type 0
    Presented sid report j lease d agent =
        (control ≡ some sid)
        × (report.job_id ≡ some j)
        × (report.lease_id ≡ some lease)
        × (report.device_id ≡ some d)
        × Authentic s peer sid d agent

    commit_result_committed :
        (d j : ℕ) (job : Job) (report : MeasureReport) (out : Submitted)
        → (commit_result config now draws s d j job report (digest report) written).1 ≡ ok out
        → out.disposition ≡ job_committed
        → (Assoc.lookup j (Receipts.receipts s.receipts) ≡ none)
          × (out.reply ≡ reply_to job.reply (record { job_id = j; report = report }))
    unfolding commit_result Receipts.commit
    commit_result_committed d j job report out h c = (ground (arith, h, c), ground (arith, h, c))

    commit_result_stored :
        (d j : ℕ) (job : Job) (report : MeasureReport) (out : Submitted)
        → (commit_result config now draws s d j job report (digest report) written).1 ≡ ok out
        → out.disposition ≡ job_committed
        → Assoc.lookup j (
            Receipts.receipts
              (commit_result config now draws s d j job report (digest report) written).0.receipts)
          ≡ some (digest report)
    unfolding commit_result complete_job
    commit_result_stored d j job report out h c =
        elim (Result-cases (Receipts.commit s.receipts j (digest report) written)) [
          | inl (e, q) ↦ absurd (ground (arith, h, q))
          | inr ((missing, receipts), q) ↦
              let u : CoordinatorState Tx = record s {
                receipts = receipts;
                jobs = Assoc.remove j s.jobs;
                queue = unqueue j s.queue;
                agents = without_lease (record s { receipts = receipts }) d j;
              } in
              let kept = release_all-receipts u job.descriptors in
              let added = commit_missing s.receipts receipts j (digest report) written q in
              rw (q, commit_result)
                (rw
                  (
                    (schedule-Keeps config now draws (release_all u job.descriptors)).receipts,
                    kept,
                    added,
                    receipts-add s.receipts j (digest report),
                  )
                  (ground (
                    arith,
                    Assoc.lookup-insert j j (digest report) (Receipts.receipts s.receipts),
                  )))
          | inr ((identical, receipts), q) ↦ absurd (ground (arith, h, q, c))
          | inr ((conflict, receipts), q) ↦ absurd (ground (arith, h, q, c))
        ]

    -- What a submission does and answers.
    abbrev pub submission : Option MeasureReport → CoordinatorState Tx × Result Status Submitted
    submission maybe = submit_result config now draws digest written s peer control maybe

    -- What holds of a submission whose report was committed.
    abbrev pub HolderCommits : Option MeasureReport → Submitted → Type 0
    HolderCommits maybe out =
        (sid j lease d : ℕ) × (report : MeasureReport) × (job : Job) × (agent : AgentSession Tx)
        × (a : ActiveLease) × (maybe ≡ some report)
        × Presented sid report j lease d agent
        × (Assoc.lookup j s.jobs ≡ some job)
        × (job.state ≡ running a)
        × (holds a j d agent sid lease ≡ true)
        × Identifies report a agent job
        × (Assoc.lookup j (Receipts.receipts s.receipts) ≡ none)
        × (Assoc.lookup j (Receipts.receipts (submission maybe).0.receipts) ≡ some (digest report))
        × (out.reply ≡ reply_to job.reply (record { job_id = j; report = report }))

    pub admit_report_sound :
        (maybe : Option MeasureReport) (sid j lease : ℕ) (report : MeasureReport)
        (agent : ℕ × AgentSession Tx)
        → admit_report s peer control maybe ≡ ok (sid, report, j, lease, agent)
        → (maybe ≡ some report) × Presented sid report j lease agent.0 agent.1
    unfolding admit_report
    admit_report_sound none sid j lease report agent h = elim (Option-cases control) [
      | inl e ↦ absurd (ground (arith, h, e))
      | inr (x, e) ↦ absurd (ground (arith, h, e))
    ]
    admit_report_sound (some r) sid j lease report agent h = elim (Option-cases control) [
      | inl e ↦ absurd (ground (arith, h, e))
      | inr (x, e) ↦ elim (Option-cases r.job_id) [
        | inl f ↦ absurd (ground (arith, h, e, f))
        | inr (y, f) ↦ elim (Option-cases r.lease_id) [
          | inl g ↦ absurd (ground (arith, h, e, f, g))
          | inr (z, g) ↦ elim (Option-cases r.device_id) [
            | inl k ↦ absurd (ground (arith, h, e, f, g, k))
            | inr (d, k) ↦ elim (Result-cases (authenticate_session s x peer)) [
              | inl (b, n) ↦ absurd (ground (arith, h, e, f, g, k, n))
              | inr (b, n) ↦
                  let mine : b ≡ agent = ground (arith, h, e, f, g, k, n) in
                  let whole : r ≡ report = ground (arith, h, e, f, g, k, n) in
                  let session : x ≡ sid = ground (arith, h, e, f, g, k, n) in
                  let job : y ≡ j = ground (arith, h, e, f, g, k, n) in
                  let presented : z ≡ lease = ground (arith, h, e, f, g, k, n) in
                  let device : d ≡ b.0 = ground (arith, h, e, f, g, k, n) in
                  (
                    ap some whole,
                    (
                      e ∙ ap some session,
                      ap MeasureReport.job_id (sym whole) ∙ f ∙ ap some job,
                      ap MeasureReport.lease_id (sym whole) ∙ g ∙ ap some presented,
                      ap MeasureReport.device_id (sym whole)
                          ∙ k
                          ∙ ap some (device ∙ ap (λ (q : ℕ × AgentSession Tx). q.0) mine),
                      authenticate_session_sound s sid peer agent (
                          subst (λ i. authenticate_session s i peer ≡ ok agent) session
                            (n ∙ ap ok mine)),
                    ),
                  )
            ]
          ]
        ]
      ]
    ]

    -- A report is committed only where the call's session is that of a device's agent, from a peer with
    -- the certificate that this agent connected with; the report names this device, a job that runs,
    -- and the lease that the agent holds and the job is leased under; it has the job's identity (first
    -- session, profile, keys, nonce, configuration, kind, engine, number of subjects); and no report of
    -- the job was committed before. Then the receipt has this report's digest, and the caller of the
    -- job is sent this report.
    pub committed_by_holder :
        (maybe : Option MeasureReport) (out : Submitted)
        → (submit_result config now draws digest written s peer control maybe).1 ≡ ok out
        → out.disposition ≡ job_committed
        → HolderCommits maybe out
    unfolding submit_result
    committed_by_holder maybe out h c = elim (Result-cases (admit_report s peer control maybe)) [
      | inl (e, q) ↦ absurd (ground (arith, h, q))
      | inr ((sid, report, j, lease, (d, agent)), q) ↦
          elim (ReceiptState-cases (Receipts.state s.receipts j (digest report))) [
            | inl e ↦ elim (Option-cases (Assoc.lookup j s.jobs)) [
              | inl f ↦ absurd (ground (arith, h, q, e, f))
              | inr (job, f) ↦
                  elim (Result-cases (validate_report config j job (d, agent) sid lease report)) [
                    | inl (x, g) ↦ absurd (ground (arith, h, q, e, f, g))
                    | inr (tt, g) ↦
                        let (a, hs, hh) =
                          validate_report-holds config j job d agent sid lease report g in
                        let (n, r) =
                          commit_result_committed d j job report out (ground (arith, h, q, e, f, g))
                            c in
                        let shown = admit_report_sound maybe sid j lease report (d, agent) q in
                        (
                          sid,
                          j,
                          lease,
                          d,
                          report,
                          job,
                          agent,
                          a,
                          shown.0,
                          shown.1,
                          f,
                          hs,
                          hh,
                          validate_report-Identifies config j job d agent sid lease report a hs g,
                          n,
                          rw (q, submit_result)
                              (rw (e, submit_result)
                                (rw f (
                                  rw g (
                                    commit_result_stored d j job report out
                                      (ground (arith, h, q, e, f, g)) c)))),
                          r,
                        )
                  ]
            ]
            | inr (inl e) ↦ absurd (ground (arith, h, q, e, c))
            | inr (inr e) ↦ absurd (ground (arith, h, q, e, c))
          ]
    ]
