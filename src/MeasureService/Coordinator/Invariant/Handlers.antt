-- ===== src/MeasureService/Coordinator/Invariant/Handlers.antt =====
-- The handlers keep the invariant: crates/gz-measure-service/src/coordinator.rs, `enqueue`,
-- `reap_expired`, `disconnect`, `handle_agent_event` and `submit_result`.
use graphzero.Base.{ℕ, ◌≡◌, refl, inl, inr, none, some, List, ◌==◌, arith, Bool-cases, Option-cases}
use graphzero.Base.Assoc
use graphzero.Base.Result.{ok, Result-cases}
use graphzero.MeasureService.Protocol.{WireId, MeasureSubmission, ArtifactDescriptor, GraphArtifact}
use graphzero.MeasureService.Coordinator.{
  CommandChannel, CoordinatorConfig, ActiveLease, Job, CoordinatorState,
}
use graphzero.MeasureService.Coordinator.Artifacts.{admit, retain_artifacts}
use graphzero.MeasureService.Coordinator.Sessions.{lease_of, expire_leases}
use graphzero.MeasureService.Coordinator.Validate.{validate_submission, validate_agent_lease_ids}
use graphzero.MeasureService.Coordinator.Handlers.{
  Hashes, artifact_descriptors, admit_job, enqueue, reap_expired, disconnect,
}
use graphzero.MeasureService.Coordinator.Invariant.{Inv}
use graphzero.MeasureService.Coordinator.Invariant.Leases.{expire_leases-Inv}
use graphzero.MeasureService.Coordinator.Invariant.Sessions.{remove_agent_session-Inv}
use graphzero.MeasureService.Coordinator.Invariant.Schedule.{schedule-Inv}
use graphzero.MeasureService.Coordinator.Invariant.Parts.{SameView, SameView-Inv, enqueue_job-Inv}

module _ {Tx : Type 0} where
  retain_artifacts-SameView :
      (config : CoordinatorConfig) (s t : CoordinatorState Tx) (ds : List ArtifactDescriptor)
      (gs : List GraphArtifact)
      → retain_artifacts config s ds gs ≡ ok t
      → SameView s t
  unfolding retain_artifacts admit
  retain_artifacts-SameView config s t ds gs h = ground (arith, h)

  -- What is admitted is new, and admission writes neither jobs, nor agents, nor the queue.
  pub admit_job-admits :
      (config : CoordinatorConfig) (s t : CoordinatorState Tx) (j : ℕ)
      (ds : List ArtifactDescriptor) (gs : List GraphArtifact)
      → admit_job config s j ds gs ≡ ok t
      → (Assoc.lookup j s.jobs ≡ none) × SameView s t
  unfolding admit_job
  admit_job-admits config s t j ds gs h =
      (ground (arith, h), ground (arith, retain_artifacts-SameView config s t ds gs, h))

  -- What an event names is a job that is leased to the session.
  pub validate_agent_lease_ids_sound :
      (s : CoordinatorState Tx) (d sid : ℕ) (es ej el : WireId) (j : ℕ) (job : Job)
      (a : ActiveLease)
      → validate_agent_lease_ids s d sid es ej el ≡ ok (j, job, a)
      → (Assoc.lookup j s.jobs ≡ some job)
        × (lease_of job.state ≡ some a)
        × (a.device_id ≡ d)
        × (a.current_session_id ≡ sid)
  unfolding validate_agent_lease_ids
  validate_agent_lease_ids_sound s d sid es ej el j job a h = elim (Option-cases es) [
    | inl e ↦ absurd (ground (arith, h))
    | inr (x, e) ↦ elim (Option-cases ej) [
      | inl f ↦ absurd (ground (arith, h))
      | inr (y, f) ↦ elim (Option-cases el) [
        | inl g ↦ absurd (ground (arith, h))
        | inr (z, g) ↦ elim (Option-cases (Assoc.lookup d s.agents)) [
          | inl q ↦ absurd (ground (arith, h))
          | inr (agent, q) ↦ elim (Option-cases (Assoc.lookup y s.jobs)) [
            | inl q ↦ absurd (ground (arith, h))
            | inr (found, r) ↦ elim (Option-cases (lease_of found.state)) [
              | inl q ↦ absurd (ground (arith, h))
              | inr (b, t) ↦ ground (arith, h)
            ]
          ]
        ]
      ]
    ]
  ]

module _ {Tx : Type 0} ⦃channel : CommandChannel Tx⦄ where
  pub enqueue-Inv :
      (config : CoordinatorConfig) (h : Hashes) (now : ℕ) (draws : ℕ → ℕ) (s : CoordinatorState Tx)
      (submission : MeasureSubmission) (nonce reply : ℕ)
      → Inv s
      → Inv (enqueue config h now draws s submission nonce reply).0
  unfolding enqueue
  enqueue-Inv config h now draws s submission nonce reply v =
      let ds = artifact_descriptors h submission.subjects in
      let j = h.job_id (h.measurement_key submission ds) nonce in
      let w = expire_leases-Inv s now v in
      elim (Result-cases (validate_submission config submission)) [
        | inl (e, q) ↦ rw (q, enqueue) v
        | inr (u, q) ↦
            rw (q, enqueue)
              (elim (Result-cases
                (admit_job config (expire_leases s now) j ds submission.subjects)) [
                  | inl (e, f) ↦ rw (f, enqueue) w
                  | inr (t, f) ↦
                      let (new, same) =
                        admit_job-admits config (expire_leases s now) t j ds submission.subjects
                          f in
                      rw (f, enqueue)
                        (schedule-Inv config now draws _ (
                          enqueue_job-Inv t j _ (rw (same.1) new) refl refl
                            (SameView-Inv (expire_leases s now) t same w)))
                ])
      ]

  pub reap_expired-Inv :
      (config : CoordinatorConfig) (now : ℕ) (draws : ℕ → ℕ) (s : CoordinatorState Tx)
      → Inv s
      → Inv (reap_expired config now draws s)
  unfolding reap_expired
  reap_expired-Inv config now draws s v =
      schedule-Inv config now draws (expire_leases s now) (expire_leases-Inv s now v)

  pub disconnect-Inv :
      (config : CoordinatorConfig) (now : ℕ) (draws : ℕ → ℕ) (s : CoordinatorState Tx) (d sid : ℕ)
      → Inv s
      → Inv (disconnect config now draws s d sid)
  unfolding disconnect
  disconnect-Inv config now draws s d sid v =
      let w = schedule-Inv config now draws _ (remove_agent_session-Inv s d v) in
      elim (Option-cases (Assoc.lookup d s.agents)) [
        | inl q ↦ rw (q, disconnect) v
        | inr (agent, q) ↦
            rw (q, disconnect)
              (elim (Bool-cases (agent.session_id == sid)) [ inl e ↦ rw e w | inr e ↦ rw e v ])
      ]
