-- ===== src/MeasureService/Coordinator/Storage/Always.antt =====
-- What is stored in every state that the coordinator reaches:
-- crates/gz-measure-service/src/coordinator.rs.
use graphzero.Base.{ℕ, ◌≡◌, refl, Option, none, some, length, arith}
use graphzero.Base.Assoc
use graphzero.MeasureService.Coordinator.{CommandChannel, CoordinatorConfig, Job, CoordinatorState}
use graphzero.MeasureService.Coordinator.Handlers.{Hashes}
use graphzero.Base.{◌≤◌, true}
use graphzero.Base.Sums.{sum_by, lookup-sum_by-le}
use graphzero.MeasureService.Coordinator.{ArtifactRecord}
use graphzero.MeasureService.Coordinator.Results.{has_digest}
use graphzero.MeasureService.Coordinator.Invariant.{Inv}
use graphzero.MeasureService.Coordinator.Invariant.Reachable.{
  Step, submitted, canceled, drained, reaped, connected, disconnected, notified, reported,
  Reachable, started, stepped, Reachable-Inv,
}
use graphzero.MeasureService.Coordinator.Ledger.{named, named_in}
use graphzero.MeasureService.Coordinator.Ledger.Connections.{
  connect-Keeps, reap_expired-Keeps, disconnect-Keeps, handle_agent_event-Keeps, drain_agents-Keeps,
}
use graphzero.MeasureService.Coordinator.Storage.{refs, total}
use graphzero.MeasureService.Coordinator.Storage.Kept.{
  Stores, named_in-has_digest, Keeps-Stores, cancel_job-Stores, submit_result-Stores,
  enqueue-Stores,
}

refs-stored :
    (o : Option ArtifactRecord) → 1 ≤ refs o → (stored : ArtifactRecord) × (o ≡ some stored)
refs-stored none h = absurd (omega (arith, h))
refs-stored (some stored) h = (stored, refl)

module _ {Tx : Type 0} ⦃channel : CommandChannel Tx⦄ (config : CoordinatorConfig) (h : Hashes) where
  step-Stores :
      (s t : CoordinatorState Tx) → Step config h s t → Inv s → Stores config s → Stores config t
  step-Stores _ _ (submitted s now draws submission nonce reply) v a =
      enqueue-Stores config h now draws s submission nonce reply a
  step-Stores _ _ (canceled s job_id) v a = cancel_job-Stores config s job_id v.maps a
  step-Stores _ _ (drained s) v a = Keeps-Stores config s _ (drain_agents-Keeps s) a
  step-Stores _ _ (reaped s now draws) v a =
      Keeps-Stores config s _ (reap_expired-Keeps config now draws s) a
  step-Stores _ _ (connected s enrollment now profile_hash session_id tx peer greeting) v a =
      Keeps-Stores config s _
        (connect-Keeps config enrollment now profile_hash session_id tx s peer greeting) a
  step-Stores _ _ (disconnected s now draws device_id session_id) v a =
      Keeps-Stores config s _ (disconnect-Keeps config now draws s device_id session_id) a
  step-Stores _ _ (notified s now draws device_id session_id event) v a =
      Keeps-Stores config s _
        (handle_agent_event-Keeps config now draws s device_id session_id event) a
  step-Stores _ _ (reported s now draws digest written peer control report) v a =
      submit_result-Stores config now draws digest written s peer control report v.maps a

  Reachable-Stores : (s : CoordinatorState Tx) → Reachable config h s → Stores config s
  unfolding Assoc.lookup sum_by
  Reachable-Stores _ (started ledger o) = record {
    maps = tt;
    wanted = λ g. refl;
    used = λ g. refl;
    counted = refl;
    few = omega arith;
    small = omega arith;
  }
  Reachable-Stores _ (stepped s t r step) =
      step-Stores s t step (Reachable-Inv config h s r) (Reachable-Stores s r)

  -- In every state that the coordinator reaches: the artifacts are within the item and the byte
  -- capacity, the byte count is the sum of their sizes, each has as many references as known jobs
  -- name it, and each artifact that a known job names is stored.
  pub artifacts_lem :
      (s : CoordinatorState Tx)
      → Reachable config h s
      → (length s.artifacts ≤ config.artifact_item_capacity)
        × (s.artifact_bytes ≤ config.artifact_byte_capacity)
        × (s.artifact_bytes ≡ total s.artifacts)
        × ((g : ℕ) → refs (Assoc.lookup g s.artifacts) ≡ named g s.jobs)
        × ((j g : ℕ) (job : Job)
            → Assoc.lookup j s.jobs ≡ some job
            → has_digest g job.descriptors ≡ true
            → (stored : ArtifactRecord) × (Assoc.lookup g s.artifacts ≡ some stored))
  artifacts_lem s r =
      let v = Reachable-Stores s r in
      (
        v.few,
        v.small,
        v.counted,
        v.wanted,
        λ j g job e d. refs-stored (Assoc.lookup g s.artifacts) (
            omega (
              arith,
              v.wanted g,
              named_in-has_digest g job.descriptors d,
              lookup-sum_by-le (λ (job : Job). named_in g job.descriptors) j job s.jobs e,
            )),
      )
