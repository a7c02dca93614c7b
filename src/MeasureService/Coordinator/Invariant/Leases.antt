-- ===== src/MeasureService/Coordinator/Invariant/Leases.antt =====
-- The end of leases keeps the invariant: crates/gz-measure-service/src/coordinator.rs,
-- `requeue_active`, `expire_leases` and `remove_agent_session`.
use graphzero.Base.{
  ℕ, ◌≡◌, ap, ◌∙◌, ◌⊎◌, inl, inr, Bool, true, false, ◌&&◌, none, some, List, [], ◌∷◌, if◌then◌else◌,
  ◌==◌, arith, Bool-cases, ==→eq,
}
use graphzero.Base.Assoc
use graphzero.Base.Sums.{IsMap}
use graphzero.MeasureService.Coordinator.{
  ActiveLease, Job, AgentSession, CoordinatorState, is_lease,
}
use graphzero.MeasureService.Coordinator.Sessions.{
  lease_of, requeue_job, requeue_active, expired, requeue_all, expire_leases,
}
use graphzero.MeasureService.Coordinator.View.{
  keeps_to_queue, count, waiting, lease_in, leased, held, session, session_in,
}
use graphzero.MeasureService.Coordinator.View.Requeue.{
  leased-requeue_job, queue-requeue_job, recovery-requeue_job, maps-requeue_job, agents-requeue_job,
  jobs-end_lease, held-end_lease, session-end_lease, agent_maps-end_lease,
}
use graphzero.MeasureService.Coordinator.Invariant.{Inv}

module _ {Tx : Type 0} (s : CoordinatorState Tx) (job_id : ℕ) (active : ActiveLease)
    (p : Bool) where
  abbrev pub middle : CoordinatorState Tx
  middle = requeue_job s job_id active p

  pub leased-requeue_active :
      (k : ℕ)
      → leased (requeue_active s job_id active p) k ≡ (if job_id == k then none else leased s k)
  unfolding requeue_active
  leased-requeue_active k =
      rw ((jobs-end_lease middle job_id active).0) (leased-requeue_job s job_id active p k)

  pub held-requeue_active :
      (d k : ℕ)
      → held (requeue_active s job_id active p) d k ≡ (
          if active.device_id == d && job_id == k
          then (if is_lease (session s d) active.current_session_id
                && is_lease (held s d k) active.lease_id
              then none
              else held s d k)
          else held s d k)
  unfolding requeue_active
  held-requeue_active d k =
      simp (agents-requeue_job s job_id active p) at (held-end_lease middle job_id active d k)

  pub session-requeue_active : (d : ℕ) → session (requeue_active s job_id active p) d ≡ session s d
  unfolding requeue_active
  session-requeue_active d =
      session-end_lease middle job_id active d
      ∙ ap (λ (agents : List (ℕ × AgentSession Tx)). session_in (Assoc.lookup d agents))
          (agents-requeue_job s job_id active p)

  pub maps-requeue_active : IsMap s.jobs → IsMap (requeue_active s job_id active p).jobs
  unfolding requeue_active
  maps-requeue_active m =
      rw ((jobs-end_lease middle job_id active).0) (maps-requeue_job s job_id active p m)

  pub agent_maps-requeue_active : IsMap s.agents → IsMap (requeue_active s job_id active p).agents
  unfolding requeue_active
  agent_maps-requeue_active m =
      agent_maps-end_lease middle job_id active (rw (agents-requeue_job s job_id active p) m)

  pub queued-requeue_active :
      ((k : ℕ) → count k s.queue ≡ waiting (Assoc.lookup k s.jobs))
      → (k : ℕ)
      → count k (requeue_active s job_id active p).queue
        ≡ waiting (Assoc.lookup k (requeue_active s job_id active p).jobs)
  unfolding requeue_active
  queued-requeue_active v k =
      rw ((jobs-end_lease middle job_id active).0, (jobs-end_lease middle job_id active).1)
        (queue-requeue_job s job_id active p v k)

  pub recovery-requeue_active :
      ((k : ℕ) → keeps_to_queue (Assoc.lookup k s.jobs) ≡ true)
      → (k : ℕ) → keeps_to_queue (Assoc.lookup k (requeue_active s job_id active p).jobs) ≡ true
  unfolding requeue_active
  recovery-requeue_active v k =
      rw ((jobs-end_lease middle job_id active).0) (recovery-requeue_job s job_id active p v k)

  -- A job that is leased under this lease, or not at all, goes back to the queue.
  pub requeue_active-Inv :
      (leased s job_id ≡ some active) ⊎ (leased s job_id ≡ none)
      → Inv s
      → Inv (requeue_active s job_id active p)
  requeue_active-Inv h v = record {
    maps = maps-requeue_active v.maps;
    agent_maps = agent_maps-requeue_active v.agent_maps;
    queued = queued-requeue_active v.queued;
    recovery = recovery-requeue_active v.recovery;
    agreed = λ d k. ground (
      arith,
      held-requeue_active d k,
      leased-requeue_active k,
      v.agreed d k,
      h,
      v.current job_id active,
    );
    current = λ k a e.
        ground
          (arith, session-requeue_active a.device_id, leased-requeue_active k, v.current k a, e);
  }

lookup-head :
    (entry : ℕ × Job) (jobs : List (ℕ × Job)) → Assoc.lookup entry.0 (entry ∷ jobs) ≡ some entry.1
unfolding Assoc.lookup
lookup-head entry jobs = ground arith

lookup-tail :
    (entry : ℕ × Job) (jobs : List (ℕ × Job)) (k : ℕ) (job : Job)
    → Assoc.lookup entry.0 jobs ≡ none
    → Assoc.lookup k jobs ≡ some job
    → Assoc.lookup k (entry ∷ jobs) ≡ some job
unfolding Assoc.lookup
lookup-tail entry jobs k job m h = elim (Bool-cases (entry.0 == k)) [
  | inl e ↦ absurd (differ (ap (λ n. Assoc.lookup n jobs) (==→eq entry.0 k e)))
  | inr e ↦ rw e h
]
  where
    differ : Assoc.lookup entry.0 jobs ≡ Assoc.lookup k jobs → ⊥
    differ same = cc

module _ {Tx : Type 0} where
  -- The entries of a list of leases are those of the jobs, or of jobs that are not leased.
  abbrev Current : CoordinatorState Tx → List (ℕ × ActiveLease) → Type 0
  Current s [] = Unit {0}
  Current s (entry ∷ rest) =
      ((leased s entry.0 ≡ some entry.1) ⊎ (leased s entry.0 ≡ none)) × Current s rest

  Current-requeue_active :
      (s : CoordinatorState Tx) (entry : ℕ × ActiveLease) (rest : List (ℕ × ActiveLease))
      → Current s rest
      → Current (requeue_active s entry.0 entry.1 false) rest
  Current-requeue_active s entry [] c = tt
  Current-requeue_active s entry (other ∷ rest) c = (
    ground (arith, c.0, leased-requeue_active s entry.0 entry.1 false other.0),
    Current-requeue_active s entry rest c.1,
  )

  requeue_all-Inv :
      (s : CoordinatorState Tx) (entries : List (ℕ × ActiveLease))
      → Current s entries
      → Inv s
      → Inv (requeue_all s entries)
  unfolding requeue_all
  requeue_all-Inv s [] c v = v
  requeue_all-Inv s (entry ∷ rest) c v =
      requeue_all-Inv (requeue_active s entry.0 entry.1 false) rest
        (Current-requeue_active s entry rest c.1) (requeue_active-Inv s entry.0 entry.1 false c.0 v)

  -- The leases that have run out are those of the jobs.
  expired-Current :
      (s : CoordinatorState Tx) (now : ℕ) (jobs : List (ℕ × Job))
      → IsMap jobs
      → ((k : ℕ) (job : Job) → Assoc.lookup k jobs ≡ some job → leased s k ≡ lease_of job.state)
      → Current s (expired now jobs)
  unfolding expired
  expired-Current s now [] m sub = tt
  expired-Current s now (entry ∷ jobs) m sub = ground (
    arith,
    expired-Current s now jobs m.1 (λ k job h. sub k job (lookup-tail entry jobs k job m.0 h)),
    sub entry.0 entry.1 (lookup-head entry jobs),
  )

  -- Requeueing what has run out keeps the invariant.
  pub expire_leases-Inv : (s : CoordinatorState Tx) (now : ℕ) → Inv s → Inv (expire_leases s now)
  unfolding expire_leases
  expire_leases-Inv s now v =
      requeue_all-Inv s (expired now s.jobs)
        (expired-Current s now s.jobs v.maps (λ k job h. ap lease_in h)) v
