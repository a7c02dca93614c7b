-- ===== src/MeasureService/Coordinator/View/Requeue.antt =====
-- What a requeued job changes of the observations: crates/gz-measure-service/src/coordinator.rs,
-- `requeue_active`.
use graphzero.Base.{
  ℕ, ◌≡◌, inl, inr, Bool, true, ◌&&◌, none, some, if◌then◌else◌, ◌==◌, arith, Bool-cases,
  Option-cases,
}
use graphzero.Base.Assoc
use graphzero.Base.Sums.{IsMap, IsMap-insert}
use graphzero.MeasureService.Coordinator.{ActiveLease, queued, Job, CoordinatorState, is_lease}
use graphzero.MeasureService.Coordinator.Sessions.{requeue_job, end_lease}
use graphzero.MeasureService.Coordinator.View.{keeps_to_queue, waiting, leased, held, session}
use graphzero.MeasureService.Coordinator.View.Counting.{count, count-append, is_queued-count}

module _ {Tx : Type 0} (s : CoordinatorState Tx) (job_id : ℕ) (active : ActiveLease) where
  module _ (preserve : Bool) where
    abbrev pub requeued : Job → Job
    requeued job = record job { state = queued; recovery = if preserve then some active else none }

    pub leased-requeue_job :
        (k : ℕ)
        → leased (requeue_job s job_id active preserve) k
          ≡ (if job_id == k then none else leased s k)
    unfolding requeue_job
    leased-requeue_job k = elim (Option-cases (Assoc.lookup job_id s.jobs)) [
      | inl e ↦ ground arith
      | inr (job, e) ↦ ground (arith, Assoc.lookup-insert job_id k (requeued job) s.jobs)
    ]

    pub queue-requeue_job :
        ((k : ℕ) → count k s.queue ≡ waiting (Assoc.lookup k s.jobs))
        → (k : ℕ)
        → count k (requeue_job s job_id active preserve).queue
          ≡ waiting (Assoc.lookup k (requeue_job s job_id active preserve).jobs)
    unfolding requeue_job
    queue-requeue_job v k = elim (Option-cases (Assoc.lookup job_id s.jobs)) [
      | inl e ↦ ground (arith, v k)
      | inr (job, e) ↦ ground (
        arith,
        v job_id,
        v k,
        is_queued-count job_id s.queue,
        count-append k job_id s.queue,
        Assoc.lookup-insert job_id k (requeued job) s.jobs,
      )
    ]

    pub recovery-requeue_job :
        ((k : ℕ) → keeps_to_queue (Assoc.lookup k s.jobs) ≡ true)
        → (k : ℕ)
        → keeps_to_queue (Assoc.lookup k (requeue_job s job_id active preserve).jobs) ≡ true
    unfolding requeue_job
    recovery-requeue_job v k = elim (Option-cases (Assoc.lookup job_id s.jobs)) [
      | inl e ↦ ground (arith, v k)
      | inr (job, e) ↦ ground (arith, v k, Assoc.lookup-insert job_id k (requeued job) s.jobs)
    ]

    pub maps-requeue_job : IsMap s.jobs → IsMap (requeue_job s job_id active preserve).jobs
    unfolding requeue_job
    maps-requeue_job m = elim (Option-cases (Assoc.lookup job_id s.jobs)) [
      | inl e ↦ rw (e, requeue_job) m
      | inr (job, e) ↦ rw (e, requeue_job) (IsMap-insert job_id (requeued job) s.jobs m)
    ]

    pub agents-requeue_job : (requeue_job s job_id active preserve).agents ≡ s.agents
    unfolding requeue_job
    agents-requeue_job = ground arith

  pub jobs-end_lease :
      ((end_lease s job_id active).jobs ≡ s.jobs) × ((end_lease s job_id active).queue ≡ s.queue)
  unfolding end_lease
  jobs-end_lease = ground arith

  -- The lease ends at the agent exactly where the agent holds it in the session that it names.
  pub held-end_lease :
      (d k : ℕ)
      → held (end_lease s job_id active) d k ≡ (
          if active.device_id == d && job_id == k
          then (if is_lease (session s d) active.current_session_id
                && is_lease (held s d k) active.lease_id
              then none
              else held s d k)
          else held s d k)
  unfolding end_lease
  held-end_lease d k = elim (Option-cases (Assoc.lookup active.device_id s.agents)) [
    | inl e ↦ ground arith
    | inr (agent, e) ↦ ground (
      arith,
      Assoc.lookup-insert active.device_id d
          (record agent { active = Assoc.remove job_id agent.active }) s.agents,
      Assoc.lookup-remove job_id k agent.active,
    )
  ]

  pub agent_maps-end_lease : IsMap s.agents → IsMap (end_lease s job_id active).agents
  unfolding end_lease
  agent_maps-end_lease m = elim (Option-cases (Assoc.lookup active.device_id s.agents)) [
    | inl e ↦ rw (e, end_lease) m
    | inr (agent, e) ↦
        rw (e, end_lease)
          (elim (Bool-cases (
            agent.session_id == active.current_session_id
            && is_lease (Assoc.lookup job_id agent.active) active.lease_id)) [
              | inl q ↦ rw q (IsMap-insert _ _ s.agents m)
              | inr q ↦ rw q m
            ])
  ]

  pub session-end_lease : (d : ℕ) → session (end_lease s job_id active) d ≡ session s d
  unfolding end_lease
  session-end_lease d = elim (Option-cases (Assoc.lookup active.device_id s.agents)) [
    | inl e ↦ ground arith
    | inr (agent, e) ↦ ground (
      arith,
      Assoc.lookup-insert active.device_id d
          (record agent { active = Assoc.remove job_id agent.active }) s.agents,
    )
  ]
