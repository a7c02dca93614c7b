-- ===== src/MeasureService/Coordinator/Ledger/Unchanged.antt =====
-- The requeueing of jobs, the end of sessions and the scheduler keep the known jobs and the
-- receipts: crates/gz-measure-service/src/coordinator.rs, `requeue_active`, `expire_leases`,
-- `remove_agent_session` and `schedule`.
use graphzero.Base.{
  ap, ℕ, zero, suc, ◌≡◌, refl, inl, inr, Bool, false, Option, none, some, List, [], ◌∷◌, arith,
  Option-cases,
}
use graphzero.Base.Assoc
use graphzero.Base.Sums.{sum_by-insert_old}
use graphzero.MeasureService.Coordinator.{
  CommandChannel, CoordinatorConfig, ActiveLease, Job, AgentSession, CoordinatorState,
}
use graphzero.MeasureService.Coordinator.Sessions.{
  requeue_job, end_lease, requeue_active, expired, requeue_all, expire_leases, matching_lease,
  requeue_if, requeue_session, remove_agent_session,
}
use graphzero.MeasureService.Coordinator.Schedule.{
  total_free, assign, round, schedule_from, schedule, find_assignment, new_lease, lease_command,
}
use graphzero.MeasureService.Coordinator.Ledger.{
  SameStore, named_in, Keeps, Keeps-refl, Keeps-trans, Keeps-jobs,
}

module _ {Tx : Type 0} where
  -- The record of a known job is replaced.
  pub replaced-Keeps :
      (s : CoordinatorState Tx) (j : ℕ) (old job : Job) (t : CoordinatorState Tx)
      → Assoc.lookup j s.jobs ≡ some old
      → job.descriptors ≡ old.descriptors
      → t.jobs ≡ Assoc.insert j job s.jobs
      → t.receipts ≡ s.receipts
      → SameStore s t
      → Keeps s t
  replaced-Keeps s j old job t h d e r store = record {
    receipts = r;
    known = λ k. rw e (Assoc.has-insert j k old job s.jobs h);
    size = rw e (Assoc.length-insert_old j old job s.jobs h);
    named_same = λ g. rw e (
        omega (
          arith,
          sum_by-insert_old (λ (job : Job). named_in g job.descriptors) j job old s.jobs h,
          ap (named_in g) d,
        ));
    store = store;
  }

  requeue_job-Keeps :
      (s : CoordinatorState Tx) (j : ℕ) (a : ActiveLease) (p : Bool) → Keeps s (requeue_job s j a p)
  unfolding requeue_job
  requeue_job-Keeps s j a p = elim (Option-cases (Assoc.lookup j s.jobs)) [
    | inl e ↦ rw (e, requeue_job) (Keeps-refl s)
    | inr (job, e) ↦ rw (e, requeue_job) (replaced-Keeps s j job _ _ e refl refl refl (refl, refl))
  ]

  end_lease-Keeps : (s : CoordinatorState Tx) (j : ℕ) (a : ActiveLease) → Keeps s (end_lease s j a)
  unfolding end_lease
  end_lease-Keeps s j a =
      Keeps-jobs s (end_lease s j a) (ground arith) (ground arith) (ground arith, ground arith)

  pub requeue_active-Keeps :
      (s : CoordinatorState Tx) (j : ℕ) (a : ActiveLease) (p : Bool)
      → Keeps s (requeue_active s j a p)
  unfolding requeue_active
  requeue_active-Keeps s j a p =
      Keeps-trans s (requeue_job s j a p) _ (requeue_job-Keeps s j a p)
        (end_lease-Keeps (requeue_job s j a p) j a)

  requeue_all-Keeps :
      (s : CoordinatorState Tx) (entries : List (ℕ × ActiveLease)) → Keeps s (requeue_all s entries)
  unfolding requeue_all
  requeue_all-Keeps s [] = Keeps-refl s
  requeue_all-Keeps s (entry ∷ rest) =
      Keeps-trans s (requeue_active s entry.0 entry.1 false) _
        (requeue_active-Keeps s entry.0 entry.1 false)
        (requeue_all-Keeps (requeue_active s entry.0 entry.1 false) rest)

  pub expire_leases-Keeps : (s : CoordinatorState Tx) (now : ℕ) → Keeps s (expire_leases s now)
  unfolding expire_leases
  expire_leases-Keeps s now = requeue_all-Keeps s (expired now s.jobs)

  requeue_if-Keeps :
      (s : CoordinatorState Tx) (j : ℕ) (o : Option (ActiveLease × Bool))
      → Keeps s (requeue_if s j o)
  requeue_if-Keeps s j none = Keeps-refl s
  requeue_if-Keeps s j (some (a, p)) = requeue_active-Keeps s j a p

  requeue_session-Keeps :
      (s : CoordinatorState Tx) (es : List (ℕ × ℕ)) → Keeps s (requeue_session s es)
  unfolding requeue_session
  requeue_session-Keeps s [] = Keeps-refl s
  requeue_session-Keeps s (e ∷ es) =
      let o = matching_lease (Assoc.lookup e.0 s.jobs) e.1 in
      Keeps-trans s (requeue_if s e.0 o) _ (requeue_if-Keeps s e.0 o)
        (requeue_session-Keeps (requeue_if s e.0 o) es)

  pub remove_agent_session-Keeps :
      (s : CoordinatorState Tx) (d : ℕ) → Keeps s (remove_agent_session s d)
  unfolding remove_agent_session
  remove_agent_session-Keeps s d = elim (Option-cases (Assoc.lookup d s.agents)) [
    | inl e ↦ rw (e, remove_agent_session) (Keeps-refl s)
    | inr (agent, e) ↦
        rw (e, remove_agent_session)
          (Keeps-trans s (record s { agents = Assoc.remove d s.agents }) _
            (Keeps-jobs s _ refl refl (refl, refl))
            (requeue_session-Keeps (record s { agents = Assoc.remove d s.agents }) agent.active))
  ]

module _ {Tx : Type 0} ⦃channel : CommandChannel Tx⦄ where
  assign-Keeps :
      (config : CoordinatorConfig) (s : CoordinatorState Tx) (j d : ℕ) (job : Job)
      (agent : AgentSession Tx) (a : ActiveLease)
      → Assoc.lookup j s.jobs ≡ some job
      → Keeps s (assign config s j d job agent a)
  unfolding assign
  assign-Keeps config s j d job agent a h =
      elim (Option-cases (channel.try_send agent.command_tx (lease_command config job j a))) [
        | inl e ↦
            rw (e, assign)
              (Keeps-trans s _ _ (replaced-Keeps s j job _ _ h refl refl refl (refl, refl))
                (remove_agent_session-Keeps _ d))
        | inr (tx, e) ↦ rw (e, assign) (replaced-Keeps s j job _ _ h refl refl refl (refl, refl))
      ]

  round-Keeps :
      (config : CoordinatorConfig) (now l : ℕ) (s : CoordinatorState Tx) (j d : ℕ)
      → Keeps s (round config now l s (j, d))
  unfolding round
  round-Keeps config now l s j d = elim (Option-cases (Assoc.lookup j s.jobs)) [
    | inl e ↦ rw (e, round) (Keeps-refl s)
    | inr (job, e) ↦
        rw (e, round)
          (elim (Option-cases (Assoc.lookup d s.agents)) [
            | inl f ↦ rw f (Keeps-refl s)
            | inr (agent, f) ↦
                rw f (assign-Keeps config s j d job agent (new_lease config agent d l now) e)
          ])
  ]

  schedule_from-Keeps :
      (fuel : ℕ) (config : CoordinatorConfig) (now : ℕ) (draws : ℕ → ℕ) (s : CoordinatorState Tx)
      → Keeps s (schedule_from fuel config now draws s)
  unfolding schedule_from
  schedule_from-Keeps zero config now draws s = Keeps-refl s
  schedule_from-Keeps (suc fuel) config now draws s =
      elim (Option-cases (find_assignment s.jobs s.agents s.queue)) [
        | inl e ↦ rw (e, schedule_from) (Keeps-refl s)
        | inr ((j, d), e) ↦
            rw (e, schedule_from)
              (Keeps-trans s (round config now (draws 0) s (j, d)) _
                (round-Keeps config now (draws 0) s j d)
                (schedule_from-Keeps fuel config now (λ n. draws (suc n))
                  (round config now (draws 0) s (j, d))))
      ]

  pub schedule-Keeps :
      (config : CoordinatorConfig) (now : ℕ) (draws : ℕ → ℕ) (s : CoordinatorState Tx)
      → Keeps s (schedule config now draws s)
  unfolding schedule
  schedule-Keeps config now draws s = schedule_from-Keeps (total_free s.agents) config now draws s
