-- ===== src/MeasureService/Coordinator/Invariant/Termination.antt =====
-- The scheduler ends of its own: crates/gz-measure-service/src/coordinator.rs, `schedule`. Each
-- round takes a free slot, or ends the session of an agent that has one.
use graphzero.Base.{
  ℕ, zero, suc, ◌+◌, ◌-◌, ◌≤◌, ◌<◌, ◌≡◌, refl, ap, ◌∙◌, inl, inr, Bool, true, false, Option, none,
  some, List, [], ◌∷◌, ltb→lt, ==→eq, arith, Option-cases,
}
use graphzero.Base.Assoc
use graphzero.Base.Sums.{IsMap, sum_by, sum_by-insert_old, sum_by-remove}
use graphzero.MeasureService.Coordinator.{
  CommandChannel, CoordinatorConfig, ActiveLease, Job, AgentSession, CoordinatorState,
}
use graphzero.MeasureService.Coordinator.Sessions.{
  requeue_job, end_lease, requeue_active, matching_lease, requeue_if, requeue_session,
  remove_agent_session,
}
use graphzero.MeasureService.Coordinator.Schedule.{
  agent_matches, find_agent, find_assignment, new_lease, round, total_free, schedule_from, schedule,
}
use graphzero.MeasureService.Coordinator.View.{count}
use graphzero.MeasureService.Coordinator.View.Requeue.{agents-requeue_job}
use graphzero.MeasureService.Coordinator.Invariant.{Inv}
use graphzero.MeasureService.Coordinator.Invariant.Offers.{offer, offer-agent_maps}
use graphzero.MeasureService.Coordinator.Invariant.Schedule.{
  find_assignment_sound, assign_cases, round-assign, round-Inv,
}

module _ {Tx : Type 0} where
  abbrev free : AgentSession Tx → ℕ
  free agent = agent.free_slots

  total_free-sum_by : (agents : List (ℕ × AgentSession Tx)) → total_free agents ≡ sum_by free agents
  unfolding total_free sum_by
  total_free-sum_by [] = refl
  total_free-sum_by (entry ∷ agents) = omega (arith, total_free-sum_by agents)

  total_free-insert :
      (d : ℕ) (old new : AgentSession Tx) (agents : List (ℕ × AgentSession Tx))
      → Assoc.lookup d agents ≡ some old
      → total_free (Assoc.insert d new agents) + old.free_slots ≡ total_free agents + new.free_slots
  total_free-insert d old new agents h = omega (
    arith,
    total_free-sum_by agents,
    total_free-sum_by (Assoc.insert d new agents),
    sum_by-insert_old free d new old agents h,
  )

  total_free-end_lease :
      (s : CoordinatorState Tx) (j : ℕ) (a : ActiveLease)
      → total_free (end_lease s j a).agents ≡ total_free s.agents
  unfolding end_lease
  total_free-end_lease s j a = elim (Option-cases (Assoc.lookup a.device_id s.agents)) [
    | inl e ↦ ground arith
    | inr (agent, e) ↦ ground (
      arith,
      total_free-insert a.device_id agent (record agent { active = Assoc.remove j agent.active })
          s.agents e,
    )
  ]

  total_free-requeue_active :
      (s : CoordinatorState Tx) (j : ℕ) (a : ActiveLease) (p : Bool)
      → total_free (requeue_active s j a p).agents ≡ total_free s.agents
  unfolding requeue_active
  total_free-requeue_active s j a p =
      total_free-end_lease (requeue_job s j a p) j a ∙ ap total_free (agents-requeue_job s j a p)

  total_free-requeue_if :
      (s : CoordinatorState Tx) (j : ℕ) (o : Option (ActiveLease × Bool))
      → total_free (requeue_if s j o).agents ≡ total_free s.agents
  total_free-requeue_if s j none = refl
  total_free-requeue_if s j (some (a, p)) = total_free-requeue_active s j a p

  total_free-requeue_session :
      (s : CoordinatorState Tx) (es : List (ℕ × ℕ))
      → total_free (requeue_session s es).agents ≡ total_free s.agents
  unfolding requeue_session
  total_free-requeue_session s [] = refl
  total_free-requeue_session s (e ∷ es) =
      let found = matching_lease (Assoc.lookup e.0 s.jobs) e.1 in
      total_free-requeue_session (requeue_if s e.0 found) es ∙ total_free-requeue_if s e.0 found

  total_free-remove_agent_session :
      (s : CoordinatorState Tx) (d : ℕ)
      → IsMap s.agents
      → total_free (remove_agent_session s d).agents ≤ total_free s.agents
  unfolding remove_agent_session
  total_free-remove_agent_session s d m = elim (Option-cases (Assoc.lookup d s.agents)) [
    | inl e ↦ ground arith
    | inr (agent, e) ↦ ground (
      arith,
      total_free-requeue_session (record s { agents = Assoc.remove d s.agents }) agent.active,
      sum_by-remove free d agent s.agents m e,
      total_free-sum_by s.agents,
      total_free-sum_by (Assoc.remove d s.agents),
    )
  ]

  find_agent_complete :
      (agents : List (ℕ × AgentSession Tx)) (job : Job) (d : ℕ) (agent : AgentSession Tx)
      → find_agent agents job ≡ none
      → Assoc.lookup d agents ≡ some agent
      → agent_matches agent job ≡ false
  unfolding find_agent Assoc.lookup
  find_agent_complete [] job d agent h l = cc
  find_agent_complete (entry ∷ agents) job d agent h l =
      ground (arith, find_agent_complete agents job d agent)

  find_assignment_complete :
      (jobs : List (ℕ × Job)) (agents : List (ℕ × AgentSession Tx)) (queue : List ℕ) (j d : ℕ)
      (job : Job) (agent : AgentSession Tx)
      → find_assignment jobs agents queue ≡ none
      → 0 < count j queue
      → Assoc.lookup j jobs ≡ some job
      → Assoc.lookup d agents ≡ some agent
      → agent_matches agent job ≡ false
  unfolding find_assignment
  find_assignment_complete jobs agents [] j d job agent h n hj hd = absurd (omega arith)
  find_assignment_complete jobs agents (x ∷ queue) j d job agent h n hj hd = ground (
    arith,
    find_assignment_complete jobs agents queue j d job agent,
    find_agent_complete agents job d agent,
    ==→eq x j,
  )

module _ {Tx : Type 0} ⦃channel : CommandChannel Tx⦄ where
  total_free-offer :
      (s : CoordinatorState Tx) (j d : ℕ) (job : Job) (agent : AgentSession Tx) (a : ActiveLease)
      (tx : Tx)
      → Assoc.lookup d s.agents ≡ some agent
      → 0 < agent.free_slots
      → total_free (offer s j d job agent a tx).agents < total_free s.agents
  total_free-offer s j d job agent a tx h f = omega (
    arith,
    total_free-insert d agent
        (record agent {
          free_slots = agent.free_slots - 1;
          active = Assoc.insert j a.lease_id agent.active;
          command_tx = tx;
        })
        s.agents h,
  )

  agent_matches-free :
      (agent : AgentSession Tx) (job : Job) → agent_matches agent job ≡ true → 0 < agent.free_slots
  unfolding agent_matches
  agent_matches-free agent job h = ground (arith, ltb→lt 0 agent.free_slots)

  total_free-round :
      (config : CoordinatorConfig) (now l : ℕ) (s : CoordinatorState Tx) (j d : ℕ)
      → find_assignment s.jobs s.agents s.queue ≡ some (j, d)
      → Inv s
      → total_free (round config now l s (j, d)).agents < total_free s.agents
  total_free-round config now l s j d h v =
      let (job, agent, hj, hd, match, n) =
        find_assignment_sound s.jobs s.agents s.queue j d v.agent_maps h in
      let a : ActiveLease = new_lease config agent d l now in
      let f = agent_matches-free agent job match in
      rw (round-assign config now l s j d job agent hj hd)
        (elim (assign_cases config s j d job agent a) [
          | inl (tx, e) ↦ rw e (total_free-offer s j d job agent a tx hd f)
          | inr e ↦ rw e (
              omega (
                arith,
                total_free-offer s j d job agent a agent.command_tx hd f,
                total_free-remove_agent_session (offer s j d job agent a agent.command_tx) d
                    (offer-agent_maps s j d job agent a agent.command_tx v.agent_maps),
              ))
        ])

  schedule_from-settled :
      (fuel : ℕ) (config : CoordinatorConfig) (now : ℕ) (draws : ℕ → ℕ) (s : CoordinatorState Tx)
      → Inv s
      → total_free s.agents ≤ fuel
      → let t = schedule_from fuel config now draws s in
        find_assignment t.jobs t.agents t.queue ≡ none
  unfolding schedule_from
  schedule_from-settled zero config now draws s v enough =
      elim (Option-cases (find_assignment s.jobs s.agents s.queue)) [
        | inl e ↦ e
        | inr ((j, d), e) ↦ absurd (omega (arith, total_free-round config now 0 s j d e v))
      ]
  schedule_from-settled (suc fuel) config now draws s v enough =
      elim (Option-cases (find_assignment s.jobs s.agents s.queue)) [
        | inl e ↦ rw (e, schedule_from) e
        | inr ((j, d), e) ↦
            rw (e, schedule_from)
              (schedule_from-settled fuel config now (λ n. draws (suc n))
                (round config now (draws 0) s (j, d)) (round-Inv config now (draws 0) s j d e v)
                (omega (arith, total_free-round config now (draws 0) s j d e v)))
      ]

  -- From a consistent state the scheduler's loop ends of its own, within as many rounds as agents
  -- report free slots, and then no job that is still queued can be taken by any connected agent.
  pub schedule_settles :
      (config : CoordinatorConfig) (now : ℕ) (draws : ℕ → ℕ) (s : CoordinatorState Tx)
      → Inv s
      → let t = schedule config now draws s in
        (find_assignment t.jobs t.agents t.queue ≡ none)
        × ((j d : ℕ) (job : Job) (agent : AgentSession Tx)
            → 0 < count j t.queue
            → Assoc.lookup j t.jobs ≡ some job
            → Assoc.lookup d t.agents ≡ some agent
            → agent_matches agent job ≡ false)
  unfolding schedule
  schedule_settles config now draws s v =
      let t = schedule_from (total_free s.agents) config now draws s in
      let e = schedule_from-settled (total_free s.agents) config now draws s v (omega arith) in
      (
        e,
        λ j d job agent n hj hd.
            find_assignment_complete t.jobs t.agents t.queue j d job agent e n hj hd,
      )
