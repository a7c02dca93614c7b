-- ===== src/MeasureService/Coordinator/Invariant/Schedule.antt =====
-- The scheduler keeps the invariant, and ends with no queued job that an agent could take:
-- crates/gz-measure-service/src/coordinator.rs, `schedule`.
use graphzero.Base.{
  ℕ, zero, suc, ◌<◌, ◌≡◌, refl, ◌⊎◌, inl, inr, true, none, some, List, [], ◌∷◌, arith, Bool-cases,
  Option-cases, ==→eq,
}
use graphzero.Base.Assoc
use graphzero.Base.Sums.{IsMap}
use graphzero.MeasureService.Coordinator.{
  CommandChannel, CoordinatorConfig, ActiveLease, Job, AgentSession, CoordinatorState,
}
use graphzero.MeasureService.Coordinator.Sessions.{remove_agent_session}
use graphzero.MeasureService.Coordinator.Schedule.{
  agent_matches, find_agent, find_assignment, new_lease, lease_command, assign, round, total_free,
  schedule_from, schedule,
}
use graphzero.MeasureService.Coordinator.View.{count, is_queued_state}
use graphzero.MeasureService.Coordinator.Invariant.{Inv}
use graphzero.MeasureService.Coordinator.Invariant.Sessions.{remove_agent_session-Inv}
use graphzero.MeasureService.Coordinator.Invariant.Offers.{offer, offer-Inv}

module _ {Tx : Type 0} where
  lookup-tail :
      (entry : ℕ × AgentSession Tx) (agents : List (ℕ × AgentSession Tx)) (d : ℕ)
      (agent : AgentSession Tx)
      → Assoc.lookup entry.0 agents ≡ none
      → Assoc.lookup d agents ≡ some agent
      → Assoc.lookup d (entry ∷ agents) ≡ some agent
  unfolding Assoc.lookup
  lookup-tail entry agents d agent m h = ground (arith, ==→eq entry.0 d)

  pub find_agent_sound :
      (agents : List (ℕ × AgentSession Tx)) (job : Job) (d : ℕ)
      → IsMap agents
      → find_agent agents job ≡ some d
      → (agent : AgentSession Tx) × (Assoc.lookup d agents ≡ some agent)
        × (agent_matches agent job ≡ true)
  unfolding find_agent Assoc.lookup
  find_agent_sound [] job d m h = cc
  find_agent_sound (entry ∷ agents) job d m h = elim (Bool-cases (agent_matches entry.1 job)) [
    | inl e ↦ (entry.1, ground arith, e)
    | inr e ↦
        let (agent, q, r) = find_agent_sound agents job d m.1 (ground arith) in
        (agent, lookup-tail entry agents d agent m.0 q, r)
  ]

  -- A job of the queue and an agent that can take it.
  abbrev pub Takeable : List (ℕ × Job) → List (ℕ × AgentSession Tx) → List ℕ → ℕ → ℕ → Type 0
  Takeable jobs agents queue j d =
      (job : Job) × (agent : AgentSession Tx) × (Assoc.lookup j jobs ≡ some job)
      × (Assoc.lookup d agents ≡ some agent)
      × (agent_matches agent job ≡ true)
      × (0 < count j queue)

  later :
      (jobs : List (ℕ × Job)) (agents : List (ℕ × AgentSession Tx)) (x : ℕ) (queue : List ℕ)
      (j d : ℕ)
      → Takeable jobs agents queue j d
      → Takeable jobs agents (x ∷ queue) j d
  later jobs agents x queue j d (job, agent, a, b, c, n) = (job, agent, a, b, c, ground arith)

  pub find_assignment_sound :
      (jobs : List (ℕ × Job)) (agents : List (ℕ × AgentSession Tx)) (queue : List ℕ) (j d : ℕ)
      → IsMap agents
      → find_assignment jobs agents queue ≡ some (j, d)
      → Takeable jobs agents queue j d
  unfolding find_assignment
  find_assignment_sound jobs agents [] j d m h = cc
  find_assignment_sound jobs agents (x ∷ queue) j d m h =
      let ih = λ (g : find_assignment jobs agents queue ≡ some (j, d)).
        later jobs agents x queue j d (find_assignment_sound jobs agents queue j d m g) in
      elim (Option-cases (Assoc.lookup x jobs)) [
        | inl e ↦ ih (ground arith)
        | inr (job, e) ↦ elim (Option-cases (find_agent agents job)) [
          | inl q ↦ ih (ground arith)
          | inr (d', q) ↦
              let (agent, r, t) = find_agent_sound agents job d' m q in
              (job, agent, ground arith, ground arith, t, ground arith)
        ]
      ]

module _ {Tx : Type 0} ⦃channel : CommandChannel Tx⦄ where
  -- The two outcomes of a round.
  pub assign_cases :
      (config : CoordinatorConfig) (s : CoordinatorState Tx) (j d : ℕ) (job : Job)
      (agent : AgentSession Tx) (a : ActiveLease)
      → ((tx : Tx) × (assign config s j d job agent a ≡ offer s j d job agent a tx))
        ⊎ (assign config s j d job agent a
            ≡ remove_agent_session (offer s j d job agent a agent.command_tx) d)
  unfolding assign
  assign_cases config s j d job agent a =
      elim (Option-cases (channel.try_send agent.command_tx (lease_command config job j a))) [
        | inl e ↦ inr (ground arith)
        | inr (tx, e) ↦ inl (tx, ground arith)
      ]

  pub round-assign :
      (config : CoordinatorConfig) (now l : ℕ) (s : CoordinatorState Tx) (j d : ℕ) (job : Job)
      (agent : AgentSession Tx)
      → Assoc.lookup j s.jobs ≡ some job
      → Assoc.lookup d s.agents ≡ some agent
      → round config now l s (j, d) ≡ assign config s j d job agent (new_lease config agent d l now)
  unfolding round
  round-assign config now l s j d job agent hj hd = rw (hj, round) (rw hd)

  pub round-Inv :
      (config : CoordinatorConfig) (now l : ℕ) (s : CoordinatorState Tx) (j d : ℕ)
      → find_assignment s.jobs s.agents s.queue ≡ some (j, d)
      → Inv s
      → Inv (round config now l s (j, d))
  round-Inv config now l s j d h v =
      let (job, agent, hj, hd, match, n) =
        find_assignment_sound s.jobs s.agents s.queue j d v.agent_maps h in
      let a : ActiveLease = new_lease config agent d l now in
      let queued_job : is_queued_state job.state ≡ true = ground (arith, v.queued j, hj, n) in
      rw (round-assign config now l s j d job agent hj hd)
        (elim (assign_cases config s j d job agent a) [
          | inl (tx, e) ↦ rw e (offer-Inv s j d job agent a tx hj queued_job hd refl refl v)
          | inr e ↦ rw e (
              remove_agent_session-Inv _ d
                (offer-Inv s j d job agent a agent.command_tx hj queued_job hd refl refl v))
        ])

  schedule_from-Inv :
      (fuel : ℕ) (config : CoordinatorConfig) (now : ℕ) (draws : ℕ → ℕ) (s : CoordinatorState Tx)
      → Inv s
      → Inv (schedule_from fuel config now draws s)
  unfolding schedule_from
  schedule_from-Inv zero config now draws s v = v
  schedule_from-Inv (suc fuel) config now draws s v =
      elim (Option-cases (find_assignment s.jobs s.agents s.queue)) [
        | inl e ↦ rw (e, schedule_from) v
        | inr ((j, d), e) ↦
            rw (e, schedule_from)
              (schedule_from-Inv fuel config now (λ n. draws (suc n))
                (round config now (draws 0) s (j, d)) (round-Inv config now (draws 0) s j d e v))
      ]

  pub schedule-Inv :
      (config : CoordinatorConfig) (now : ℕ) (draws : ℕ → ℕ) (s : CoordinatorState Tx)
      → Inv s
      → Inv (schedule config now draws s)
  unfolding schedule
  schedule-Inv config now draws s v = schedule_from-Inv (total_free s.agents) config now draws s v
