-- ===== src/MeasureService/Coordinator/Invariant/Departures.antt =====
-- A job that leaves the coordinator, cancelled or completed, and agents that drain keep the
-- invariant: crates/gz-measure-service/src/coordinator.rs, `cancel_job`, `submit_result` and
-- `drain_agents`.
use graphzero.Base.{
  ℕ, ◌≡◌, refl, ap, ◌∙◌, inl, inr, true, false, Option, none, some, List, [], ◌∷◌, if◌then◌else◌,
  ◌==◌, arith, Bool-cases, Option-cases,
}
use graphzero.Base.Assoc
use graphzero.Base.Sums.{IsMap, IsMap-insert, IsMap-remove}
use graphzero.MeasureService.Coordinator.{
  CommandChannel, ActiveLease, Job, AgentSession, CoordinatorState, is_lease, unqueue,
}
use graphzero.MeasureService.Receipts.{ReceiptLedger}
use graphzero.MeasureService.Protocol.{cancel_lease, drain}
use graphzero.MeasureService.Coordinator.Sessions.{
  lease_of, cancel_at_agent, cancel_job, drain_each, drain_agents, send_or_skip,
}
use graphzero.MeasureService.Coordinator.Results.{complete_job, without_lease}
use graphzero.MeasureService.Coordinator.View.{count-unqueue, lease_in, leased, held, session}
use graphzero.MeasureService.Coordinator.Invariant.{Inv}
use graphzero.MeasureService.Coordinator.Invariant.Parts.{SameView-Inv, release_all-SameView}

module _ {Tx : Type 0} where
  -- The job is forgotten, and no agent holds a lease of it any more.
  record Left (s t : CoordinatorState Tx) (j : ℕ) : Type 0 where
    jobs : t.jobs ≡ Assoc.remove j s.jobs
    queue : t.queue ≡ unqueue j s.queue
    agent_maps : IsMap t.agents
    held_less : (d k : ℕ) → held t d k ≡ (if j == k then none else held s d k)
    same_session : (d : ℕ) → session t d ≡ session s d

  Left-Inv : (s t : CoordinatorState Tx) (j : ℕ) → Left s t j → Inv s → Inv t
  Left-Inv s t j l v = record {
    maps = rw (l.jobs) (IsMap-remove j s.jobs v.maps);
    agent_maps = l.agent_maps;
    queued = λ k.
        rw (l.jobs, l.queue)
          (ground (
            arith,
            v.queued k,
            count-unqueue k j s.queue,
            Assoc.lookup-remove j k s.jobs,
            v.queued j,
          ));
    recovery = λ k. rw (l.jobs) (ground (arith, v.recovery k, Assoc.lookup-remove j k s.jobs));
    agreed = λ d k.
        rw (l.jobs) (ground (arith, v.agreed d k, l.held_less d k, Assoc.lookup-remove j k s.jobs));
    current = λ k a f. ground (
      arith,
      v.current k a,
      l.same_session a.device_id,
      Assoc.lookup-remove j k s.jobs,
      simp (l.jobs) at f,
    );
  }

  abbrev without_job : CoordinatorState Tx → ℕ → CoordinatorState Tx
  without_job s j = record s { jobs = Assoc.remove j s.jobs; queue = unqueue j s.queue }

  -- Replacing the record of an agent by one that lacks the lease of the job.
  dropped-Left :
      (s : CoordinatorState Tx) (j d : ℕ) (agent agent' : AgentSession Tx) (a : ActiveLease)
      (receipts : ReceiptLedger)
      → Assoc.lookup d s.agents ≡ some agent
      → agent'.session_id ≡ agent.session_id
      → agent'.active ≡ Assoc.remove j agent.active
      → leased s j ≡ some a
      → a.device_id ≡ d
      → Inv s
      → Left s
          (record (without_job s j) {
            agents = Assoc.insert d agent' s.agents;
            receipts = receipts;
          })
          j
  dropped-Left s j d agent agent' a receipts h es ea hl hd v = record {
    jobs = refl;
    queue = refl;
    agent_maps = IsMap-insert d agent' s.agents v.agent_maps;
    held_less = λ e k. ground (
      arith,
      v.agreed e j,
      Assoc.lookup-insert d e agent' s.agents,
      ap (Assoc.lookup k) ea,
      Assoc.lookup-remove j k agent.active,
    );
    same_session = λ e. ground (arith, Assoc.lookup-insert d e agent' s.agents);
  }

  -- The id of a job that is not known leaves the queue, which does not hold it.
  unqueued-Inv :
      (s : CoordinatorState Tx) (j : ℕ)
      → Assoc.lookup j s.jobs ≡ none
      → Inv s
      → Inv (record s { queue = unqueue j s.queue })
  unqueued-Inv s j h v = record {
    maps = v.maps;
    agent_maps = v.agent_maps;
    queued = λ k. ground (arith, v.queued k, v.queued j, count-unqueue k j s.queue, h);
    recovery = v.recovery;
    agreed = v.agreed;
    current = v.current;
  }

  -- A job that no agent holds.
  unheld-Left :
      (s : CoordinatorState Tx) (j : ℕ) → leased s j ≡ none → Inv s → Left s (without_job s j) j
  unheld-Left s j h v = record {
    jobs = refl;
    queue = refl;
    agent_maps = v.agent_maps;
    held_less = λ e k. ground (arith, v.agreed e j);
    same_session = λ e. refl;
  }

module _ {Tx : Type 0} ⦃channel : CommandChannel Tx⦄ where
  cancel_at_agent-Left :
      (s : CoordinatorState Tx) (j : ℕ) (o : Option ActiveLease)
      → leased s j ≡ o
      → Inv s
      → Left s (cancel_at_agent (without_job s j) j o) j
  unfolding cancel_at_agent
  cancel_at_agent-Left s j none h v = unheld-Left s j h v
  cancel_at_agent-Left s j (some a) h v = elim (Option-cases (Assoc.lookup a.device_id s.agents)) [
    | inl e ↦ absurd (ground (arith, v.agreed a.device_id j))
    | inr (agent, e) ↦
        rw (e, cancel_at_agent)
          (dropped-Left s j a.device_id agent
            (record agent {
              command_tx = send_or_skip agent.command_tx (cancel_lease j a.lease_id);
              active =
                  if is_lease (Assoc.lookup j agent.active) a.lease_id
                  then Assoc.remove j agent.active
                  else agent.active;
            })
            a s.receipts e refl (ground (arith, v.agreed a.device_id j)) h refl v)
  ]

  -- Cancelling a job keeps the invariant.
  pub cancel_job-Inv : (s : CoordinatorState Tx) (j : ℕ) → Inv s → Inv (cancel_job s j)
  unfolding cancel_job
  cancel_job-Inv s j v = elim (Option-cases (Assoc.lookup j s.jobs)) [
    | inl e ↦ rw (e, cancel_job) (unqueued-Inv s j e v)
    | inr (job, e) ↦
        rw (e, cancel_job)
          (SameView-Inv (cancel_at_agent (without_job s j) j (lease_of job.state)) _
            (release_all-SameView (cancel_at_agent (without_job s j) j (lease_of job.state))
              job.descriptors)
            (Left-Inv s _ j (cancel_at_agent-Left s j (lease_of job.state) (ap lease_in e) v) v))
  ]

  -- Completing a job that is leased to the agent keeps the invariant.
  pub complete_job-Inv :
      (s : CoordinatorState Tx) (d j : ℕ) (job : Job) (agent : AgentSession Tx) (a : ActiveLease)
      → Assoc.lookup d s.agents ≡ some agent
      → leased s j ≡ some a
      → a.device_id ≡ d
      → Inv s
      → Inv (complete_job s d j job)
  unfolding complete_job
  complete_job-Inv s d j job agent a h hl hd v =
      SameView-Inv t _ (release_all-SameView t job.descriptors) (
        Left-Inv s t j
          (rw (h, without_lease)
            (dropped-Left s j d agent (record agent { active = Assoc.remove j agent.active }) a
              s.receipts h refl refl hl hd v))
          v)
    where
      t : CoordinatorState Tx
      t = record s {
        jobs = Assoc.remove j s.jobs;
        queue = unqueue j s.queue;
        agents = without_lease s d j;
      }

  -- A drained agent keeps its session and its leases.
  abbrev drained : Option (AgentSession Tx) → Option (AgentSession Tx)
  drained none = none
  drained (some agent) = some (record agent {
    draining = true;
    free_slots = 0;
    command_tx = send_or_skip agent.command_tx (drain false);
  })

  lookup-drain_each :
      (d : ℕ) (agents : List (ℕ × AgentSession Tx))
      → Assoc.lookup d (drain_each agents) ≡ drained (Assoc.lookup d agents)
  unfolding drain_each Assoc.lookup
  lookup-drain_each d [] = refl
  lookup-drain_each d (entry ∷ rest) = elim (Bool-cases (entry.0 == d)) [
    | inl e ↦ rw e refl
    | inr e ↦ rw e (lookup-drain_each d rest)
  ]

  IsMap-drain_each :
      (agents : List (ℕ × AgentSession Tx)) → IsMap agents → IsMap (drain_each agents)
  unfolding drain_each
  IsMap-drain_each [] m = m
  IsMap-drain_each (entry ∷ rest) m =
      (lookup-drain_each entry.0 rest ∙ ap drained m.0, IsMap-drain_each rest m.1)

  -- Draining keeps the invariant.
  pub drain_agents-Inv : (s : CoordinatorState Tx) → Inv s → Inv (drain_agents s)
  unfolding drain_agents
  drain_agents-Inv s v = record {
    maps = v.maps;
    agent_maps = IsMap-drain_each s.agents v.agent_maps;
    queued = v.queued;
    recovery = v.recovery;
    agreed = λ d k. ground (arith, v.agreed d k, lookup-drain_each d s.agents);
    current = λ k a h. ground (arith, v.current k a h, lookup-drain_each a.device_id s.agents);
  }
