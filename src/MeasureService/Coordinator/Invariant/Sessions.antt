-- ===== src/MeasureService/Coordinator/Invariant/Sessions.antt =====
-- The end of an agent's session keeps the invariant: crates/gz-measure-service/src/coordinator.rs,
-- `remove_agent_session`.
use graphzero.Base.{
  ℕ, ◌≡◌, refl, ◌∙◌, ◌⊎◌, inl, inr, Bool, true, false, Option, none, some, List, [], ◌∷◌,
  if◌then◌else◌, ◌==◌, arith, Bool-cases, Option-cases, ==→eq,
}
use graphzero.Base.Assoc
use graphzero.Base.Sums.{IsMap, IsMap-remove}
use graphzero.MeasureService.Coordinator.{
  ActiveLease, JobState, queued, offered, running, Job, AgentSession, CoordinatorState,
}
use graphzero.MeasureService.Coordinator.Sessions.{
  requeue_active, matching_lease, requeue_if, requeue_session, remove_agent_session,
}
use graphzero.MeasureService.Coordinator.View.{
  keeps_to_queue, count, waiting, lease_in, lease_at, leased, held, session,
}
use graphzero.MeasureService.Coordinator.Invariant.{Inv}
use graphzero.MeasureService.Coordinator.Invariant.Leases.{
  leased-requeue_active, held-requeue_active, session-requeue_active, queued-requeue_active,
  recovery-requeue_active, maps-requeue_active, agent_maps-requeue_active,
}

-- The invariant while the leases `es` of the departed device `d` are still to be requeued.
record Pending {Tx : Type 0} (t : CoordinatorState Tx) (d : ℕ) (es : List (ℕ × ℕ)) : Type 0 where
  maps : IsMap t.jobs
  agent_maps : IsMap t.agents
  queued : (k : ℕ) → count k t.queue ≡ waiting (Assoc.lookup k t.jobs)
  recovery : (k : ℕ) → keeps_to_queue (Assoc.lookup k t.jobs) ≡ true
  gone : session t d ≡ none
  agreed : (e k : ℕ) → (d == e) ≡ false → held t e k ≡ lease_at e (leased t k)
  current :
      (k : ℕ) (a : ActiveLease)
      → leased t k ≡ some a
      → (d == a.device_id) ≡ false
      → session t a.device_id ≡ some a.current_session_id
  known :
      (k : ℕ) (a : ActiveLease)
      → leased t k ≡ some a
      → (d == a.device_id) ≡ true
      → Assoc.lookup k es ≡ some a.lease_id
  ours :
      (k l : ℕ) (a : ActiveLease)
      → Assoc.lookup k es ≡ some l
      → leased t k ≡ some a
      → (d == a.device_id) ≡ true

-- What `matching_lease` finds is the job's lease.
abbrev LeaseMatch : Option Job → ℕ → Type 0
LeaseMatch o l =
    ((matching_lease o l ≡ none)
      × ((a : ActiveLease) → lease_in o ≡ some a → (a.lease_id == l) ≡ false))
    ⊎ ((a : ActiveLease) × (p : Bool) × (matching_lease o l ≡ some (a, p)) × (lease_in o ≡ some a))

matching_lease_by_state :
    (job : Job) (l : ℕ) (s : JobState) → job.state ≡ s → LeaseMatch (some job) l
matching_lease_by_state job l queued e = inl (ground arith, λ a h. ground arith)
matching_lease_by_state job l (offered a) e = elim (Bool-cases (a.lease_id == l)) [
  | inl q ↦ inr (a, false, ground arith, ground arith)
  | inr q ↦ inl (ground arith, λ b h. ground arith)
]
matching_lease_by_state job l (running a) e = elim (Bool-cases (a.lease_id == l)) [
  | inl q ↦ inr (a, true, ground arith, ground arith)
  | inr q ↦ inl (ground arith, λ b h. ground arith)
]

matching_lease_cases : (o : Option Job) (l : ℕ) → LeaseMatch o l
matching_lease_cases none l = inl (refl, λ a h. cc)
matching_lease_cases (some job) l = matching_lease_by_state job l job.state refl

module _ {Tx : Type 0} (t : CoordinatorState Tx) (d : ℕ) (e : ℕ × ℕ) (es : List (ℕ × ℕ)) where
  lookup-entry :
      (k : ℕ) → Assoc.lookup k (e ∷ es) ≡ (if e.0 == k then some e.1 else Assoc.lookup k es)
  unfolding Assoc.lookup
  lookup-entry k = refl

  skipped-Pending :
      ((a : ActiveLease) → leased t e.0 ≡ some a → (a.lease_id == e.1) ≡ false)
      → Pending t d (e ∷ es)
      → Pending t d es
  skipped-Pending other v = record {
    maps = v.maps;
    agent_maps = v.agent_maps;
    queued = v.queued;
    recovery = v.recovery;
    gone = v.gone;
    agreed = v.agreed;
    current = v.current;
    known = λ k a h b. ground (arith, v.known k a h b, lookup-entry k, other a, h);
    ours = λ k l a f h. ground (arith, v.ours k l a, v.ours k e.1 a, lookup-entry k, f, h);
  }

  requeued-Pending :
      (a : ActiveLease) (p : Bool)
      → leased t e.0 ≡ some a
      → Pending t d (e ∷ es)
      → Pending (requeue_active t e.0 a p) d es
  requeued-Pending a p h v =
      let mine : (d == a.device_id) ≡ true =
        v.ours e.0 e.1 a (ground (arith, lookup-entry e.0)) h in
      record {
        maps = maps-requeue_active t e.0 a p v.maps;
        agent_maps = agent_maps-requeue_active t e.0 a p v.agent_maps;
        queued = queued-requeue_active t e.0 a p v.queued;
        recovery = recovery-requeue_active t e.0 a p v.recovery;
        gone = session-requeue_active t e.0 a p d ∙ v.gone;
        agreed = λ x k n. ground (
          arith,
          held-requeue_active t e.0 a p x k,
          leased-requeue_active t e.0 a p k,
          v.agreed x k n,
          mine,
        );
        current = λ k b f n. ground (
          arith,
          session-requeue_active t e.0 a p b.device_id,
          leased-requeue_active t e.0 a p k,
          v.current k b,
          f,
        );
        known = λ k b f n.
            ground (arith, leased-requeue_active t e.0 a p k, v.known k b, lookup-entry k, f);
        ours = λ k l b f g.
            ground (arith, leased-requeue_active t e.0 a p k, v.ours k l b, lookup-entry k, f, g);
      }

module _ {Tx : Type 0} where
  requeue_if-Pending :
      (t : CoordinatorState Tx) (d : ℕ) (e : ℕ × ℕ) (es : List (ℕ × ℕ))
      → Pending t d (e ∷ es)
      → Pending (requeue_if t e.0 (matching_lease (Assoc.lookup e.0 t.jobs) e.1)) d es
  requeue_if-Pending t d e es v = elim (matching_lease_cases (Assoc.lookup e.0 t.jobs) e.1) [
    | inl (q, other) ↦ rw q (skipped-Pending t d e es other v)
    | inr (a, p, q, h) ↦ rw q (requeued-Pending t d e es a p h v)
  ]

  -- The departed device holds nothing, and nothing is leased to it.
  gone-agreed :
      (t : CoordinatorState Tx) (d k : ℕ) (o : Option ActiveLease)
      → Pending t d []
      → leased t k ≡ o
      → held t d k ≡ lease_at d o
  unfolding Assoc.lookup
  gone-agreed t d k none v h = ground (arith, v.gone)
  gone-agreed t d k (some a) v h = ground (arith, v.gone, v.known k a h)

  Pending-agreed :
      (t : CoordinatorState Tx) (d e k : ℕ) → Pending t d [] → held t e k ≡ lease_at e (leased t k)
  Pending-agreed t d e k v = elim (Bool-cases (d == e)) [
    | inl q ↦ rw (← ==→eq d e q) (gone-agreed t d k (leased t k) v refl)
    | inr q ↦ v.agreed e k q
  ]

  Pending-Inv : (t : CoordinatorState Tx) (d : ℕ) → Pending t d [] → Inv t
  unfolding Assoc.lookup
  Pending-Inv t d v = record {
    maps = v.maps;
    agent_maps = v.agent_maps;
    queued = v.queued;
    recovery = v.recovery;
    agreed = λ e k. Pending-agreed t d e k v;
    current = λ k a h. ground (arith, v.current k a h, v.known k a h);
  }

  requeue_session-Inv :
      (t : CoordinatorState Tx) (d : ℕ) (es : List (ℕ × ℕ))
      → Pending t d es
      → Inv (requeue_session t es)
  unfolding requeue_session
  requeue_session-Inv t d [] v = Pending-Inv t d v
  requeue_session-Inv t d (e ∷ es) v =
      requeue_session-Inv (requeue_if t e.0 (matching_lease (Assoc.lookup e.0 t.jobs) e.1)) d es
        (requeue_if-Pending t d e es v)

  removed-Pending :
      (s : CoordinatorState Tx) (d : ℕ) (agent : AgentSession Tx)
      → Assoc.lookup d s.agents ≡ some agent
      → Inv s
      → Pending (record s { agents = Assoc.remove d s.agents }) d agent.active
  removed-Pending s d agent q v = record {
    maps = v.maps;
    agent_maps = IsMap-remove d s.agents v.agent_maps;
    queued = v.queued;
    recovery = v.recovery;
    gone = ground (arith, Assoc.lookup-remove d d s.agents);
    agreed = λ e k n. ground (arith, Assoc.lookup-remove d e s.agents, v.agreed e k);
    current =
        λ k a h n. ground (arith, Assoc.lookup-remove d a.device_id s.agents, v.current k a h);
    known = λ k a h n. ground (arith, v.agreed d k, h);
    ours = λ k l a f h. ground (arith, v.agreed d k, h, f);
  }

  -- The end of a session keeps the invariant: each of its leases goes back to the queue.
  pub remove_agent_session-Inv :
      (s : CoordinatorState Tx) (d : ℕ) → Inv s → Inv (remove_agent_session s d)
  unfolding remove_agent_session
  remove_agent_session-Inv s d v = elim (Option-cases (Assoc.lookup d s.agents)) [
    | inl q ↦ rw (q, remove_agent_session) v
    | inr (agent, q) ↦
        rw (q, remove_agent_session)
          (requeue_session-Inv (record s { agents = Assoc.remove d s.agents }) d agent.active
            (removed-Pending s d agent q v))
  ]

  -- The session is then gone.
  requeue_if-agents :
      (t : CoordinatorState Tx) (d j : ℕ) (o : Option (ActiveLease × Bool))
      → session t d ≡ none
      → session (requeue_if t j o) d ≡ none
  requeue_if-agents t d j none h = h
  requeue_if-agents t d j (some (a, p)) h = session-requeue_active t j a p d ∙ h

  requeue_session-gone :
      (t : CoordinatorState Tx) (d : ℕ) (es : List (ℕ × ℕ))
      → session t d ≡ none
      → session (requeue_session t es) d ≡ none
  unfolding requeue_session
  requeue_session-gone t d [] h = h
  requeue_session-gone t d (e ∷ es) h =
      requeue_session-gone (requeue_if t e.0 (matching_lease (Assoc.lookup e.0 t.jobs) e.1)) d es
        (requeue_if-agents t d e.0 (matching_lease (Assoc.lookup e.0 t.jobs) e.1) h)

  pub remove_agent_session-gone :
      (s : CoordinatorState Tx) (d : ℕ) → session (remove_agent_session s d) d ≡ none
  unfolding remove_agent_session
  remove_agent_session-gone s d = elim (Option-cases (Assoc.lookup d s.agents)) [
    | inl q ↦ rw (q, remove_agent_session) (ground (arith, q))
    | inr (agent, q) ↦
        rw (q, remove_agent_session)
          (requeue_session-gone (record s { agents = Assoc.remove d s.agents }) d agent.active
            (ground (arith, Assoc.lookup-remove d d s.agents)))
  ]

  pub remove_agent_session-absent :
      (s : CoordinatorState Tx) (d : ℕ) → Assoc.lookup d (remove_agent_session s d).agents ≡ none
  remove_agent_session-absent s d = ground (arith, remove_agent_session-gone s d)
