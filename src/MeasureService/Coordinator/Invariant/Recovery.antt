-- ===== src/MeasureService/Coordinator/Invariant/Recovery.antt =====
-- A connection, with the recovery of leases that its device kept, keeps the invariant:
-- crates/gz-measure-service/src/coordinator.rs, `connect` and `reconcile_recoveries`.
use graphzero.Base.{
  ℕ, ◌+◌, ◌≡◌, refl, ◌⊎◌, inl, inr, true, false, ◌&&◌, Option, none, some, List, [], ◌==◌, arith,
  Bool-cases, Option-cases,
}
use graphzero.Base.Assoc
use graphzero.Base.Sums.{IsMap, IsMap-insert, IsMap-insert_sorted}
use graphzero.MeasureService.Coordinator.{
  CoordinatorConfig, ActiveLease, running, Job, AgentSession, CoordinatorState,
}
use graphzero.MeasureService.Coordinator.Connect.{recoverable, rebind}
use graphzero.MeasureService.Coordinator.View.{
  count, count-unqueue, waiting, keeps_to_queue, lease_at, leased, held, session,
}
use graphzero.MeasureService.Coordinator.Invariant.{Inv}

-- The invariant while the leases of the device `d` are being recovered for its new session `sid`,
-- which is not registered yet: the leases so far stand in `active`.
pub record Recovering {Tx : Type 0} (t : CoordinatorState Tx) (d sid : ℕ) (active : List (ℕ × ℕ))
    : Type 0 where
  pub maps : IsMap t.jobs
  pub agent_maps : IsMap t.agents
  pub queued : (k : ℕ) → count k t.queue ≡ waiting (Assoc.lookup k t.jobs)
  pub recovery : (k : ℕ) → keeps_to_queue (Assoc.lookup k t.jobs) ≡ true
  pub absent : Assoc.lookup d t.agents ≡ none
  pub others : (e k : ℕ) → (d == e) ≡ false → held t e k ≡ lease_at e (leased t k)
  pub mine : (k : ℕ) → Assoc.lookup k active ≡ lease_at d (leased t k)
  pub current :
      (k : ℕ) (a : ActiveLease)
      → leased t k ≡ some a
      → (d == a.device_id) ≡ false
      → session t a.device_id ≡ some a.current_session_id
  pub renewed :
      (k : ℕ) (a : ActiveLease)
      → leased t k ≡ some a
      → (d == a.device_id) ≡ true
      → a.current_session_id ≡ sid

-- What may be recovered is a waiting job whose lease was the device's.
pub recoverable_cases :
    (o : Option Job) (d l : ℕ)
    → (recoverable o d l ≡ none)
      ⊎ ((job : Job) × (a : ActiveLease) × (recoverable o d l ≡ some (job, a))
          × (o ≡ some job)
          × (job.recovery ≡ some a)
          × (a.device_id ≡ d)
          × (a.lease_id ≡ l))
recoverable_cases none d l = inl refl
recoverable_cases (some job) d l = elim (Option-cases job.recovery) [
  | inl e ↦ inl (ground arith)
  | inr (a, e) ↦ elim (Bool-cases (a.device_id == d && a.lease_id == l)) [
    | inl q ↦ inr (job, a, ground arith, refl, e, ground arith, ground arith)
    | inr q ↦ inl (ground arith)
  ]
]

module _ {Tx : Type 0} where
  -- A job that is recovered runs again, under the new session.
  pub rebind-Recovering :
      (config : CoordinatorConfig) (now : ℕ) (t : CoordinatorState Tx) (d sid j : ℕ) (job : Job)
      (a : ActiveLease) (active : List (ℕ × ℕ))
      → Assoc.lookup j t.jobs ≡ some job
      → job.recovery ≡ some a
      → a.device_id ≡ d
      → Recovering t d sid active
      → Recovering (rebind config now t sid j job a) d sid (Assoc.insert j a.lease_id active)
  unfolding rebind
  rebind-Recovering config now t d sid j job a active hj hr hd v = record {
    maps = IsMap-insert j job' t.jobs v.maps;
    agent_maps = v.agent_maps;
    queued = λ k. ground (
      arith,
      v.queued k,
      v.queued j,
      v.recovery j,
      count-unqueue k j t.queue,
      Assoc.lookup-insert j k job' t.jobs,
    );
    recovery = λ k. ground (arith, v.recovery k, Assoc.lookup-insert j k job' t.jobs);
    absent = v.absent;
    others = λ e k n.
        ground (
          arith,
          v.others e k n,
          v.others e j n,
          v.recovery j,
          Assoc.lookup-insert j k job' t.jobs,
        );
    mine = λ k. ground (
      arith,
      v.mine k,
      Assoc.lookup-insert j k job' t.jobs,
      Assoc.lookup-insert j k a.lease_id active,
    );
    current = λ k b f n. ground (arith, v.current k b, Assoc.lookup-insert j k job' t.jobs, f);
    renewed = λ k b f n. ground (arith, v.renewed k b, Assoc.lookup-insert j k job' t.jobs, f);
  }
    where
      job' : Job
      job' = record job {
        state =
            running (record a { current_session_id = sid; deadline = now + config.lease_duration });
        recovery = none;
      }

  -- The device has no session, so nothing is leased to it.
  pub removed-Recovering :
      (s : CoordinatorState Tx) (d sid : ℕ)
      → Assoc.lookup d s.agents ≡ none
      → Inv s
      → Recovering s d sid []
  unfolding Assoc.lookup
  removed-Recovering s d sid h v = record {
    maps = v.maps;
    agent_maps = v.agent_maps;
    queued = v.queued;
    recovery = v.recovery;
    absent = h;
    others = λ e k n. v.agreed e k;
    mine = λ k. ground (arith, v.agreed d k);
    current = λ k a f n. v.current k a f;
    renewed = λ k a f n. ground (arith, v.current k a f);
  }

  -- The new session is registered with the recovered leases.
  pub registered-Inv :
      (t : CoordinatorState Tx) (d : ℕ) (agent : AgentSession Tx)
      → Recovering t d agent.session_id agent.active
      → Inv (record t { agents = Assoc.insert_sorted d agent t.agents })
  registered-Inv t d agent v = record {
    maps = v.maps;
    agent_maps = IsMap-insert_sorted d agent t.agents v.absent v.agent_maps;
    queued = v.queued;
    recovery = v.recovery;
    agreed = λ e k.
        ground (arith, v.others e k, v.mine k, Assoc.lookup-insert_sorted d e agent t.agents);
    current = λ k a f. ground (
      arith,
      v.current k a f,
      v.renewed k a f,
      Assoc.lookup-insert_sorted d a.device_id agent t.agents,
    );
  }
