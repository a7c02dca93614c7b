-- ===== src/MeasureService/Coordinator/Invariant/Parts.antt =====
-- The parts of the handlers that write the jobs or the agents keep the invariant:
-- crates/gz-measure-service/src/coordinator.rs, `handle_agent_event`, `cancel_job`, `enqueue` and
-- `drain_agents`.
use graphzero.Base.{ℕ, ◌+◌, ◌≡◌, refl, ap, ◌∙◌, true, none, some, List, [], ◌∷◌, arith}
use graphzero.Base.Assoc
use graphzero.Base.Sums.{IsMap-insert}
use graphzero.MeasureService.Protocol.{ArtifactDescriptor}
use graphzero.MeasureService.Coordinator.{
  CoordinatorConfig, ActiveLease, running, Job, AgentSession, CoordinatorState,
}
use graphzero.MeasureService.Coordinator.Artifacts.{release_artifact}
use graphzero.MeasureService.Coordinator.Sessions.{lease_of, release_all}
use graphzero.MeasureService.Coordinator.Handlers.{run_job, set_agent, enqueue_job}
use graphzero.MeasureService.Coordinator.View.{count-append, is_queued_state}
use graphzero.MeasureService.Coordinator.Invariant.{Inv}

module _ {Tx : Type 0} where
  -- States that differ in the stored artifacts and the receipts alone.
  abbrev pub SameView : CoordinatorState Tx → CoordinatorState Tx → Type 0
  SameView s t = (t.agents ≡ s.agents) × (t.jobs ≡ s.jobs) × (t.queue ≡ s.queue)

  pub SameView-Inv : (s t : CoordinatorState Tx) → SameView s t → Inv s → Inv t
  SameView-Inv s t h v = record {
    maps = rw (h.1) v.maps;
    agent_maps = rw (h.0) v.agent_maps;
    queued = λ k. rw (h.2, h.1) (v.queued k);
    recovery = λ k. rw (h.1) (v.recovery k);
    agreed = λ d k. rw (h.0, h.1) (v.agreed d k);
    current = λ k a e. rw (h.0) (v.current k a (rw (h.1) at e));
  }

  release_artifact-SameView :
      (s : CoordinatorState Tx) (digest : ℕ) → SameView s (release_artifact s digest)
  unfolding release_artifact
  release_artifact-SameView s digest = ground arith

  pub release_all-SameView :
      (s : CoordinatorState Tx) (ds : List ArtifactDescriptor) → SameView s (release_all s ds)
  unfolding release_all
  release_all-SameView s [] = (refl, refl, refl)
  release_all-SameView s (d ∷ ds) =
      let a = release_artifact-SameView s d.digest in
      let b = release_all-SameView (release_artifact s d.digest) ds in
      (b.0 ∙ a.0, b.1 ∙ a.1, b.2 ∙ a.2)

module _ {Tx : Type 0} where
  -- A leased job that is accepted, or whose lease is extended.
  pub run_job-Inv :
      (config : CoordinatorConfig) (now : ℕ) (s : CoordinatorState Tx) (j : ℕ) (job : Job)
      (a : ActiveLease)
      → Assoc.lookup j s.jobs ≡ some job
      → lease_of job.state ≡ some a
      → Inv s
      → Inv (run_job config now s j job a)
  unfolding run_job
  run_job-Inv config now s j job a hj ha v = record {
    maps = IsMap-insert j job' s.jobs v.maps;
    agent_maps = v.agent_maps;
    queued = λ k. ground (arith, v.queued k, v.queued j, Assoc.lookup-insert j k job' s.jobs);
    recovery = λ k. ground (arith, v.recovery k, v.recovery j, Assoc.lookup-insert j k job' s.jobs);
    agreed = λ d k. ground (arith, v.agreed d k, v.agreed d j, Assoc.lookup-insert j k job' s.jobs);
    current = λ k b h.
        ground (arith, v.current k b, v.current j a, Assoc.lookup-insert j k job' s.jobs, h);
  }
    where
      job' : Job
      job' = record job { state = running (record a { deadline = now + config.lease_duration }) }

  -- An agent whose slots are reported, or that drains.
  pub set_agent-Inv :
      (s : CoordinatorState Tx) (d : ℕ) (agent agent' : AgentSession Tx)
      → Assoc.lookup d s.agents ≡ some agent
      → agent'.session_id ≡ agent.session_id
      → agent'.active ≡ agent.active
      → Inv s
      → Inv (set_agent s d agent')
  unfolding set_agent
  set_agent-Inv s d agent agent' h es ea v = record {
    maps = v.maps;
    agent_maps = IsMap-insert d agent' s.agents v.agent_maps;
    queued = v.queued;
    recovery = v.recovery;
    agreed = λ e k.
        ground
          (arith, v.agreed e k, Assoc.lookup-insert d e agent' s.agents, ap (Assoc.lookup k) ea);
    current =
        λ k a f. ground (arith, v.current k a f, Assoc.lookup-insert d a.device_id agent' s.agents);
  }

  -- A job that is new to the coordinator.
  pub enqueue_job-Inv :
      (s : CoordinatorState Tx) (j : ℕ) (job : Job)
      → Assoc.lookup j s.jobs ≡ none
      → is_queued_state job.state ≡ true
      → lease_of job.state ≡ none
      → Inv s
      → Inv (enqueue_job s j job)
  unfolding enqueue_job
  enqueue_job-Inv s j job h q l v = record {
    maps = IsMap-insert j job s.jobs v.maps;
    agent_maps = v.agent_maps;
    queued = λ k. ground (
      arith,
      v.queued k,
      v.queued j,
      count-append k j s.queue,
      Assoc.lookup-insert j k job s.jobs,
    );
    recovery = λ k. ground (arith, v.recovery k, Assoc.lookup-insert j k job s.jobs);
    agreed = λ d k. ground (arith, v.agreed d k, v.agreed d j, Assoc.lookup-insert j k job s.jobs);
    current = λ k a f. ground (arith, v.current k a, Assoc.lookup-insert j k job s.jobs, f);
  }
