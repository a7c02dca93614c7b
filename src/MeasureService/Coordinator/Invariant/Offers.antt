-- ===== src/MeasureService/Coordinator/Invariant/Offers.antt =====
-- An offer keeps the invariant: crates/gz-measure-service/src/coordinator.rs, one round of
-- `schedule`.
use graphzero.Base.{ℕ, ◌-◌, ◌≡◌, true, none, some, arith}
use graphzero.Base.Assoc
use graphzero.Base.Sums.{IsMap, IsMap-insert}
use graphzero.MeasureService.Coordinator.{
  ActiveLease, offered, Job, AgentSession, CoordinatorState, unqueue,
}
use graphzero.MeasureService.Coordinator.View.{count-unqueue, is_queued_state}
use graphzero.MeasureService.Coordinator.Invariant.{Inv}

module _ {Tx : Type 0} where
  -- The state after an offer, with the agent's channel as it is then.
  abbrev pub offer :
      CoordinatorState Tx → ℕ → ℕ → Job → AgentSession Tx → ActiveLease → Tx → CoordinatorState Tx
  offer s job_id device_id job agent active tx = record s {
    jobs = Assoc.insert job_id (record job { state = offered active; recovery = none }) s.jobs;
    queue = unqueue job_id s.queue;
    agents =
        Assoc.insert device_id
          (record agent {
            free_slots = agent.free_slots - 1;
            active = Assoc.insert job_id active.lease_id agent.active;
            command_tx = tx;
          })
          s.agents;
  }

  pub offer-agent_maps :
      (s : CoordinatorState Tx) (j d : ℕ) (job : Job) (agent : AgentSession Tx) (a : ActiveLease)
      (tx : Tx)
      → IsMap s.agents
      → IsMap (offer s j d job agent a tx).agents
  offer-agent_maps s j d job agent a tx m = IsMap-insert d _ s.agents m

  -- A queued job is offered to an agent under a lease that names the agent's session.
  pub offer-Inv :
      (s : CoordinatorState Tx) (j d : ℕ) (job : Job) (agent : AgentSession Tx) (a : ActiveLease)
      (tx : Tx)
      → Assoc.lookup j s.jobs ≡ some job
      → is_queued_state job.state ≡ true
      → Assoc.lookup d s.agents ≡ some agent
      → a.device_id ≡ d
      → a.current_session_id ≡ agent.session_id
      → Inv s
      → Inv (offer s j d job agent a tx)
  offer-Inv s j d job agent a tx hj hq hd ea es v = record {
    maps = IsMap-insert j job' s.jobs v.maps;
    agent_maps = IsMap-insert d agent' s.agents v.agent_maps;
    queued = λ k. ground (
      arith,
      v.queued k,
      v.queued j,
      count-unqueue k j s.queue,
      Assoc.lookup-insert j k job' s.jobs,
    );
    recovery = λ k. ground (arith, v.recovery k, Assoc.lookup-insert j k job' s.jobs);
    agreed = λ e k. ground (
      arith,
      v.agreed e k,
      v.agreed e j,
      Assoc.lookup-insert j k job' s.jobs,
      Assoc.lookup-insert d e agent' s.agents,
      Assoc.lookup-insert j k a.lease_id agent.active,
    );
    current = λ k b h. ground (
      arith,
      v.current k b,
      Assoc.lookup-insert j k job' s.jobs,
      Assoc.lookup-insert d b.device_id agent' s.agents,
      h,
    );
  }
    where
      job' : Job
      job' = record job { state = offered a; recovery = none }

      agent' : AgentSession Tx
      agent' = record agent {
        free_slots = agent.free_slots - 1;
        active = Assoc.insert j a.lease_id agent.active;
        command_tx = tx;
      }
