-- ===== src/MeasureService/Coordinator/Invariant/Events.antt =====
-- The events of the agents and their reports keep the invariant:
-- crates/gz-measure-service/src/coordinator.rs, `handle_agent_event` and `submit_result`.
use graphzero.Base.{
  ℕ, ◌≡◌, refl, ap, ◌∙◌, ◌⊎◌, inl, inr, true, false, some, ◌==◌, arith, Bool-cases, Option-cases,
}
use graphzero.Base.Assoc
use graphzero.Base.Result.{ok, Result-cases}
use graphzero.MeasureService.Protocol.{
  WireId, AgentEvent, ready, accepted, rejected, heartbeat, draining, hello, empty,
}
use graphzero.MeasureService.Coordinator.{
  CommandChannel, CoordinatorConfig, AgentSession, CoordinatorState,
}
use graphzero.MeasureService.Coordinator.Sessions.{expire_leases, requeue_active}
use graphzero.MeasureService.Coordinator.Validate.{validate_agent_lease_ids}
use graphzero.MeasureService.Coordinator.Handlers.{
  handle_event, handle_agent_event, run_job, set_agent, usable_slots,
}
use graphzero.MeasureService.Coordinator.View.{lease_in}
use graphzero.MeasureService.Coordinator.Invariant.{Inv}
use graphzero.MeasureService.Coordinator.Invariant.Handlers.{validate_agent_lease_ids_sound}
use graphzero.MeasureService.Coordinator.Invariant.Leases.{requeue_active-Inv, expire_leases-Inv}
use graphzero.MeasureService.Coordinator.Invariant.Schedule.{schedule-Inv}
use graphzero.MeasureService.Coordinator.Invariant.Parts.{run_job-Inv, set_agent-Inv}

module _ {Tx : Type 0} where
  Inv-along : (s t : CoordinatorState Tx) → s ≡ t → Inv s → Inv t
  Inv-along s t p v = coe 0 1 (i. Inv (p i)) v

  module _ (config : CoordinatorConfig) (now : ℕ) (s : CoordinatorState Tx) (d sid : ℕ)
      (agent : AgentSession Tx) (t : CoordinatorState Tx) where
    ready-Inv :
        (es : WireId) (n : ℕ)
        → handle_event config now s d sid agent (ready es n) ≡ ok t
        → Assoc.lookup d s.agents ≡ some agent
        → Inv s
        → Inv t
    unfolding handle_event
    ready-Inv es n h q v =
        Inv-along (set_agent s d (record agent { free_slots = usable_slots agent n })) t
          (ground (arith, h)) (set_agent-Inv s d agent _ q refl refl v)

    draining-Inv :
        (es : WireId)
        → handle_event config now s d sid agent (draining es) ≡ ok t
        → Assoc.lookup d s.agents ≡ some agent
        → Inv s
        → Inv t
    unfolding handle_event
    draining-Inv es h q v =
        Inv-along (set_agent s d (record agent { draining = true; free_slots = 0 })) t
          (ground (arith, h)) (set_agent-Inv s d agent _ q refl refl v)

    -- Acceptance and heartbeat.
    running-Inv :
        (es ej el : WireId)
        → (handle_event config now s d sid agent (accepted es ej el) ≡ ok t)
          ⊎ (handle_event config now s d sid agent (heartbeat es ej el) ≡ ok t)
        → Inv s
        → Inv t
    unfolding handle_event
    running-Inv es ej el h v = elim (Result-cases (validate_agent_lease_ids s d sid es ej el)) [
      | inl (e, q) ↦ absurd (ground (arith, h, q))
      | inr ((j, job, a), q) ↦
          let (hj, ha, hd, hs) = validate_agent_lease_ids_sound s d sid es ej el j job a q in
          Inv-along (run_job config now s j job a) t (ground (arith, h, q))
            (run_job-Inv config now s j job a hj ha v)
    ]

    rejected-Inv :
        (es ej el : WireId)
        → handle_event config now s d sid agent (rejected es ej el) ≡ ok t
        → Inv s
        → Inv t
    unfolding handle_event
    rejected-Inv es ej el h v = elim (Result-cases (validate_agent_lease_ids s d sid es ej el)) [
      | inl (e, q) ↦ absurd (ground (arith, h, q))
      | inr ((j, job, a), q) ↦
          let (hj, ha, hd, hs) = validate_agent_lease_ids_sound s d sid es ej el j job a q in
          Inv-along (requeue_active s j a false) t (ground (arith, h, q))
            (requeue_active-Inv s j a false (inl (ap lease_in hj ∙ ha)) v)
    ]

    handle_event-Inv :
        (event : AgentEvent)
        → handle_event config now s d sid agent event ≡ ok t
        → Assoc.lookup d s.agents ≡ some agent
        → Inv s
        → Inv t
    unfolding handle_event
    handle_event-Inv (ready es n) h q v = ready-Inv es n h q v
    handle_event-Inv (accepted es ej el) h q v = running-Inv es ej el (inl h) v
    handle_event-Inv (rejected es ej el) h q v = rejected-Inv es ej el h v
    handle_event-Inv (heartbeat es ej el) h q v = running-Inv es ej el (inr h) v
    handle_event-Inv (draining es) h q v = draining-Inv es h q v
    handle_event-Inv hello h q v = absurd (ground (arith, h))
    handle_event-Inv empty h q v = absurd (ground (arith, h))

module _ {Tx : Type 0} ⦃channel : CommandChannel Tx⦄ where
  -- An event keeps the invariant, also where it is refused.
  pub handle_agent_event-Inv :
      (config : CoordinatorConfig) (now : ℕ) (draws : ℕ → ℕ) (s : CoordinatorState Tx) (d sid : ℕ)
      (event : AgentEvent)
      → Inv s
      → Inv (handle_agent_event config now draws s d sid event).0
  unfolding handle_agent_event
  handle_agent_event-Inv config now draws s d sid event v =
      let w = expire_leases-Inv s now v in
      let s' = expire_leases s now in
      elim (Option-cases (Assoc.lookup d s'.agents)) [
        | inl q ↦ rw (q, handle_agent_event) w
        | inr (agent, q) ↦
            rw (q, handle_agent_event)
              (elim (Bool-cases (agent.session_id == sid)) [
                | inl e ↦ rw e (elim (Result-cases (handle_event config now s' d sid agent event)) [
                  | inl (x, f) ↦ rw f w
                  | inr (t, f) ↦ rw f (
                      schedule-Inv config now draws t
                        (handle_event-Inv config now s' d sid agent t event f q w))
                ])
                | inr e ↦ rw e w
              ])
      ]
