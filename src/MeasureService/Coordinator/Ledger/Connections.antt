-- ===== src/MeasureService/Coordinator/Ledger/Connections.antt =====
-- Connections, events and timers keep the known jobs and the receipts:
-- crates/gz-measure-service/src/coordinator.rs, `connect`, `handle_agent_event`, `drain_agents`,
-- `disconnect` and `reap_expired`.
use graphzero.Base.{
  ℕ, ◌≡◌, refl, ◌⊎◌, inl, inr, true, false, Option, List, [], ◌∷◌, ◌==◌, arith, Bool-cases,
  Option-cases,
}
use graphzero.Base.Assoc
use graphzero.Base.Result.{ok, Result-cases}
use graphzero.MeasureService.Protocol.{
  WireId, LeaseRecovery, RecoveryDisposition, AgentEvent, ready, accepted, rejected, heartbeat,
  draining, hello, empty, welcome,
}
use graphzero.MeasureService.Receipts
use graphzero.MeasureService.Coordinator.{
  CommandChannel, CoordinatorConfig, AgentSession, CoordinatorState,
}
use graphzero.MeasureService.Coordinator.Sessions.{
  remove_agent_session, requeue_active, expire_leases, drain_agents,
}
use graphzero.MeasureService.Coordinator.Validate.{validate_agent_lease_ids}
use graphzero.MeasureService.Coordinator.Handlers.{
  reap_expired, disconnect, run_job, set_agent, usable_slots, handle_event, handle_agent_event,
}
use graphzero.MeasureService.Coordinator.Connect.{
  Enrollment, DeviceProfile, AgentHello, rebind, reconcile_recoveries, admit_hello, register,
  welcome_message, connect,
}
use graphzero.MeasureService.Coordinator.Invariant.Recovery.{recoverable_cases}
use graphzero.MeasureService.Coordinator.Invariant.Handlers.{validate_agent_lease_ids_sound}
use graphzero.MeasureService.Coordinator.Ledger.{Keeps, Keeps-refl, Keeps-trans, Keeps-jobs}
use graphzero.MeasureService.Coordinator.Ledger.Unchanged.{
  replaced-Keeps, requeue_active-Keeps, expire_leases-Keeps, remove_agent_session-Keeps,
  schedule-Keeps,
}

module _ {Tx : Type 0} where
  reconcile-Keeps :
      (config : CoordinatorConfig) (now d sid : ℕ) (rs : List LeaseRecovery)
      (s : CoordinatorState Tx) (active : List (ℕ × ℕ)) (answers : List RecoveryDisposition)
      → Keeps s (reconcile_recoveries config now d sid rs s active answers).0
  unfolding reconcile_recoveries rebind
  reconcile-Keeps config now d sid [] s active answers = Keeps-refl s
  reconcile-Keeps config now d sid (r ∷ rs) s active answers = elim (Option-cases r.job_id) [
    | inl e ↦ rw (e, reconcile_recoveries) (Keeps-refl s)
    | inr (j, e) ↦ elim (Option-cases r.lease_id) [
      | inl f ↦ rw (e, f, reconcile_recoveries) (Keeps-refl s)
      | inr (l, f) ↦
          rw (e, f, reconcile_recoveries)
            (elim (Bool-cases (Receipts.contains s.receipts j)) [
              | inl q ↦
                  rw (q, reconcile_recoveries) (reconcile-Keeps config now d sid rs s active _)
              | inr q ↦
                  rw (q, reconcile_recoveries)
                    (elim (recoverable_cases (Assoc.lookup j s.jobs) d l) [
                      | inl g ↦
                          rw (g, reconcile_recoveries)
                            (reconcile-Keeps config now d sid rs s active _)
                      | inr (job, a, g, hj, hr, hd, hl) ↦
                          rw (g, reconcile_recoveries)
                            (Keeps-trans s (rebind config now s sid j job a) _
                              (replaced-Keeps s j job _ _ hj refl refl refl (refl, refl))
                              (reconcile-Keeps config now d sid rs (rebind config now s sid j job a)
                                _ _))
                    ])
            ])
    ]
  ]

  Keeps-along : (s t u : CoordinatorState Tx) → t ≡ u → Keeps s t → Keeps s u
  Keeps-along s t u p k = coe 0 1 (i. Keeps s (p i)) k

  module _ (config : CoordinatorConfig) (now : ℕ) (s : CoordinatorState Tx) (d sid : ℕ)
      (agent : AgentSession Tx) (t : CoordinatorState Tx) where
    running-Keeps :
        (es ej el : WireId)
        → (handle_event config now s d sid agent (accepted es ej el) ≡ ok t)
          ⊎ (handle_event config now s d sid agent (heartbeat es ej el) ≡ ok t)
        → Keeps s t
    unfolding handle_event run_job
    running-Keeps es ej el h = elim (Result-cases (validate_agent_lease_ids s d sid es ej el)) [
      | inl (e, q) ↦ absurd (ground (arith, h, q))
      | inr ((j, job, a), q) ↦
          Keeps-along s (run_job config now s j job a) t (ground (arith, h, q)) (
            replaced-Keeps s j job _ _ (validate_agent_lease_ids_sound s d sid es ej el j job a q).0
              refl refl refl (refl, refl))
    ]

    rejected-Keeps :
        (es ej el : WireId)
        → handle_event config now s d sid agent (rejected es ej el) ≡ ok t
        → Keeps s t
    unfolding handle_event
    rejected-Keeps es ej el h = elim (Result-cases (validate_agent_lease_ids s d sid es ej el)) [
      | inl (e, q) ↦ absurd (ground (arith, h, q))
      | inr ((j, job, a), q) ↦
          Keeps-along s (requeue_active s j a false) t (ground (arith, h, q))
            (requeue_active-Keeps s j a false)
    ]

    handle_event-Keeps :
        (event : AgentEvent) → handle_event config now s d sid agent event ≡ ok t → Keeps s t
    unfolding handle_event set_agent
    handle_event-Keeps (ready es n) h =
        Keeps-along s (set_agent s d (record agent { free_slots = usable_slots agent n })) t
          (ground (arith, h)) (Keeps-jobs s _ refl refl (refl, refl))
    handle_event-Keeps (accepted es ej el) h = running-Keeps es ej el (inl h)
    handle_event-Keeps (rejected es ej el) h = rejected-Keeps es ej el h
    handle_event-Keeps (heartbeat es ej el) h = running-Keeps es ej el (inr h)
    handle_event-Keeps (draining es) h =
        Keeps-along s (set_agent s d (record agent { draining = true; free_slots = 0 })) t
          (ground (arith, h)) (Keeps-jobs s _ refl refl (refl, refl))
    handle_event-Keeps hello h = absurd (ground (arith, h))
    handle_event-Keeps empty h = absurd (ground (arith, h))

module _ {Tx : Type 0} ⦃channel : CommandChannel Tx⦄ where
  pub drain_agents-Keeps : (s : CoordinatorState Tx) → Keeps s (drain_agents s)
  unfolding drain_agents
  drain_agents-Keeps s = Keeps-jobs s _ refl refl (refl, refl)

  pub reap_expired-Keeps :
      (config : CoordinatorConfig) (now : ℕ) (draws : ℕ → ℕ) (s : CoordinatorState Tx)
      → Keeps s (reap_expired config now draws s)
  unfolding reap_expired
  reap_expired-Keeps config now draws s =
      Keeps-trans s (expire_leases s now) _ (expire_leases-Keeps s now)
        (schedule-Keeps config now draws (expire_leases s now))

  pub disconnect-Keeps :
      (config : CoordinatorConfig) (now : ℕ) (draws : ℕ → ℕ) (s : CoordinatorState Tx) (d sid : ℕ)
      → Keeps s (disconnect config now draws s d sid)
  unfolding disconnect
  disconnect-Keeps config now draws s d sid =
      let gone =
        Keeps-trans s (remove_agent_session s d) _ (remove_agent_session-Keeps s d)
          (schedule-Keeps config now draws (remove_agent_session s d)) in
      elim (Option-cases (Assoc.lookup d s.agents)) [
        | inl q ↦ rw (q, disconnect) (Keeps-refl s)
        | inr (agent, q) ↦
            rw (q, disconnect)
              (elim (Bool-cases (agent.session_id == sid)) [
                | inl e ↦ rw e gone
                | inr e ↦ rw e (Keeps-refl s)
              ])
      ]

  register-Keeps :
      (config : CoordinatorConfig) (hash sid : ℕ) (tx : Tx) (peer : Option ℕ)
      (greeting : AgentHello) (d : ℕ) (s : CoordinatorState Tx) (answers : List RecoveryDisposition)
      (active : List (ℕ × ℕ))
      → Keeps s (register config hash sid tx peer greeting d s answers active).0
  unfolding register
  register-Keeps config hash sid tx peer greeting d s answers active =
      elim (Option-cases
        (channel.try_send tx (welcome (welcome_message config sid hash answers)))) [
          | inl e ↦ rw (e, register) (Keeps-jobs s _ refl refl (refl, refl))
          | inr (tx', e) ↦ rw (e, register) (Keeps-jobs s _ refl refl (refl, refl))
        ]

  pub connect-Keeps :
      (config : CoordinatorConfig) (enrollment : Enrollment) (now : ℕ) (hash : DeviceProfile → ℕ)
      (sid : ℕ) (tx : Tx) (s : CoordinatorState Tx) (peer : Option ℕ) (greeting : AgentHello)
      → Keeps s (connect config enrollment now hash sid tx s peer greeting).0
  unfolding connect
  connect-Keeps config enrollment now hash sid tx s peer greeting =
      elim (Result-cases (admit_hello config enrollment peer greeting)) [
        | inl (e, q) ↦ rw (q, connect) (Keeps-refl s)
        | inr ((d, profile), q) ↦
            let t = remove_agent_session s d in
            let u = (reconcile_recoveries config now d sid greeting.recoveries t [] []).0 in
            let keeps : Keeps s u =
              Keeps-trans s t u (remove_agent_session-Keeps s d)
                (reconcile-Keeps config now d sid greeting.recoveries t [] []) in
            rw (q, connect)
              (elim (Result-cases
                (reconcile_recoveries config now d sid greeting.recoveries t [] []).1) [
                  | inl (e, f) ↦ rw (f, connect) keeps
                  | inr ((answers, active), f) ↦
                      rw (f, connect)
                        (Keeps-trans s u _ keeps (
                          register-Keeps config (hash profile) sid tx peer greeting d u answers
                            active))
                ])
      ]

  pub handle_agent_event-Keeps :
      (config : CoordinatorConfig) (now : ℕ) (draws : ℕ → ℕ) (s : CoordinatorState Tx) (d sid : ℕ)
      (event : AgentEvent)
      → Keeps s (handle_agent_event config now draws s d sid event).0
  unfolding handle_agent_event
  handle_agent_event-Keeps config now draws s d sid event =
      let s' = expire_leases s now in
      let k = expire_leases-Keeps s now in
      elim (Option-cases (Assoc.lookup d s'.agents)) [
        | inl q ↦ rw (q, handle_agent_event) k
        | inr (agent, q) ↦
            rw (q, handle_agent_event)
              (elim (Bool-cases (agent.session_id == sid)) [
                | inl e ↦ rw e (elim (Result-cases (handle_event config now s' d sid agent event)) [
                  | inl (x, f) ↦ rw f k
                  | inr (t, f) ↦ rw f (
                      Keeps-trans s t _
                        (Keeps-trans s s' t k
                          (handle_event-Keeps config now s' d sid agent t event f))
                        (schedule-Keeps config now draws t))
                ])
                | inr e ↦ rw e k
              ])
      ]
