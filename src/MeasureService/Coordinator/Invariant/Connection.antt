-- ===== src/MeasureService/Coordinator/Invariant/Connection.antt =====
-- A connection keeps the invariant, whatever it recovers and whatever the outcome:
-- crates/gz-measure-service/src/coordinator.rs, `connect` and `reconcile_recoveries`.
use graphzero.Base.{ℕ, ◌≡◌, inl, inr, Option, some, List, [], ◌∷◌, arith, Bool-cases, Option-cases}
use graphzero.Base.Assoc
use graphzero.Base.Result.{Result, ok, err, Result-cases}
use graphzero.MeasureService.Protocol.{welcome, ServiceError, LeaseRecovery, RecoveryDisposition}
use graphzero.MeasureService.Receipts
use graphzero.MeasureService.Coordinator.{CommandChannel, CoordinatorConfig, CoordinatorState}
use graphzero.MeasureService.Coordinator.Connect.{
  AgentHello, check_recoveries, validate_hello, rebind, reconcile_recoveries,
}
use graphzero.MeasureService.Coordinator.Sessions.{remove_agent_session}
use graphzero.MeasureService.Coordinator.Connect.{
  Enrollment, DeviceProfile, admit_hello, register, welcome_message, connect,
}
use graphzero.MeasureService.Coordinator.Invariant.{Inv}
use graphzero.MeasureService.Coordinator.Invariant.Recovery.{
  Recovering, recoverable_cases, rebind-Recovering, removed-Recovering, registered-Inv,
}
use graphzero.MeasureService.Coordinator.Invariant.Sessions.{
  remove_agent_session-Inv, remove_agent_session-absent,
}

-- The ids of a recovery have the right width.
abbrev Readable : LeaseRecovery → Type 0
Readable r = ((j : ℕ) × (r.job_id ≡ some j)) × ((l : ℕ) × (r.lease_id ≡ some l))

abbrev AllReadable : List LeaseRecovery → Type 0
AllReadable [] = Unit {0}
AllReadable (r ∷ rs) = Readable r × AllReadable rs

check_recoveries-Readable :
    (seen : List ℕ) (r : LeaseRecovery) (rs : List LeaseRecovery)
    → check_recoveries seen (r ∷ rs) ≡ ok tt
    → (j : ℕ) × (l : ℕ) × (r.job_id ≡ some j)
      × (r.lease_id ≡ some l)
      × (check_recoveries (j ∷ seen) rs ≡ ok tt)
unfolding check_recoveries
check_recoveries-Readable seen r rs h = elim (Option-cases r.job_id) [
  | inl e ↦ absurd (ground (arith, h))
  | inr (j, e) ↦ elim (Option-cases r.lease_id) [
    | inl f ↦ absurd (ground (arith, h))
    | inr (l, f) ↦ (j, l, e, f, ground (arith, h))
  ]
]

-- A greeting that is valid names its recoveries readably.
check_recoveries-AllReadable :
    (seen : List ℕ) (rs : List LeaseRecovery) → check_recoveries seen rs ≡ ok tt → AllReadable rs
check_recoveries-AllReadable seen [] h = tt
check_recoveries-AllReadable seen (r ∷ rs) h =
    let (j, l, e, f, rest) = check_recoveries-Readable seen r rs h in
    (((j, e), (l, f)), check_recoveries-AllReadable (j ∷ seen) rs rest)

validate_hello-AllReadable :
    (config : CoordinatorConfig) (hello : AgentHello)
    → validate_hello config hello ≡ ok tt
    → AllReadable hello.recoveries
unfolding validate_hello
validate_hello-AllReadable config hello h =
    check_recoveries-AllReadable [] hello.recoveries (ground (arith, h))

abbrev Recovered :
    {Tx : Type 0}
    → ℕ
    → ℕ
    → CoordinatorState Tx
    → Result ServiceError (List RecoveryDisposition × List (ℕ × ℕ))
    → Type 0
Recovered d sid t (err e) = ⊥
Recovered d sid t (ok (answers, active)) = Recovering t d sid active

module _ {Tx : Type 0} (config : CoordinatorConfig) (now d sid : ℕ) where
  -- Readable recoveries are all answered, and those that are granted run under the new session.
  reconcile-Recovering :
      (rs : List LeaseRecovery) (t : CoordinatorState Tx) (active : List (ℕ × ℕ))
      (answers : List RecoveryDisposition)
      → AllReadable rs
      → Recovering t d sid active
      → (let (t', outcome) = reconcile_recoveries config now d sid rs t active answers in
          Recovered d sid t' outcome)
  unfolding reconcile_recoveries
  reconcile-Recovering [] t active answers h v = v
  reconcile-Recovering (r ∷ rs) t active answers (((j, hj), (l, hl)), h) v =
      rw (hj, hl, reconcile_recoveries)
        (elim (Bool-cases (Receipts.contains t.receipts j)) [
          | inl e ↦ rw (e, reconcile_recoveries) (reconcile-Recovering rs t active _ h v)
          | inr e ↦
              rw (e, reconcile_recoveries)
                (elim (recoverable_cases (Assoc.lookup j t.jobs) d l) [
                  | inl q ↦ rw (q, reconcile_recoveries) (reconcile-Recovering rs t active _ h v)
                  | inr (job, a, q, hjob, hr, hd, ha) ↦
                      rw (q, reconcile_recoveries)
                        (reconcile-Recovering rs (rebind config now t sid j job a)
                          (Assoc.insert j l active) _ h
                          (rw (← ha)
                            (rebind-Recovering config now t d sid j job a active hjob hr hd v)))
                ])
        ])

admit_hello-AllReadable :
    (config : CoordinatorConfig) (enrollment : Enrollment) (peer : Option ℕ) (hello : AgentHello)
    (admitted : ℕ × DeviceProfile)
    → admit_hello config enrollment peer hello ≡ ok admitted
    → AllReadable hello.recoveries
unfolding admit_hello
admit_hello-AllReadable config enrollment peer hello admitted h =
    elim (Result-cases (validate_hello config hello)) [
      | inl (e, q) ↦ absurd (ground (arith, h, q))
      | inr (u, q) ↦ validate_hello-AllReadable config hello q
    ]

Recovered-along :
    {Tx : Type 0} (d sid : ℕ) (t : CoordinatorState Tx)
    {o o' : Result ServiceError (List RecoveryDisposition × List (ℕ × ℕ))}
    → o ≡ o'
    → Recovered d sid t o
    → Recovered d sid t o'
Recovered-along d sid t f r = coe 0 1 (i. Recovered d sid t (f i)) r

module _ {Tx : Type 0} ⦃channel : CommandChannel Tx⦄ where
  register-Inv :
      (config : CoordinatorConfig) (hash sid : ℕ) (tx : Tx) (peer : Option ℕ) (hello : AgentHello)
      (d : ℕ) (t : CoordinatorState Tx) (answers : List RecoveryDisposition) (active : List (ℕ × ℕ))
      → Recovering t d sid active
      → Inv (register config hash sid tx peer hello d t answers active).0
  unfolding register
  register-Inv config hash sid tx peer hello d t answers active v =
      elim (Option-cases
        (channel.try_send tx (welcome (welcome_message config sid hash answers)))) [
          | inl e ↦ rw (e, register) (registered-Inv t d _ v)
          | inr (tx', e) ↦ rw (e, register) (registered-Inv t d _ v)
        ]

  -- A connection keeps the invariant, also where it is refused.
  pub connect-Inv :
      (config : CoordinatorConfig) (enrollment : Enrollment) (now : ℕ) (hash : DeviceProfile → ℕ)
      (sid : ℕ) (tx : Tx) (s : CoordinatorState Tx) (peer : Option ℕ) (hello : AgentHello)
      → Inv s
      → Inv (connect config enrollment now hash sid tx s peer hello).0
  unfolding connect
  connect-Inv config enrollment now hash sid tx s peer hello v =
      elim (Result-cases (admit_hello config enrollment peer hello)) [
        | inl (e, q) ↦ rw (q, connect) v
        | inr ((d, profile), q) ↦
            let t = remove_agent_session s d in
            let r =
              reconcile-Recovering config now d sid hello.recoveries t [] []
                (admit_hello-AllReadable config enrollment peer hello (d, profile) q)
                (removed-Recovering t d sid (remove_agent_session-absent s d)
                  (remove_agent_session-Inv s d v)) in
            rw (q, connect)
              (elim (Result-cases
                (reconcile_recoveries config now d sid hello.recoveries t [] []).1) [
                  | inl (e, f) ↦ absurd (Recovered-along d sid _ f r)
                  | inr ((answers, active), f) ↦
                      rw (f, connect)
                        (register-Inv config (hash profile) sid tx peer hello d _ answers active
                          (Recovered-along d sid _ f r))
                ])
      ]
