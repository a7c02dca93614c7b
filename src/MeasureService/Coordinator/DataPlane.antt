-- ===== src/MeasureService/Coordinator/DataPlane.antt =====
-- What an agent gets from the data plane: crates/gz-measure-service/src/coordinator.rs,
-- `submit_result` and `fetch_artifact`.
use graphzero.Base.{
  take, skip, take-skip, length-skip, length-take, ℕ, zero, suc, ◌+◌, ◌≤◌, ◌<◌, ◌≡◌, refl, ap, ◌∙◌,
  inl, inr, ◌⊎◌, subst, ==→eq, Bool-cases, true, Option, none, some, List, [], ◌∷◌, ◌++◌, length,
  arith, Option-cases,
}
use graphzero.Base.Assoc
use graphzero.Base.Result.{ok, Result-cases}
use graphzero.MeasureService.Protocol.{WireId}
use graphzero.MeasureService.Coordinator.{
  CoordinatorConfig, ActiveLease, Job, AgentSession, CoordinatorState, ArtifactRecord,
}
use graphzero.MeasureService.Coordinator.Sessions.{lease_of}
use graphzero.MeasureService.Coordinator.Validate.{
  find_session, same_fingerprint, authenticate_session, holds, validate_active_lease,
}
use graphzero.MeasureService.Coordinator.Results.{
  chunks_from, has_digest, leased_artifact, fetch_artifact,
}

-- The chunks of a stream put together.
unfoldable pub joined : List (ℕ × List ℕ) → List ℕ
joined [] = []
joined ((offset, bytes) ∷ chunks) = bytes ++ joined chunks

-- Each chunk starts where the one before it ends, the first at `offset`, none is empty, and none is
-- longer than `limit`.
abbrev pub Consecutive : ℕ → ℕ → List (ℕ × List ℕ) → Type 0
Consecutive limit offset [] = Unit {0}
Consecutive limit offset ((start, bytes) ∷ chunks) =
    (start ≡ offset)
    × (0 < length bytes)
    × (length bytes ≤ limit)
    × Consecutive limit (offset + length bytes) chunks

joined-chunks_from :
    (fuel c offset : ℕ) (bytes : List ℕ)
    → length bytes ≤ fuel
    → joined (chunks_from fuel (suc c) offset bytes) ≡ bytes
unfolding joined chunks_from
joined-chunks_from zero c offset [] h = refl
joined-chunks_from zero c offset (b ∷ bytes) h = absurd (omega (arith, h))
joined-chunks_from (suc fuel) c offset [] h = refl
joined-chunks_from (suc fuel) c offset (b ∷ bytes) h =
    ap (λ rest. b ∷ (take c bytes ++ rest))
      (joined-chunks_from fuel c (offset + suc c) (skip c bytes)
        (omega (arith, length-skip c bytes, h)))
    ∙ ap (λ rest. b ∷ rest) (take-skip c bytes)

-- Where bytes are left after a chunk, it is as long as a chunk can be.
skip_cases : (n : ℕ) (xs : List ℕ) → (skip n xs ≡ []) ⊎ (length (take n xs) ≡ n)
unfolding skip take
skip_cases zero xs = inr refl
skip_cases (suc n) [] = inl refl
skip_cases (suc n) (x ∷ xs) = elim (skip_cases n xs) [
  | inl e ↦ inl e
  | inr e ↦ inr (omega (arith, e))
]

chunks_from_nil : (fuel chunk_bytes offset : ℕ) → chunks_from fuel chunk_bytes offset [] ≡ []
unfolding chunks_from
chunks_from_nil zero chunk_bytes offset = refl
chunks_from_nil (suc fuel) chunk_bytes offset = refl

chunks_from-Consecutive :
    (fuel c offset : ℕ) (bytes : List ℕ)
    → Consecutive (suc c) offset (chunks_from fuel (suc c) offset bytes)
unfolding chunks_from
chunks_from-Consecutive zero c offset bytes = tt
chunks_from-Consecutive (suc fuel) c offset [] = tt
chunks_from-Consecutive (suc fuel) c offset (b ∷ bytes) = (
  refl,
  omega arith,
  omega (arith, length-take c bytes),
  elim (skip_cases c bytes) [
    | inl e ↦ rw (e, chunks_from_nil fuel (suc c) (offset + suc c)) tt
    | inr e ↦ rw e (chunks_from-Consecutive fuel c (offset + suc c) (skip c bytes))
  ],
)

same_fingerprint→eq : (a b : Option ℕ) → same_fingerprint a b ≡ true → a ≡ b
same_fingerprint→eq none none h = refl
same_fingerprint→eq none (some y) h = cc
same_fingerprint→eq (some x) none h = cc
same_fingerprint→eq (some x) (some y) h = ap some (==→eq x y h)

module _ {Tx : Type 0} where
  -- The session is that of an agent, and the peer has the certificate that the agent connected with.
  abbrev pub Authentic : CoordinatorState Tx → Option ℕ → ℕ → ℕ → AgentSession Tx → Type 0
  Authentic s peer sid d agent =
      (find_session s.agents sid ≡ some (d, agent))
      × (agent.session_id ≡ sid)
      × (agent.peer_fingerprint ≡ peer)

  -- The peer is that of the session's agent, and the lease that it presents is the one that the job is
  -- leased under to this agent, which holds it.
  abbrev pub Presents : CoordinatorState Tx → Option ℕ → ℕ → Job → ℕ → ℕ → Type 0
  Presents s peer j job sid lease =
      (d : ℕ) × (agent : AgentSession Tx) × (a : ActiveLease) × Authentic s peer sid d agent
      × (lease_of job.state ≡ some a)
      × (holds a j d agent sid lease ≡ true)

  find_session_sound :
      (agents : List (ℕ × AgentSession Tx)) (sid : ℕ) (entry : ℕ × AgentSession Tx)
      → find_session agents sid ≡ some entry
      → (entry.1).session_id ≡ sid
  unfolding find_session
  find_session_sound [] sid entry h = absurd (ground (arith, h))
  find_session_sound (e ∷ agents) sid entry h =
      ground (arith, find_session_sound agents sid entry, h)

  pub authenticate_session_sound :
      (s : CoordinatorState Tx) (sid : ℕ) (peer : Option ℕ) (entry : ℕ × AgentSession Tx)
      → authenticate_session s sid peer ≡ ok entry
      → Authentic s peer sid entry.0 entry.1
  unfolding authenticate_session
  authenticate_session_sound s sid peer entry h = elim (Option-cases (find_session s.agents sid)) [
    | inl e ↦ absurd (ground (arith, h, e))
    | inr (found, e) ↦ elim (Bool-cases (same_fingerprint (found.1).peer_fingerprint peer)) [
      | inr out ↦ absurd (ground (arith, h, e, out))
      | inl in_place ↦
          let same : found ≡ entry = ground (arith, h, e, in_place) in
          subst (λ x. Authentic s peer sid x.0 x.1) same
            (
              e,
              find_session_sound s.agents sid found e,
              same_fingerprint→eq (found.1).peer_fingerprint peer in_place,
            )
    ]
  ]

  validate_active_lease_sound :
      (j : ℕ) (job : Job) (d : ℕ) (agent : AgentSession Tx) (lease : ℕ)
      → validate_active_lease j job (d, agent) lease ≡ ok tt
      → (a : ActiveLease) × (lease_of job.state ≡ some a)
        × (holds a j d agent agent.session_id lease ≡ true)
  unfolding validate_active_lease
  validate_active_lease_sound j job d agent lease h = elim (Option-cases (lease_of job.state)) [
    | inl e ↦ absurd (ground (arith, h, e))
    | inr (a, e) ↦ (a, e, ground (arith, h, e))
  ]

  leased_artifact_sound :
      (s : CoordinatorState Tx) (peer : Option ℕ) (sid j lease digest : ℕ) (stored : ArtifactRecord)
      → leased_artifact s peer sid j lease digest ≡ ok stored
      → (job : Job) × (Assoc.lookup j s.jobs ≡ some job)
        × Presents s peer j job sid lease
        × (has_digest digest job.descriptors ≡ true)
        × (Assoc.lookup digest s.artifacts ≡ some stored)
  unfolding leased_artifact
  leased_artifact_sound s peer sid j lease digest stored h =
      elim (Result-cases (authenticate_session s sid peer)) [
        | inl (x, e) ↦ absurd (ground (arith, h, e))
        | inr ((d, agent), e) ↦ elim (Option-cases (Assoc.lookup j s.jobs)) [
          | inl f ↦ absurd (ground (arith, h, e, f))
          | inr (job, f) ↦ elim (Result-cases (validate_active_lease j job (d, agent) lease)) [
            | inl (x, g) ↦ absurd (ground (arith, h, e, f, g))
            | inr (tt, g) ↦
                let (a, ha, hh) = validate_active_lease_sound j job d agent lease g in
                let q = authenticate_session_sound s sid peer (d, agent) e in
                (
                  job,
                  f,
                  (d, agent, a, q, ha, simp (q.1) at hh),
                  ground (arith, h, e, f, g),
                  ground (arith, h, e, f, g),
                )
          ]
        ]
      ]

  -- The chunks are those of an artifact that a leased job names, from an offset on.
  abbrev pub Served :
      CoordinatorConfig
      → CoordinatorState Tx
      → Option ℕ
      → WireId
      → WireId
      → WireId
      → WireId
      → ℕ
      → List (ℕ × List ℕ)
      → Type 0
  Served config s peer control job_id lease_id artifact offset chunks =
      (sid j lease digest : ℕ) × (job : Job) × (stored : ArtifactRecord) × (control ≡ some sid)
      × (job_id ≡ some j)
      × (lease_id ≡ some lease)
      × (artifact ≡ some digest)
      × (Assoc.lookup j s.jobs ≡ some job)
      × Presents s peer j job sid lease
      × (has_digest digest job.descriptors ≡ true)
      × (Assoc.lookup digest s.artifacts ≡ some stored)
      × (offset ≤ length stored.bytes)
      × (joined chunks ≡ skip offset stored.bytes)
      × Consecutive config.artifact_chunk_bytes offset chunks

  -- An artifact is streamed only for a job that names it, under the lease that the job has, to a peer
  -- with the certificate of the agent that holds this lease; and then the chunks, put together, are
  -- the artifact's bytes from the offset that was asked for, the first chunk starts at this offset and
  -- each other where the one before it ends, and none is empty or longer than the chunk size.
  pub fetch_artifact_sound :
      (config : CoordinatorConfig) (c : ℕ) (s : CoordinatorState Tx) (peer : Option ℕ)
      (control job_id lease_id artifact : WireId) (offset : ℕ) (chunks : List (ℕ × List ℕ))
      → config.artifact_chunk_bytes ≡ suc c
      → fetch_artifact config s peer control job_id lease_id artifact offset ≡ ok chunks
      → Served config s peer control job_id lease_id artifact offset chunks
  unfolding fetch_artifact
  fetch_artifact_sound config c s peer none job_id lease_id artifact offset chunks hc h =
      absurd (ground (arith, h))
  fetch_artifact_sound config c s peer (some sid) none lease_id artifact offset chunks hc h =
      absurd (ground (arith, h))
  fetch_artifact_sound config c s peer (some sid) (some j) none artifact offset chunks hc h =
      absurd (ground (arith, h))
  fetch_artifact_sound config c s peer (some sid) (some j) (some lease) none offset chunks hc h =
      absurd (ground (arith, h))
  fetch_artifact_sound config c s peer (some sid) (some j) (some lease) (some digest) offset chunks
        hc h =
      elim (Result-cases (leased_artifact s peer sid j lease digest)) [
        | inl (x, e) ↦ absurd (ground (arith, h, e))
        | inr (stored, e) ↦
            let (job, hj, hp, hd, hs) = leased_artifact_sound s peer sid j lease digest stored e in
            let bound : offset ≤ length stored.bytes = ground (arith, h, e) in
            let made : chunks_from (length stored.bytes) config.artifact_chunk_bytes offset
                  (skip offset stored.bytes)
                ≡ chunks =
              ground (arith, h, e) in
            (
              sid,
              j,
              lease,
              digest,
              job,
              stored,
              refl,
              refl,
              refl,
              refl,
              hj,
              hp,
              hd,
              hs,
              bound,
              rw (← made, hc)
                  (joined-chunks_from (length stored.bytes) c offset (skip offset stored.bytes)
                    (length-skip offset stored.bytes)),
              rw (← made, hc)
                  (chunks_from-Consecutive (length stored.bytes) c offset
                    (skip offset stored.bytes)),
            )
      ]
