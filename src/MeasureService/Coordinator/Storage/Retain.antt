-- ===== src/MeasureService/Coordinator/Storage/Retain.antt =====
-- The artifacts of a job that is admitted are stored, as often as the job names them:
-- crates/gz-measure-service/src/coordinator.rs, `retain_artifacts`.
use graphzero.Base.{
  ℕ, ◌+◌, ◌≡◌, refl, ◌∙◌, inl, inr, true, none, some, List, [], ◌∷◌, if◌then◌else◌, ◌==◌, ltb,
  length, arith, Option-cases,
}
use graphzero.Base.Assoc
use graphzero.Base.Result.{ok, Result-cases}
use graphzero.Base.Sums.{IsMap, IsMap-insert, sum_by-insert_old, sum_by-insert_new}
use graphzero.MeasureService.Protocol.{ArtifactDescriptor, GraphArtifact}
use graphzero.MeasureService.Coordinator.{ArtifactRecord}
use graphzero.MeasureService.Coordinator.Artifacts.{
  Requested, request_one, request_all, count_new, store_one,
}
use graphzero.MeasureService.Coordinator.Ledger.{named_in}
use graphzero.MeasureService.Coordinator.Storage.{refs, is_used, total}

-- What is requested of each digest.
pub record Requests (requested : Requested) (want : ℕ → ℕ) : Type 0 where
  pub maps : IsMap requested
  pub wanted : (k : ℕ) → refs (Assoc.lookup k requested) ≡ want k
  pub used : (k : ℕ) → is_used (Assoc.lookup k requested) ≡ true

request_one-Requests :
    (requested after : Requested) (d : ArtifactDescriptor) (g : GraphArtifact) (want : ℕ → ℕ)
    → request_one requested d g ≡ ok after
    → Requests requested want
    → Requests after (λ k. want k + (if d.digest == k then 1 else 0))
unfolding request_one
request_one-Requests requested after d g want h v =
    elim (Option-cases (Assoc.lookup d.digest requested)) [
      | inl e ↦
          let fresh : ArtifactRecord = record { bytes = g.bytes; references = 1 } in
          let same : Assoc.insert d.digest fresh requested ≡ after = ground (arith, h, e) in
          rw (← same) (record {
            maps = IsMap-insert d.digest fresh requested v.maps;
            wanted =
                λ k. ground (arith, v.wanted k, Assoc.lookup-insert d.digest k fresh requested, e);
            used = λ k. ground (arith, v.used k, Assoc.lookup-insert d.digest k fresh requested);
          })
      | inr (r, e) ↦
          let more : ArtifactRecord = record r { references = r.references + 1 } in
          let same : Assoc.insert d.digest more requested ≡ after = ground (arith, h, e) in
          rw (← same) (record {
            maps = IsMap-insert d.digest more requested v.maps;
            wanted =
                λ k. ground (arith, v.wanted k, Assoc.lookup-insert d.digest k more requested, e);
            used = λ k. ground (arith, v.used k, Assoc.lookup-insert d.digest k more requested);
          })
    ]

Requests-wants :
    (requested : Requested) (want want' : ℕ → ℕ)
    → ((k : ℕ) → want k ≡ want' k)
    → Requests requested want
    → Requests requested want'
Requests-wants requested want want' h v = record {
  maps = v.maps;
  wanted = λ k. v.wanted k ∙ h k;
  used = v.used;
}

pub request_all-Requests :
    (ds : List ArtifactDescriptor) (gs : List GraphArtifact) (requested after : Requested)
    (want : ℕ → ℕ)
    → length ds ≡ length gs
    → request_all ds gs requested ≡ ok after
    → Requests requested want
    → Requests after (λ k. want k + named_in k ds)
unfolding request_all named_in
request_all-Requests [] gs requested after want l h v =
    let same : requested ≡ after = ground (arith, h) in
    rw (← same) (Requests-wants requested want _ (λ k. omega arith) v)
request_all-Requests (d ∷ ds) [] requested after want l h v = absurd (omega (arith, l))
request_all-Requests (d ∷ ds) (g ∷ gs) requested after want l h v =
    elim (Result-cases (request_one requested d g)) [
      | inl (x, e) ↦ absurd (ground (arith, h, e))
      | inr (next, e) ↦
          Requests-wants after _ _ (λ k. ground arith)
            (request_all-Requests ds gs next after (λ k. want k + (if d.digest == k then 1 else 0))
              (omega (arith, l)) (ground (arith, h, e))
              (request_one-Requests requested next d g want e v))
    ]

-- What is new does not depend on the records of other digests.
count_new-insert :
    (x : ℕ) (r : ArtifactRecord) (artifacts : List (ℕ × ArtifactRecord)) (requested : Requested)
    (i b : ℕ)
    → Assoc.lookup x requested ≡ none
    → count_new (Assoc.insert x r artifacts) requested i b ≡ count_new artifacts requested i b
unfolding count_new Assoc.lookup
count_new-insert x r artifacts [] i b h = refl
count_new-insert x r artifacts (entry ∷ requested) i b h = ground (
  arith,
  h,
  Assoc.lookup-insert x entry.0 r artifacts,
  count_new-insert x r artifacts requested i b,
  count_new-insert x r artifacts requested (i + 1) (b + length (entry.1).bytes),
)

-- The part of the store's invariant that does not mention its size.
pub record Stock (artifacts : List (ℕ × ArtifactRecord)) (want : ℕ → ℕ) : Type 0 where
  pub maps : IsMap artifacts
  pub wanted : (k : ℕ) → refs (Assoc.lookup k artifacts) ≡ want k
  pub used : (k : ℕ) → is_used (Assoc.lookup k artifacts) ≡ true

pub Stock-wants :
    (artifacts : List (ℕ × ArtifactRecord)) (want want' : ℕ → ℕ)
    → ((k : ℕ) → want k ≡ want' k)
    → Stock artifacts want
    → Stock artifacts want'
Stock-wants artifacts want want' h v = record {
  maps = v.maps;
  wanted = λ k. v.wanted k ∙ h k;
  used = v.used;
}

abbrev pub weigh : ArtifactRecord → ℕ
weigh r = length r.bytes

-- One digest is stored: what changes, and how the size and the number of records grow.
abbrev pub Stored : List (ℕ × ArtifactRecord) → List (ℕ × ArtifactRecord) → (ℕ → ℕ) → ℕ → ℕ → Type 0
Stored artifacts after want items size =
    Stock after want
    × (total after ≡ total artifacts + size)
    × (length after ≡ length artifacts + items)

pub store_one-Stored :
    (artifacts : List (ℕ × ArtifactRecord)) (x : ℕ) (r : ArtifactRecord) (want : ℕ → ℕ)
    → ltb 0 r.references ≡ true
    → Stock artifacts want
    → Stored artifacts
        (store_one artifacts x r)
        (λ k. want k + (if x == k then r.references else 0))
        (elim (Assoc.lookup x artifacts) [ none ↦ 1 | some s ↦ 0 ])
        (elim (Assoc.lookup x artifacts) [ none ↦ length r.bytes | some s ↦ 0 ])
unfolding store_one
store_one-Stored artifacts x r want n v = elim (Option-cases (Assoc.lookup x artifacts)) [
  | inl e ↦
      rw (e, store_one)
        (
          record {
            maps = IsMap-insert x r artifacts v.maps;
            wanted = λ k. ground (arith, v.wanted k, Assoc.lookup-insert x k r artifacts, e);
            used = λ k. ground (arith, v.used k, Assoc.lookup-insert x k r artifacts, n);
          },
          sum_by-insert_new weigh x r artifacts e,
          omega (arith, Assoc.length-insert_new x r artifacts e),
        )
  | inr (s, e) ↦
      let more : ArtifactRecord = record s { references = s.references + r.references } in
      rw (e, store_one)
        (
          record {
            maps = IsMap-insert x more artifacts v.maps;
            wanted = λ k. ground (arith, v.wanted k, Assoc.lookup-insert x k more artifacts, e);
            used = λ k. ground (arith, v.used k, Assoc.lookup-insert x k more artifacts, n);
          },
          omega (arith, sum_by-insert_old weigh x more s artifacts e),
          omega (arith, Assoc.length-insert_old x s more artifacts e),
        )
]

pub count_new-store_one :
    (artifacts : List (ℕ × ArtifactRecord)) (x : ℕ) (r : ArtifactRecord) (requested : Requested)
    (i b : ℕ)
    → Assoc.lookup x requested ≡ none
    → count_new (store_one artifacts x r) requested i b ≡ count_new artifacts requested i b
unfolding store_one
count_new-store_one artifacts x r requested i b h = elim (Option-cases (Assoc.lookup x artifacts)) [
  | inl e ↦ rw (e, store_one) (count_new-insert x r artifacts requested i b h)
  | inr (s, e) ↦ rw (e, store_one) (count_new-insert x _ artifacts requested i b h)
]

pub count_new-step :
    (artifacts : List (ℕ × ArtifactRecord)) (entry : ℕ × ArtifactRecord) (requested : Requested)
    (i b i' b' : ℕ)
    → count_new artifacts (entry ∷ requested) i b ≡ ok (i', b')
    → count_new artifacts requested
        (i + elim (Assoc.lookup entry.0 artifacts) [ none ↦ 1 | some s ↦ 0 ])
        (b + elim (Assoc.lookup entry.0 artifacts) [ none ↦ length (entry.1).bytes | some s ↦ 0 ])
      ≡ ok (i', b')
unfolding count_new
count_new-step artifacts entry requested i b i' b' h =
    elim (Option-cases (Assoc.lookup entry.0 artifacts)) [
      | inl e ↦ ground (arith, h, e)
      | inr (s, e) ↦
          let zero_i : i + 0 ≡ i = omega arith in
          let zero_b : b + 0 ≡ b = omega arith in rw (e, zero_i, zero_b) (ground (arith, h, e))
    ]
