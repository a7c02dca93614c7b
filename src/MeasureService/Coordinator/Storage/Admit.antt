-- ===== src/MeasureService/Coordinator/Storage/Admit.antt =====
-- Admission stores what a job needs, within the bounds:
-- crates/gz-measure-service/src/coordinator.rs, `retain_artifacts`.
use graphzero.Base.{
  ℕ, ◌+◌, ◌≤◌, ◌≡◌, refl, ap, ◌∙◌, inl, inr, true, none, some, List, [], ◌∷◌, if◌then◌else◌, ◌==◌,
  ltb, length, arith, Bool-cases, ==→eq, ==_refl,
}
use graphzero.Base.Assoc
use graphzero.Base.Result.{ok, Result-cases}
use graphzero.Base.Sums.{IsMap}
use graphzero.MeasureService.Protocol.{ArtifactDescriptor, GraphArtifact}
use graphzero.MeasureService.Coordinator.{ArtifactRecord, CoordinatorConfig, CoordinatorState}
use graphzero.MeasureService.Coordinator.Artifacts.{
  Requested, request_all, count_new, store_one, store_all, admit, retain_artifacts,
}
use graphzero.MeasureService.Coordinator.Ledger.{named_in}
use graphzero.MeasureService.Coordinator.Storage.{refs, is_used, total, StoreOf}
use graphzero.MeasureService.Coordinator.Storage.Retain.{
  Requests, request_all-Requests, Stock, Stock-wants, store_one-Stored, count_new-store_one,
  count_new-step,
}

-- The requested references of a list of distinct digests, one by one.
refs-head :
    (entry : ℕ × ArtifactRecord) (requested : Requested) (want : ℕ → ℕ) (k : ℕ)
    → Assoc.lookup entry.0 requested ≡ none
    → (want k + (if entry.0 == k then (entry.1).references else 0))
        + refs (Assoc.lookup k requested)
      ≡ want k + refs (Assoc.lookup k (entry ∷ requested))
unfolding Assoc.lookup
refs-head entry requested want k h = elim (Bool-cases (entry.0 == k)) [
  | inl e ↦ ground (arith, e, ap (λ n. refs (Assoc.lookup n requested)) (==→eq entry.0 k e), h)
  | inr e ↦ ground (arith, e)
]

is_used-head :
    (entry : ℕ × ArtifactRecord) (requested : Requested)
    → ((k : ℕ) → is_used (Assoc.lookup k (entry ∷ requested)) ≡ true)
    → ltb 0 (entry.1).references ≡ true
unfolding Assoc.lookup
is_used-head entry requested u = ground (arith, u entry.0, ==_refl entry.0)

is_used-tail :
    (entry : ℕ × ArtifactRecord) (requested : Requested) (k : ℕ)
    → Assoc.lookup entry.0 requested ≡ none
    → is_used (Assoc.lookup k (entry ∷ requested)) ≡ true
    → is_used (Assoc.lookup k requested) ≡ true
unfolding Assoc.lookup
is_used-tail entry requested k h u = elim (Bool-cases (entry.0 == k)) [
  | inl e ↦ ground (arith, ap (λ n. is_used (Assoc.lookup n requested)) (==→eq entry.0 k e), h)
  | inr e ↦ ground (arith, e, u)
]

count_new-none :
    (artifacts : List (ℕ × ArtifactRecord)) (i b : ℕ) → count_new artifacts [] i b ≡ ok (i, b)
unfolding count_new
count_new-none artifacts i b = refl

store_all-Stored :
    (requested : Requested) (artifacts : List (ℕ × ArtifactRecord)) (want : ℕ → ℕ) (i b i' b' : ℕ)
    → IsMap requested
    → ((k : ℕ) → is_used (Assoc.lookup k requested) ≡ true)
    → Stock artifacts want
    → count_new artifacts requested i b ≡ ok (i', b')
    → Stock (store_all artifacts requested) (λ k. want k + refs (Assoc.lookup k requested))
      × (total (store_all artifacts requested) + b ≡ total artifacts + b')
      × (length (store_all artifacts requested) + i ≡ length artifacts + i')
unfolding store_all Assoc.lookup
store_all-Stored [] artifacts want i b i' b' m u v h =
    let same : count_new artifacts [] i b ≡ ok (i, b) = count_new-none artifacts i b in
    (
      Stock-wants artifacts want _ (λ k. omega arith) v,
      ground (arith, h, same),
      ground (arith, h, same),
    )
store_all-Stored (entry ∷ requested) artifacts want i b i' b' m u v h =
    let first =
      store_one-Stored artifacts entry.0 entry.1 want (is_used-head entry requested u) v in
    let next = store_one artifacts entry.0 entry.1 in
    let items : ℕ = elim (Assoc.lookup entry.0 artifacts) [ none ↦ 1 | some s ↦ 0 ] in
    let size : ℕ = elim (Assoc.lookup entry.0 artifacts) [
      | none ↦ length (entry.1).bytes
      | some s ↦ 0
    ] in
    let (stock, sizes, lengths) =
      store_all-Stored requested next
        (λ k. want k + (if entry.0 == k then (entry.1).references else 0)) (i + items) (b + size) i'
        b' m.1 (λ k. is_used-tail entry requested k m.0 (u k)) first.0
        (count_new-store_one artifacts entry.0 entry.1 requested (i + items) (b + size) m.0
          ∙ count_new-step artifacts entry requested i b i' b' h) in
    (
      Stock-wants (store_all next requested) _ _ (λ k. refs-head entry requested want k m.0) stock,
      omega (arith, sizes, first.1),
      omega (arith, lengths, first.2),
    )

Requests-none : Requests [] (λ k. 0)
unfolding Assoc.lookup
Requests-none = record { maps = tt; wanted = λ k. refl; used = λ k. refl }

module _ {Tx : Type 0} where
  Stock-Store :
      {items bytes : ℕ} (s : CoordinatorState Tx) (want : ℕ → ℕ)
      → StoreOf items bytes s want
      → Stock s.artifacts want
  Stock-Store s want v = record { maps = v.maps; wanted = v.wanted; used = v.used }

  admit_sound :
      (config : CoordinatorConfig) (s t : CoordinatorState Tx) (requested : Requested)
      (items size : ℕ)
      → admit config s requested (items, size) ≡ ok t
      → (t.artifacts ≡ store_all s.artifacts requested)
        × (t.artifact_bytes ≡ s.artifact_bytes + size)
        × (length s.artifacts + items ≤ config.artifact_item_capacity)
        × (s.artifact_bytes + size ≤ config.artifact_byte_capacity)
  unfolding admit
  admit_sound config s t requested items size h =
      (ground (arith, h), ground (arith, h), ground (arith, h), ground (arith, h))

  -- Admission adds the references of the job's descriptors, and stays within the capacities.
  pub retain_artifacts-Store :
      (config : CoordinatorConfig) (s t : CoordinatorState Tx) (ds : List ArtifactDescriptor)
      (gs : List GraphArtifact) (want : ℕ → ℕ)
      → length ds ≡ length gs
      → retain_artifacts config s ds gs ≡ ok t
      → StoreOf config.artifact_item_capacity config.artifact_byte_capacity s want
      → StoreOf config.artifact_item_capacity config.artifact_byte_capacity t
          (λ k. want k + named_in k ds)
  unfolding retain_artifacts admit
  retain_artifacts-Store config s t ds gs want l h v = elim (Result-cases (request_all ds gs [])) [
    | inl (x, e) ↦ absurd (ground (arith, h, e))
    | inr (requested, e) ↦ elim (Result-cases (count_new s.artifacts requested 0 0)) [
      | inl (x, f) ↦ absurd (ground (arith, h, e, f))
      | inr ((items, size), f) ↦
          let q = request_all-Requests ds gs [] requested (λ k. 0) l e Requests-none in
          let (stock, sizes, lengths) =
            store_all-Stored requested s.artifacts want 0 0 items size q.maps q.used
              (Stock-Store s want v) f in
          let (arts, bytes, few, small) =
            admit_sound config s t requested items size (ground (arith, h, e, f)) in
          record {
            maps = rw arts stock.maps;
            wanted = λ k. rw arts (ground (arith, stock.wanted k, q.wanted k));
            used = λ k. rw arts (stock.used k);
            counted = rw arts (omega (arith, bytes, sizes, v.counted));
            few = rw arts (omega (arith, few, lengths));
            small = omega (arith, bytes, small);
          }
    ]
  ]
