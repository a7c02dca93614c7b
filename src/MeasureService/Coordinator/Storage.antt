-- ===== src/MeasureService/Coordinator/Storage.antt =====
-- crates/gz-measure-service/src/coordinator.rs: the stored artifacts and their references.
pub mod Retain
pub mod Admit
pub mod Kept
pub mod Always
use graphzero.Base.{
  ℕ, zero, suc, ◌+◌, ◌-◌, ◌≤◌, ◌≡◌, refl, ap, ◌∙◌, inl, inr, Bool, true, false, Option, none, some,
  List, [], ◌∷◌, if◌then◌else◌, ◌==◌, ltb, length, arith, Bool-cases, Option-cases,
}
use graphzero.Base.Assoc
use graphzero.Base.Sums.{
  IsMap, IsMap-insert, IsMap-remove, sum_by, sum_by-insert_old, sum_by-remove, length-remove,
}
use graphzero.MeasureService.Protocol.{ArtifactDescriptor}
use graphzero.MeasureService.Coordinator.{ArtifactRecord, CoordinatorState}
use graphzero.MeasureService.Coordinator.Artifacts.{release_artifact}
use graphzero.MeasureService.Coordinator.Sessions.{release_all}
use graphzero.MeasureService.Coordinator.Ledger.{named_in}

abbrev pub refs : Option ArtifactRecord → ℕ
refs none = 0
refs (some r) = r.references

abbrev pub is_used : Option ArtifactRecord → Bool
is_used none = true
is_used (some r) = ltb 0 r.references

abbrev pub total : List (ℕ × ArtifactRecord) → ℕ
total artifacts = sum_by (λ (r : ArtifactRecord). length r.bytes) artifacts

-- The store has the references that are wanted of each digest, no record without a reference, and
-- the number of bytes that is kept with it, and is within its bounds.
pub record Store (items bytes : ℕ) (artifacts : List (ℕ × ArtifactRecord)) (size : ℕ) (want : ℕ → ℕ)
    : Type 0 where
  pub maps : IsMap artifacts
  pub wanted : (k : ℕ) → refs (Assoc.lookup k artifacts) ≡ want k
  pub used : (k : ℕ) → is_used (Assoc.lookup k artifacts) ≡ true
  pub counted : size ≡ total artifacts
  pub few : length artifacts ≤ items
  pub small : size ≤ bytes

module _ {Tx : Type 0} (items bytes : ℕ) where
  abbrev pub StoreOf : CoordinatorState Tx → (ℕ → ℕ) → Type 0
  StoreOf s want = Store items bytes s.artifacts s.artifact_bytes want

  release_artifact-Store :
      (s : CoordinatorState Tx) (g : ℕ) (want : ℕ → ℕ)
      → 1 ≤ want g
      → StoreOf s want
      → StoreOf (release_artifact s g) (λ k. if g == k then want k - 1 else want k)
  unfolding release_artifact
  release_artifact-Store s g want n v = elim (Option-cases (Assoc.lookup g s.artifacts)) [
    | inl e ↦ absurd (ground (arith, v.wanted g, n))
    | inr (r, e) ↦
        let weigh : ArtifactRecord → ℕ = λ r. length r.bytes in
        elim (Bool-cases (ltb 1 r.references)) [
          | inl q ↦
              let fewer : ArtifactRecord = record r { references = r.references - 1 } in
              rw (e, release_artifact, q)
                (record {
                  maps = IsMap-insert g fewer s.artifacts v.maps;
                  wanted = λ k.
                      ground
                        (arith, v.wanted k, v.wanted g, Assoc.lookup-insert g k fewer s.artifacts);
                  used = λ k. ground (arith, v.used k, Assoc.lookup-insert g k fewer s.artifacts);
                  counted =
                      omega (arith, v.counted, sum_by-insert_old weigh g fewer r s.artifacts e);
                  few = omega (arith, v.few, Assoc.length-insert_old g r fewer s.artifacts e);
                  small = v.small;
                })
          | inr q ↦
              rw (e, release_artifact, q)
                (record {
                  maps = IsMap-remove g s.artifacts v.maps;
                  wanted = λ k. ground (
                    arith,
                    v.wanted k,
                    v.wanted g,
                    v.used g,
                    Assoc.lookup-remove g k s.artifacts,
                  );
                  used = λ k. ground (arith, v.used k, Assoc.lookup-remove g k s.artifacts);
                  counted = omega (arith, v.counted, sum_by-remove weigh g r s.artifacts v.maps e);
                  few = omega (arith, v.few, length-remove g r s.artifacts v.maps e);
                  small = omega (arith, v.small);
                })
        ]
  ]

  Store-wants :
      (s : CoordinatorState Tx) (want want' : ℕ → ℕ)
      → ((k : ℕ) → want k ≡ want' k)
      → StoreOf s want
      → StoreOf s want'
  Store-wants s want want' h v = record {
    maps = v.maps;
    wanted = λ k. v.wanted k ∙ h k;
    used = v.used;
    counted = v.counted;
    few = v.few;
    small = v.small;
  }

  -- The artifacts of a job that leaves are released, as often as the job names them.
  pub release_all-Store :
      (s : CoordinatorState Tx) (ds : List ArtifactDescriptor) (want rest : ℕ → ℕ)
      → ((k : ℕ) → want k ≡ rest k + named_in k ds)
      → StoreOf s want
      → StoreOf (release_all s ds) rest
  unfolding release_all named_in
  release_all-Store s [] want rest h v = Store-wants s want rest (λ k. ground (arith, h k)) v
  release_all-Store s (d ∷ ds) want rest h v =
      release_all-Store (release_artifact s d.digest) ds
        (λ k. if d.digest == k then want k - 1 else want k) rest (λ k. ground (arith, h k))
        (release_artifact-Store s d.digest want (ground (arith, h d.digest)) v)
