-- ===== src/MeasureService/Coordinator/Artifacts.antt =====
-- crates/gz-measure-service/src/coordinator.rs: the store of leased artifacts, with a count of the
-- jobs' references to each.
use graphzero.Base.{
  ℕ, ◌+◌, ◌-◌, Bool, true, false, ◌&&◌, none, some, List, [], ◌∷◌, if◌then◌else◌, ◌==◌, ltb, leb,
  length, u64_mod,
}
use graphzero.Base.Assoc
use graphzero.Base.Result.{Result, ok, err}
use graphzero.MeasureService.Protocol.{
  ServiceError, capacity, protocol, GraphArtifact, ArtifactDescriptor,
}
use graphzero.MeasureService.Coordinator.{ArtifactRecord, CoordinatorState, CoordinatorConfig}

unfoldable pub bytes_eq : List ℕ → List ℕ → Bool
bytes_eq [] [] = true
bytes_eq (x ∷ xs) (y ∷ ys) = x == y && bytes_eq xs ys
bytes_eq _ _ = false

-- One submission's artifacts by digest, with how often each is named: its `requested` map.
abbrev pub Requested : Type 0
Requested = List (ℕ × ArtifactRecord)

-- One round of the first loop of `retain_artifacts`.
unfoldable pub request_one :
    Requested → ArtifactDescriptor → GraphArtifact → Result ServiceError Requested
request_one requested descriptor artifact = elim (Assoc.lookup descriptor.digest requested) [
  | none ↦
      ok (
        Assoc.insert descriptor.digest (record { bytes = artifact.bytes; references = 1 })
          requested)
  | some entry ↦
      if bytes_eq entry.bytes artifact.bytes
      then (if ltb (entry.references + 1) u64_mod
          then ok (
              Assoc.insert descriptor.digest (record entry { references = entry.references + 1 })
                requested)
          else err (capacity "artifact reference count overflow"))
      else err (protocol "artifact digest collision with different bytes")
]

unfoldable pub request_all :
    List ArtifactDescriptor → List GraphArtifact → Requested → Result ServiceError Requested
unfolding request_one
request_all [] artifacts requested = ok requested
request_all (descriptor ∷ descriptors) [] requested = ok requested
request_all (descriptor ∷ descriptors) (artifact ∷ artifacts) requested =
    elim (request_one requested descriptor artifact) [
      | err e ↦ err e
      | ok requested' ↦ request_all descriptors artifacts requested'
    ]

-- The second loop of `retain_artifacts`: how many items and bytes are new.
unfoldable pub count_new :
    List (ℕ × ArtifactRecord) → Requested → ℕ → ℕ → Result ServiceError (ℕ × ℕ)
count_new artifacts [] new_items new_bytes = ok (new_items, new_bytes)
count_new artifacts (entry ∷ requested) new_items new_bytes =
    elim (Assoc.lookup entry.0 artifacts) [
      | some stored ↦
          if bytes_eq stored.bytes (entry.1).bytes
          then (let rest = count_new artifacts requested new_items new_bytes in
              if ltb (stored.references + (entry.1).references) u64_mod
              then rest
              else err (capacity "artifact reference count overflow"))
          else err (protocol "artifact digest collision with different bytes")
      | none ↦
          let rest =
            count_new artifacts requested (new_items + 1) (new_bytes + length (entry.1).bytes) in
          if ltb (new_items + 1) u64_mod
          then (if ltb (new_bytes + length (entry.1).bytes) u64_mod
              then rest
              else err (capacity "artifact byte count overflow"))
          else err (capacity "artifact item count overflow")
    ]

-- The last loop: the references are added.
unfoldable pub store_one :
    List (ℕ × ArtifactRecord) → ℕ → ArtifactRecord → List (ℕ × ArtifactRecord)
store_one artifacts digest entry = elim (Assoc.lookup digest artifacts) [
  | none ↦ Assoc.insert digest entry artifacts
  | some stored ↦
      Assoc.insert digest (record stored { references = stored.references + entry.references })
        artifacts
]

unfoldable pub store_all : List (ℕ × ArtifactRecord) → Requested → List (ℕ × ArtifactRecord)
unfolding store_one
store_all artifacts [] = artifacts
store_all artifacts (entry ∷ requested) = store_all (store_one artifacts entry.0 entry.1) requested

module _ {Tx : Type 0} where
  -- The capacity checks, and the store of what was requested.
  unfoldable pub admit :
      CoordinatorConfig
      → CoordinatorState Tx
      → Requested
      → ℕ × ℕ
      → Result ServiceError (CoordinatorState Tx)
  unfolding store_all
  admit config s requested (new_items, new_bytes) =
      if ltb (length s.artifacts + new_items) u64_mod
        && leb (length s.artifacts + new_items) config.artifact_item_capacity
      then (if ltb (s.artifact_bytes + new_bytes) u64_mod
          then (if leb (s.artifact_bytes + new_bytes) config.artifact_byte_capacity
              then ok (record s {
                artifact_bytes = s.artifact_bytes + new_bytes;
                artifacts = store_all s.artifacts requested;
              })
              else err (capacity "artifact byte capacity is full"))
          else err (capacity "artifact byte count overflow"))
      else err (capacity "artifact item capacity is full")

  unfoldable pub retain_artifacts :
      CoordinatorConfig
      → CoordinatorState Tx
      → List ArtifactDescriptor
      → List GraphArtifact
      → Result ServiceError (CoordinatorState Tx)
  unfolding request_all count_new admit
  retain_artifacts config s descriptors artifacts = elim (request_all descriptors artifacts []) [
    | err e ↦ err e
    | ok requested ↦ elim (count_new s.artifacts requested 0 0) [
      | err e ↦ err e
      | ok counts ↦ admit config s requested counts
    ]
  ]

  unfoldable pub release_artifact : CoordinatorState Tx → ℕ → CoordinatorState Tx
  release_artifact s digest = elim (Assoc.lookup digest s.artifacts) [
    | none ↦ s
    | some stored ↦
        if ltb 1 stored.references
        then record s {
          artifacts =
              Assoc.insert digest (record stored { references = stored.references - 1 })
                s.artifacts;
        }
        else record s {
          artifacts = Assoc.remove digest s.artifacts;
          artifact_bytes = s.artifact_bytes - length stored.bytes;
        }
  ]
