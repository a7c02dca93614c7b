-- ===== src/Orchestrator/Leases/World.antt =====
-- crates/gz-orchestrator/src/leases.rs in use: one registry that the batcher publishes to and takes
-- from (lanes/batcher.rs), and the lease map of each lane (lanes/lane.rs), in any interleaving.
use graphzero.Base.{
  ℕ, ◌+◌, ◌<◌, ◌≡◌, false, Option, none, some, List, [], ◌∷◌, if◌then◌else◌, get_elem?, set,
  u64_mod,
}
use graphzero.Base.Result.{ok, err}
use graphzero.Base.Sums.{sum_by}
use graphzero.Orchestrator.Leases.{
  ModelGeneration, ModelLeaseRegistry, Episodes, same, contains, publish, take_releasable, ensure,
  release,
}

pub record World : Type 0 where
  pub registry : ModelLeaseRegistry
  pub lanes : List Episodes

-- The leases of `m` that a lane holds, and that all lanes hold.
abbrev pub held : ModelGeneration → Episodes → ℕ
held m = sum_by (λ v. if same v m then 1 else 0)

unfoldable pub total : ModelGeneration → List Episodes → ℕ
total m [] = 0
total m (es ∷ ls) = held m es + total m ls

pub data Op : Type 0 where
  ensures : ℕ → ℕ → Op
  releases : ℕ → ℕ → Op
  publishes : ModelGeneration → Op
  takes : Op

unfoldable pub ensure_in : World → ℕ → ℕ → Option Episodes → Option World
unfolding ensure
ensure_in w lane episode_id none = some w
ensure_in w lane episode_id (some es) = elim (ensure w.registry es episode_id) [
  | none ↦ none
  | some (m, r, es') ↦ some (record { registry = r; lanes = set w.lanes lane es' })
]

unfoldable pub release_in : World → ℕ → ℕ → Option Episodes → Option World
unfolding release
release_in w lane episode_id none = some w
release_in w lane episode_id (some es) = elim (release w.registry es episode_id) [
  | none ↦ none
  | some (r, es') ↦ some (record { registry = r; lanes = set w.lanes lane es' })
]

-- A refused publication leaves the registry as it was. `none` is a panic.
unfoldable pub apply : World → Op → Option World
unfolding ensure_in release_in publish take_releasable
apply w (ensures lane episode_id) = ensure_in w lane episode_id (get_elem? w.lanes lane)
apply w (releases lane episode_id) = release_in w lane episode_id (get_elem? w.lanes lane)
apply w (publishes m) = elim (publish w.registry m) [
  | ok r ↦ some (record w { registry = r })
  | err e ↦ some w
]
apply w takes = some (record w { registry = (take_releasable w.registry).1 })

-- What an operation relies on: a count that fits `usize`, and a published generation that is not
-- waiting for its release.
abbrev pub Allowed : World → Op → Type 0
Allowed w (ensures lane episode_id) = total w.registry.current w.lanes + 1 < u64_mod
Allowed w (releases lane episode_id) = Unit {0}
Allowed w (publishes m) = contains m w.registry.releasable ≡ false
Allowed w takes = Unit {0}

-- The states that are reached by operations each of which is allowed where it happens. The code itself
-- refuses none of the operations that are not allowed.
pub data AllowedReach (start : World) : World → Type 0 where
  here : AllowedReach start start
  next :
      {w w' : World} (op : Op)
      → AllowedReach start w
      → Allowed w op
      → apply w op ≡ some w'
      → AllowedReach start w'
