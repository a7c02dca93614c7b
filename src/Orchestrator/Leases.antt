-- ===== src/Orchestrator/Leases.antt =====
-- crates/gz-orchestrator/src/leases.rs: which model generations stay resident in the evaluator.
-- A `ModelVersion` (16 bytes) is the number that it spells; a lock is held for a whole operation,
-- so an operation is a function on the state; `none` is a panic of an `expect` or an `assert`.
pub mod Laws
pub mod Invariant
pub mod Operations
pub mod Publication
pub mod World
pub mod Preserve
pub mod Safety
pub mod Republish
use graphzero.Base.{
  ℕ, suc, ◌-◌, ◌+◌, Bool, true, false, not, ◌&&◌, ◌||◌, Option, none, some, List, [], ◌∷◌, ◌++◌,
  if◌then◌else◌, ◌==◌, ltb, leb, length, get_elem?, set, u64_mod,
}
use graphzero.Base.Assoc
use graphzero.Base.Result.{Result, ok, err}

pub record ModelGeneration : Type 0 where
  pub id : ℕ
  pub version : ℕ

-- The derived `PartialEq`.
abbrev pub same : ModelGeneration → ModelGeneration → Bool
same a b = a.id == b.id && a.version == b.version

pub record ModelGenerationState : Type 0 where
  pub model : ModelGeneration
  pub users : ℕ

pub record ModelLeaseState : Type 0 where
  pub current : ModelGeneration
  pub generations : List ModelGenerationState
  pub releasable : List ModelGeneration

pub record ModelLeaseRegistry : Type 0 where
  pub state : ModelLeaseState
  pub open state use *
  pub max_resident_generations : ℕ

pub data LeaseError : Type 0 where
  zero_model_generation capacity_below_two id_changed_version version_has_multiple_generations
        too_many_resident :
      LeaseError

unfoldable pub new_registry : ModelGeneration → ℕ → Result LeaseError ModelLeaseRegistry
new_registry current max_resident_generations =
    if current.id == 0
    then err zero_model_generation
    else (if ltb max_resident_generations 2
        then err capacity_below_two
        else ok (record {
          state = record {
            current = current;
            generations = record { model = current; users = 0 } ∷ [];
            releasable = [];
          };
          max_resident_generations = max_resident_generations;
        }))

-- `releasable.contains`, `models.contains`.
unfoldable pub contains : ModelGeneration → List ModelGeneration → Bool
contains m [] = false
contains m (x ∷ xs) = same x m || contains m xs

-- The user count of the first entry of a model: what `iter_mut().find` finds.
unfoldable pub find_users : ModelGeneration → List ModelGenerationState → Option ℕ
find_users m [] = none
find_users m (g ∷ gs) = if same g.model m then some g.users else find_users m gs

-- Writes the count of the entry that `iter_mut().find` finds.
unfoldable pub set_users :
    ModelGeneration → ℕ → List ModelGenerationState → List ModelGenerationState
set_users m n [] = []
set_users m n (g ∷ gs) =
    if same g.model m then record g { users = n } ∷ gs else g ∷ set_users m n gs

unfoldable pub queue_model_release : ModelLeaseState → ModelGeneration → ModelLeaseState
unfolding contains
queue_model_release s m =
    if contains m s.releasable then s else record s { releasable = s.releasable ++ (m ∷ []) }

-- The lease is the model that it names. A count beyond `usize` panics.
unfoldable pub acquire_current : ModelLeaseRegistry → Option (ModelGeneration × ModelLeaseRegistry)
unfolding find_users set_users
acquire_current r = elim (find_users r.current r.generations) [
  | none ↦ none
  | some users ↦
      if ltb (users + 1) u64_mod
      then some (
        r.current,
        record r {
          state = record (r.state) { generations = set_users r.current (users + 1) r.generations };
        },
      )
      else none
]

unfoldable pub id_clash : ModelGeneration → List ModelGenerationState → Bool
id_clash m [] = false
id_clash m (g ∷ gs) = (g.model.id == m.id && not (g.model.version == m.version)) || id_clash m gs

unfoldable pub version_clash : ModelGeneration → List ModelGenerationState → Bool
version_clash m [] = false
version_clash m (g ∷ gs) =
    (g.model.version == m.version && not (g.model.id == m.id)) || version_clash m gs

-- `iter().all(|generation| generation.model != model)`.
unfoldable pub all_differ : ModelGeneration → List ModelGenerationState → Bool
all_differ m [] = true
all_differ m (g ∷ gs) = not (same g.model m) && all_differ m gs

-- `iter().any(|generation| generation.model == previous && generation.users == 0)`.
unfoldable pub any_unused : ModelGeneration → List ModelGenerationState → Bool
any_unused m [] = false
any_unused m (g ∷ gs) = (same g.model m && g.users == 0) || any_unused m gs

-- The end of `publish`, once the generation is resident: switch, and queue the previous one.
unfoldable pub switch_current : ModelLeaseState → ModelGeneration → ModelLeaseState
unfolding queue_model_release any_unused
switch_current s m =
    if any_unused s.current s.generations
    then queue_model_release (record s { current = m }) s.current
    else record s { current = m }

unfoldable pub publish : ModelLeaseRegistry → ModelGeneration → Result LeaseError ModelLeaseRegistry
unfolding switch_current id_clash version_clash all_differ
publish r m =
    if m.id == 0
    then err zero_model_generation
    else if same r.current m
    then ok r
    else if id_clash m r.generations
    then err id_changed_version
    else if version_clash m r.generations
    then err version_has_multiple_generations
    else if all_differ m r.generations
    then (if leb r.max_resident_generations (length r.generations)
        then err too_many_resident
        else ok (record r {
          state =
              switch_current
                (record (r.state) {
                  generations = r.generations ++ (record { model = m; users = 0 } ∷ []);
                })
                m;
        }))
    else ok (record r { state = switch_current r.state m })

-- `generations.retain(|generation| !models.contains(&generation.model))`.
unfoldable pub retain_out :
    List ModelGeneration → List ModelGenerationState → List ModelGenerationState
unfolding contains
retain_out ms [] = []
retain_out ms (g ∷ gs) =
    let rest = retain_out ms gs in if contains g.model ms then rest else g ∷ rest

unfoldable pub take_releasable : ModelLeaseRegistry → List ModelGeneration × ModelLeaseRegistry
unfolding retain_out
take_releasable r = (
  r.releasable,
  record r {
    state = record (r.state) {
      releasable = [];
      generations = retain_out r.releasable r.generations;
    };
  },
)

-- `Drop for ModelLease`.
unfoldable pub drop_lease : ModelLeaseRegistry → ModelGeneration → Option ModelLeaseRegistry
unfolding find_users set_users queue_model_release
drop_lease r m = elim (find_users m r.generations) [
  | none ↦ some r
  | some users ↦
      if ltb 0 users
      then (let s : ModelLeaseState = record (r.state) {
        generations = set_users m (users - 1) r.generations;
      } in
          some (record r {
            state = if users - 1 == 0 && not (same r.current m) then queue_model_release s m else s;
          }))
      else none
]

-- The map of one lane, from episode ids to leases.
abbrev pub Episodes : Type 0
Episodes = List (ℕ × ModelGeneration)

-- `EpisodeModelLeases::ensure`, on the shared registry and the lane's map.
unfoldable pub ensure :
    ModelLeaseRegistry → Episodes → ℕ → Option (ModelGeneration × ModelLeaseRegistry × Episodes)
unfolding acquire_current
ensure r episodes episode_id = elim (Assoc.lookup episode_id episodes) [
  | some model ↦ some (model, r, episodes)
  | none ↦ elim (acquire_current r) [
    | none ↦ none
    | some (model, r') ↦ some (model, r', Assoc.insert episode_id model episodes)
  ]
]

-- `EpisodeModelLeases::release`: the removed lease is dropped.
unfoldable pub release : ModelLeaseRegistry → Episodes → ℕ → Option (ModelLeaseRegistry × Episodes)
unfolding drop_lease
release r episodes episode_id = elim (Assoc.lookup episode_id episodes) [
  | none ↦ some (r, episodes)
  | some model ↦ elim (drop_lease r model) [
    | none ↦ none
    | some r' ↦ some (r', Assoc.remove episode_id episodes)
  ]
]
