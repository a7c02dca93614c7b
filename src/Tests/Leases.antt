-- ===== src/Tests/Leases.antt =====
-- crates/gz-orchestrator/src/leases.rs at concrete inputs.
use graphzero.Base.{◌<◌, ◌≤◌, ◌≡◌, refl, ◌⊎◌, true, false, none, some, [], ◌∷◌, arith, length}
use graphzero.Base.Result.{ok}
use graphzero.Orchestrator.Leases.{
  ModelGeneration, ModelLeaseRegistry, same, contains, find_users, new_registry, publish,
  take_releasable, acquire_current, ensure, release, set_users, switch_current, any_unused,
  id_clash, version_clash, all_differ, drop_lease, queue_model_release, retain_out,
}
use graphzero.Base.Assoc.{lookup, insert, remove}
use graphzero.Base.Sums.{sum_by}
use graphzero.Orchestrator.Leases.World.{
  World, ensures, releases, publishes, takes, apply, ensure_in, release_in, total, AllowedReach,
  here, next,
}
use graphzero.Orchestrator.Leases.Safety.{
  start, apply_never_panics, take_releasable_safe, take_releasable_complete,
}
use graphzero.Orchestrator.Leases.Republish.{republish_panics}

abbrev first : ModelGeneration
first = record { id = 1; version = 10 }

abbrev second : ModelGeneration
second = record { id = 2; version = 20 }

abbrev registry : ModelLeaseRegistry
registry = record {
  state = record {
    current = first;
    generations = record { model = first; users = 0 } ∷ [];
    releasable = [];
  };
  max_resident_generations = 2;
}

registry_made : new_registry first 2 ≡ ok registry
unfolding new_registry
registry_made = refl

-- Episode 7 of lane 0 takes a lease, the evaluator moves on, the episode ends.
abbrev leased : World
leased = record {
  registry = record {
    state = record {
      current = first;
      generations = record { model = first; users = 1 } ∷ [];
      releasable = [];
    };
    max_resident_generations = 2;
  };
  lanes = ((7, first) ∷ []) ∷ [];
}

abbrev moved_on : World
moved_on = record {
  registry = record {
    state = record {
      current = second;
      generations = record { model = first; users = 1 } ∷ record { model = second; users = 0 } ∷ [];
      releasable = [];
    };
    max_resident_generations = 2;
  };
  lanes = ((7, first) ∷ []) ∷ [];
}

abbrev ended : World
ended = record {
  registry = record {
    state = record {
      current = second;
      generations = record { model = first; users = 0 } ∷ record { model = second; users = 0 } ∷ [];
      releasable = first ∷ [];
    };
    max_resident_generations = 2;
  };
  lanes = [] ∷ [];
}

leased_reached : AllowedReach (start registry 1) leased
unfolding start apply ensure_in ensure acquire_current find_users set_users total sum_by lookup
    insert
leased_reached = next (ensures 0 7) here (omega arith) refl

moved_on_reached : AllowedReach (start registry 1) moved_on
unfolding apply publish contains find_users switch_current any_unused id_clash version_clash
    all_differ
moved_on_reached = next (publishes second) leased_reached refl refl

ended_reached : AllowedReach (start registry 1) ended
unfolding apply release_in release drop_lease queue_model_release contains find_users set_users
    lookup remove
ended_reached = next (releases 0 7) moved_on_reached tt refl

apply_never_panics_example :
    (w' : World) × (apply ended takes ≡ some w')
    × (length w'.registry.generations ≤ w'.registry.max_resident_generations)
apply_never_panics_example = apply_never_panics first 2 1 registry_made ended_reached takes tt

take_releasable_safe_example : (same second first ≡ false) × (total first ended.lanes ≡ 0)
unfolding take_releasable contains
take_releasable_safe_example = take_releasable_safe first 2 1 registry_made ended_reached first refl

take_releasable_complete_example : (same second second ≡ true) ⊎ (0 < total second ended.lanes)
unfolding take_releasable contains find_users retain_out
take_releasable_complete_example =
    take_releasable_complete first 2 1 registry_made ended_reached second 0 refl

-- The first generation comes back before the batcher takes the queue.
abbrev returned : ModelLeaseRegistry
returned = record {
  state = record {
    current = first;
    generations = record { model = first; users = 0 } ∷ record { model = second; users = 0 } ∷ [];
    releasable = first ∷ second ∷ [];
  };
  max_resident_generations = 2;
}

republish_panics_example :
    (same first first ≡ true)
    × (contains first (take_releasable returned).0 ≡ true)
    × (acquire_current (take_releasable returned).1 ≡ none)
unfolding publish contains find_users queue_model_release switch_current any_unused id_clash
    version_clash all_differ
republish_panics_example = republish_panics ended.registry returned first refl refl
