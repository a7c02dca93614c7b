-- ===== src/Orchestrator/Leases/Safety.antt =====
-- Any interleaving of the lanes and the batcher on the registry of leases.rs in which no generation is
-- published while it waits for its release: no panic, a bounded number of resident generations, and no
-- release of a generation that is in use. Republish.antt is about the publications left out here.
use graphzero.Base.{
  ℕ, zero, suc, ◌≤◌, ◌<◌, ◌≡◌, refl, sym, ◌⊎◌, true, false, some, [], arith, length, replicate,
}
use mathlib.Core.Path.{subst, fun_ext}
use graphzero.Base.Sums.{sum_by}
use graphzero.Base.Result.{ok}
use graphzero.Orchestrator.Leases.{
  ModelGeneration, ModelLeaseRegistry, same, contains, find_users, new_registry, take_releasable,
}
use graphzero.Orchestrator.Leases.Laws.{find_users-retain_out}
use graphzero.Orchestrator.Leases.Invariant.{Consistent, new_registry-Consistent}
use graphzero.Orchestrator.Leases.World.{World, total, Op, apply, Allowed, AllowedReach, here, next}
use graphzero.Orchestrator.Leases.Preserve.{AllMaps, Inv, apply_lem, new_registry-within}

-- The registry as the orchestrator makes it, and no lease held.
unfoldable pub start : ModelLeaseRegistry → ℕ → World
start r lanes = record { registry = r; lanes = replicate lanes [] }

AllMaps-replicate : (n : ℕ) → AllMaps (replicate n [])
AllMaps-replicate zero = tt
AllMaps-replicate (suc n) = (tt, AllMaps-replicate n)

total-replicate : (m : ModelGeneration) (n : ℕ) → total m (replicate n []) ≡ 0
unfolding total sum_by
total-replicate m zero = refl
total-replicate m (suc n) = omega (arith, total-replicate m n)

start-Inv :
    (current : ModelGeneration) (max lanes : ℕ) {r : ModelLeaseRegistry}
    → new_registry current max ≡ ok r
    → Inv (start r lanes)
unfolding start
start-Inv current max lanes {r} h = record {
  consistent =
      subst (Consistent r.state) (fun_ext (λ k. sym (total-replicate k lanes)))
        (new_registry-Consistent current max h);
  within = new_registry-within current max h;
  maps = AllMaps-replicate lanes;
}

AllowedReach-Inv : {s w : World} → Inv s → AllowedReach s w → Inv w
AllowedReach-Inv i here = i
AllowedReach-Inv i (next {w} {w'} op r a e) =
    let (u, q, v) = apply_lem w op (AllowedReach-Inv i r) a in
    let same_world : u ≡ w' = cc in subst Inv same_world v

module _ (current : ModelGeneration) (max lanes : ℕ) {r : ModelLeaseRegistry}
    (made : new_registry current max ≡ ok r) {w : World}
    (reached : AllowedReach (start r lanes) w) where
  reached-Inv : Inv w
  reached-Inv = AllowedReach-Inv (start-Inv current max lanes made) reached

  -- Allowed is every operation but the publication of a generation that waits for its release, and one
  -- more lease of a generation that 2^64 - 1 leases are held of. From any state that is reached by
  -- allowed operations of the lanes and the batcher, in any order, an allowed operation does not panic
  -- (the current generation is registered, no user count underflows or overflows), and after it the
  -- number of resident generations is still within the registry's limit.
  pub apply_never_panics :
      (op : Op)
      → Allowed w op
      → (w' : World) × (apply w op ≡ some w')
        × (length w'.registry.generations ≤ w'.registry.max_resident_generations)
  apply_never_panics op a = let (w', e, v) = apply_lem w op reached-Inv a in (w', e, v.within)

  -- In every state that is reached by operations among which no generation is published while it waits
  -- for its release (nor leased beyond 2^64 - 1 leases), each generation that `take_releasable` hands to
  -- the evaluator for release is not the current one and is leased by no episode of any lane.
  pub take_releasable_safe :
      (m : ModelGeneration)
      → contains m (take_releasable w.registry).0 ≡ true
      → (same w.registry.current m ≡ false) × (total m w.lanes ≡ 0)
  unfolding take_releasable
  take_releasable_safe m h =
      ground (arith, reached-Inv.consistent.queued_idle m h, reached-Inv.consistent.counted m)

  -- In every state that is reached by operations among which no generation is published while it waits
  -- for its release (nor leased beyond 2^64 - 1 leases), once `take_releasable` has run, every generation
  -- that is still resident is the current one or is leased by some episode: none is kept for nothing.
  pub take_releasable_complete :
      (m : ModelGeneration) (n : ℕ)
      → find_users m (take_releasable w.registry).1.generations ≡ some n
      → (same w.registry.current m ≡ true) ⊎ (0 < total m w.lanes)
  unfolding take_releasable
  take_releasable_complete m n h = ground (
    arith,
    find_users-retain_out m w.registry.releasable w.registry.generations,
    reached-Inv.consistent.idle_queued m,
    reached-Inv.consistent.counted m,
    h,
  )
