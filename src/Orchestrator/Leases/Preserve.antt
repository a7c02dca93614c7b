-- ===== src/Orchestrator/Leases/Preserve.antt =====
-- Each step of the lanes and the batcher on the registry of leases.rs keeps the invariant.
use graphzero.Base.{
  ℕ, zero, suc, ◌+◌, ◌≤◌, ◌<◌, ◌≡◌, refl, ap, inl, inr, Option, none, some, List, [], ◌∷◌,
  if◌then◌else◌, arith, length, get_elem?, set, u64_mod, Option-cases,
}
use graphzero.Base.Assoc
use graphzero.Base.Sums.{IsMap, IsMap-insert, IsMap-remove, sum_by-insert_new, sum_by-remove}
use graphzero.Base.Result.{Result, ok, err}
use graphzero.Orchestrator.Leases.{
  ModelGeneration, ModelLeaseRegistry, LeaseError, Episodes, same, new_registry, publish,
  take_releasable, ensure, release, acquire_current, drop_lease,
}
use graphzero.Orchestrator.Leases.Invariant.{Consistent, one_if_same}
use graphzero.Orchestrator.Leases.Publication.{publish_lem}
use graphzero.Orchestrator.Leases.Operations.{
  acquire_current_lem, drop_lease_lem, take_releasable_lem,
}
use graphzero.Orchestrator.Leases.World.{
  World, held, total, Op, ensures, releases, publishes, takes, ensure_in, release_in, apply,
  Allowed,
}

abbrev pub AllMaps : List Episodes → Type 0
AllMaps [] = Unit {0}
AllMaps (es ∷ ls) = IsMap es × AllMaps ls

AllMaps-get :
    (ls : List Episodes) (i : ℕ) (es : Episodes) → AllMaps ls → get_elem? ls i ≡ some es → IsMap es
AllMaps-get [] i es a h = cc
AllMaps-get (x ∷ ls) zero es a h = ground arith
AllMaps-get (x ∷ ls) (suc i) es a h = AllMaps-get ls i es a.1 h

AllMaps-set :
    (ls : List Episodes) (i : ℕ) (es : Episodes) → AllMaps ls → IsMap es → AllMaps (set ls i es)
AllMaps-set [] i es a h = tt
AllMaps-set (x ∷ ls) zero es a h = (h, a.1)
AllMaps-set (x ∷ ls) (suc i) es a h = (a.0, AllMaps-set ls i es a.1 h)

total-set :
    (m : ModelGeneration) (ls : List Episodes) (i : ℕ) (es es' : Episodes)
    → get_elem? ls i ≡ some es
    → total m (set ls i es') + held m es ≡ total m ls + held m es'
unfolding total
total-set m [] i es es' h = cc
total-set m (x ∷ ls) zero es es' h = ground arith
total-set m (x ∷ ls) (suc i) es es' h = ground (arith, total-set m ls i es es' h)

pub new_registry-within :
    (current : ModelGeneration) (max : ℕ) {r : ModelLeaseRegistry}
    → new_registry current max ≡ ok r
    → length r.generations ≤ r.max_resident_generations
unfolding new_registry
new_registry-within current max h = ground arith

-- Between two operations.
pub record Inv (w : World) : Type 0 where
  pub consistent : Consistent w.registry.state (λ k. total k w.lanes)
  pub within : length w.registry.generations ≤ w.registry.max_resident_generations
  pub maps : AllMaps w.lanes

abbrev pub Succeeds : World → Option World → Type 0
Succeeds w o = (w' : World) × (o ≡ some w') × Inv w'

-- One more lease in the lane, or one less.
held-insert :
    (k m : ModelGeneration) (e : ℕ) (es : Episodes)
    → Assoc.lookup e es ≡ none
    → held k (Assoc.insert e m es) ≡ held k es + one_if_same m k
held-insert k m e es h = sum_by-insert_new (λ v. if same v k then 1 else 0) e m es h

held-remove :
    (k m : ModelGeneration) (e : ℕ) (es : Episodes)
    → IsMap es
    → Assoc.lookup e es ≡ some m
    → held k (Assoc.remove e es) + one_if_same m k ≡ held k es
held-remove k m e es i h = sum_by-remove (λ v. if same v k then 1 else 0) e m es i h

set-get {ℓ} : {A : Type ℓ} (xs : List A) (i : ℕ) (x : A) → get_elem? xs i ≡ some x → set xs i x ≡ xs
set-get [] i x h = refl
set-get (y ∷ xs) zero x h = ground arith
set-get (y ∷ xs) (suc i) x h = ap (◌∷◌ y) (set-get xs i x h)

-- `ensure_in` and `release_in` on each branch.
ensure_in-held :
    (w : World) (lane e : ℕ) (es : Episodes) (m : ModelGeneration)
    → Assoc.lookup e es ≡ some m
    → ensure_in w lane e (some es)
      ≡ some (record { registry = w.registry; lanes = set w.lanes lane es })
unfolding ensure_in ensure
ensure_in-held w lane e es m q = ground arith

ensure_in-new :
    (w : World) (lane e : ℕ) (es : Episodes) (m : ModelGeneration) (r : ModelLeaseRegistry)
    → Assoc.lookup e es ≡ none
    → acquire_current w.registry ≡ some (m, r)
    → ensure_in w lane e (some es)
      ≡ some (record { registry = r; lanes = set w.lanes lane (Assoc.insert e m es) })
unfolding ensure_in ensure
ensure_in-new w lane e es m r q d = ground arith

release_in-held :
    (w : World) (lane e : ℕ) (es : Episodes) (m : ModelGeneration) (r : ModelLeaseRegistry)
    → Assoc.lookup e es ≡ some m
    → drop_lease w.registry m ≡ some r
    → release_in w lane e (some es)
      ≡ some (record { registry = r; lanes = set w.lanes lane (Assoc.remove e es) })
unfolding release_in release
release_in-held w lane e es m r q d = ground arith

release_in-absent :
    (w : World) (lane e : ℕ) (es : Episodes)
    → Assoc.lookup e es ≡ none
    → release_in w lane e (some es)
      ≡ some (record { registry = w.registry; lanes = set w.lanes lane es })
unfolding release_in release
release_in-absent w lane e es q = ground arith

module _ (w : World) (v : Inv w) (lane e : ℕ) (es : Episodes)
    (g : get_elem? w.lanes lane ≡ some es) where
  ensure_held :
      (m : ModelGeneration) → Assoc.lookup e es ≡ some m → Succeeds w (ensure_in w lane e (some es))
  ensure_held m q = (
    record { registry = w.registry; lanes = set w.lanes lane es },
    ensure_in-held w lane e es m q,
    rw (set-get w.lanes lane es g) v,
  )

  ensure_new :
      Assoc.lookup e es ≡ none
      → total w.registry.current w.lanes + 1 < u64_mod
      → Succeeds w (ensure_in w lane e (some es))
  ensure_new q room =
      let es' = Assoc.insert e w.registry.current es in
      let (r', done, c, b) =
        acquire_current_lem w.registry (λ k. total k (set w.lanes lane es')) v.consistent room
          (λ k.
            omega (
              arith,
              total-set k w.lanes lane es es' g,
              held-insert k w.registry.current e es q,
            )) in
      (
        record { registry = r'; lanes = set w.lanes lane es' },
        ensure_in-new w lane e es w.registry.current r' q done,
        record {
          consistent = c;
          within = omega (arith, b, v.within);
          maps =
              AllMaps-set w.lanes lane es' v.maps
                (IsMap-insert e w.registry.current es (AllMaps-get w.lanes lane es v.maps g));
        },
      )

  release_held :
      (m : ModelGeneration)
      → Assoc.lookup e es ≡ some m
      → Succeeds w (release_in w lane e (some es))
  release_held m q =
      let es' = Assoc.remove e es in
      let i = AllMaps-get w.lanes lane es v.maps g in
      let (r', done, c, b) =
        drop_lease_lem w.registry m (λ k. total k (set w.lanes lane es')) v.consistent
          (λ k. omega (arith, total-set k w.lanes lane es es' g, held-remove k m e es i q)) in
      (
        record { registry = r'; lanes = set w.lanes lane es' },
        release_in-held w lane e es m r' q done,
        record {
          consistent = c;
          within = omega (arith, b, v.within);
          maps = AllMaps-set w.lanes lane es' v.maps (IsMap-remove e es i);
        },
      )

  release_absent : Assoc.lookup e es ≡ none → Succeeds w (release_in w lane e (some es))
  release_absent q = (
    record { registry = w.registry; lanes = set w.lanes lane es },
    release_in-absent w lane e es q,
    rw (set-get w.lanes lane es g) v,
  )

pub apply_lem : (w : World) (op : Op) → Inv w → Allowed w op → Succeeds w (apply w op)
unfolding apply
apply_lem w (ensures lane e) v room = elim (Option-cases (get_elem? w.lanes lane)) [
  | inl g ↦ rw g (w, unfold ensure_in in refl, v)
  | inr (es, g) ↦ rw g (elim (Option-cases (Assoc.lookup e es)) [
    | inl q ↦ ensure_new w v lane e es g q room
    | inr (m, q) ↦ ensure_held w v lane e es g m q
  ])
]
apply_lem w (releases lane e) v _ = elim (Option-cases (get_elem? w.lanes lane)) [
  | inl g ↦ rw g (w, unfold release_in in refl, v)
  | inr (es, g) ↦ rw g (elim (Option-cases (Assoc.lookup e es)) [
    | inl q ↦ release_absent w v lane e es g q
    | inr (m, q) ↦ release_held w v lane e es g m q
  ])
]
apply_lem w (publishes m) v fresh = by_result (publish w.registry m) refl
  where
    by_result :
        (p : Result LeaseError ModelLeaseRegistry)
        → publish w.registry m ≡ p
        → Succeeds w (elim p [ ok r ↦ some (record w { registry = r }) | err e ↦ some w ])
    by_result (err e) q = (w, refl, v)
    by_result (ok r) q =
        let (c, cur, b) = publish_lem w.registry r m v.consistent fresh q in
        (
          record w { registry = r },
          refl,
          record { consistent = c; within = omega (arith, b, v.within); maps = v.maps },
        )
apply_lem w takes v _ =
    let (c, b) = take_releasable_lem w.registry v.consistent in
    (
      record w { registry = (take_releasable w.registry).1 },
      refl,
      record { consistent = c; within = omega (arith, b, v.within); maps = v.maps },
    )
