-- ===== src/Orchestrator/Leases/Operations.antt =====
-- What acquire_current, drop_lease and take_releasable of leases.rs do to a consistent registry: none
-- panics, each keeps the invariant, and none lets the number of resident generations exceed its
-- limit.
use graphzero.Base.{
  ℕ, zero, suc, ◌+◌, ◌≤◌, ◌<◌, ◌≡◌, refl, inl, inr, false, not, ◌&&◌, Option, none, some,
  if◌then◌else◌, ◌==◌, arith, Bool-cases, length, u64_mod,
}
use graphzero.Orchestrator.Leases.{
  ModelGeneration, ModelLeaseState, ModelLeaseRegistry, same, contains, find_users, set_users,
  queue_model_release, acquire_current, take_releasable, drop_lease,
}
use graphzero.Orchestrator.Leases.Laws.{
  same_refl, find_users-retain_out, length-set_users, length-retain_out, IsDistinct-retain_out,
  queue_model_release_rest,
}
use graphzero.Orchestrator.Leases.Invariant.{
  Consistent, one_if_same, acquire-Consistent, drop-Consistent, drop_last-Consistent,
}

-- The limit on resident generations, and the fields that no operation writes.
abbrev pub Within : ModelLeaseRegistry → ModelLeaseRegistry → Type 0
Within r r' =
    (r'.max_resident_generations ≡ r.max_resident_generations)
    × (length r.generations ≤ r.max_resident_generations
        → length r'.generations ≤ r.max_resident_generations)

pub acquire_current_lem :
    (r : ModelLeaseRegistry) {held : ModelGeneration → ℕ} (held' : ModelGeneration → ℕ)
    → Consistent r.state held
    → held r.current + 1 < u64_mod
    → ((k : ModelGeneration) → held' k ≡ held k + one_if_same r.current k)
    → (r' : ModelLeaseRegistry) × (acquire_current r ≡ some (r.current, r'))
      × Consistent r'.state held'
      × Within r r'
unfolding acquire_current
acquire_current_lem r held' v room e =
    let (n, found) = v.current_resident in
    (
      record r {
        state = record (r.state) { generations = set_users r.current (suc n) r.generations };
      },
      ground (arith, v.counted r.current, v.current_resident),
      acquire-Consistent v n held' found e,
      (refl, λ h. rw length-set_users h),
    )

-- The state after a drop that leaves `n` users.
after_drop : ModelLeaseState → ModelGeneration → ℕ → ModelLeaseState
after_drop s m n =
    if n == 0 && not (same s.current m)
    then queue_model_release (record s { generations = set_users m n s.generations }) m
    else record s { generations = set_users m n s.generations }

drop_lease-after_drop :
    (r : ModelLeaseRegistry) (m : ModelGeneration) (n : ℕ)
    → find_users m r.generations ≡ some (suc n)
    → drop_lease r m ≡ some (record r { state = after_drop r.state m n })
unfolding drop_lease after_drop
drop_lease-after_drop r m n h = ground arith

after_drop-length :
    (s : ModelLeaseState) (m : ModelGeneration) (n : ℕ)
    → length (after_drop s m n).generations ≡ length s.generations
unfolding after_drop
after_drop-length s m n = ground (
  arith,
  length-set_users m n s.generations,
  queue_model_release_rest m (record s { generations = set_users m n s.generations }),
)

suc-==-zero : (n : ℕ) → (suc n == 0) ≡ false
suc-==-zero n = ground arith

after_drop-Consistent :
    (s : ModelLeaseState) (m : ModelGeneration) (n : ℕ) {held : ModelGeneration → ℕ}
    (held' : ModelGeneration → ℕ)
    → Consistent s held
    → find_users m s.generations ≡ some (suc n)
    → ((k : ModelGeneration) → held k ≡ held' k + one_if_same m k)
    → Consistent (after_drop s m n) held'
unfolding after_drop
after_drop-Consistent s m (suc n) held' v q e =
    rw (suc-==-zero n) (drop-Consistent v m (suc n) held' q (λ z. ground arith) e)
after_drop-Consistent s m zero held' v q e = elim (Bool-cases (same s.current m)) [
  | inl c ↦ rw c (drop-Consistent v m 0 held' q (λ _. c) e)
  | inr c ↦ rw c (drop_last-Consistent v m held' q c e)
]

-- Dropping a lease that is held never panics.
pub drop_lease_lem :
    (r : ModelLeaseRegistry) (m : ModelGeneration) {held : ModelGeneration → ℕ}
    (held' : ModelGeneration → ℕ)
    → Consistent r.state held
    → ((k : ModelGeneration) → held k ≡ held' k + one_if_same m k)
    → (r' : ModelLeaseRegistry) × (drop_lease r m ≡ some r')
      × Consistent r'.state held'
      × Within r r'
drop_lease_lem r m {held} held' v e = by_count (find_users m r.generations) refl
  where
    by_count :
        (o : Option ℕ)
        → find_users m r.generations ≡ o
        → (r' : ModelLeaseRegistry) × (drop_lease r m ≡ some r')
          × Consistent r'.state held'
          × Within r r'
    by_count none q = absurd (ground (arith, v.counted m, e m, same_refl m))
    by_count (some zero) q = absurd (ground (arith, v.counted m, e m, same_refl m))
    by_count (some (suc n)) q = (
      record r { state = after_drop r.state m n },
      drop_lease-after_drop r m n q,
      after_drop-Consistent r.state m n held' v q e,
      (refl, λ h. rw after_drop-length h),
    )

-- The released generations are idle, so the rest stays consistent.
pub take_releasable_lem :
    (r : ModelLeaseRegistry) {held : ModelGeneration → ℕ}
    → Consistent r.state held
    → Consistent (take_releasable r).1.state held × Within r (take_releasable r).1
unfolding take_releasable contains
take_releasable_lem r v = (
  record {
    distinct = IsDistinct-retain_out r.releasable r.generations v.distinct;
    current_resident = (
      v.current_resident.0,
      ground (
        arith,
        find_users-retain_out r.current r.releasable r.generations,
        v.current_resident,
        v.queued_idle r.current,
        same_refl r.current,
      ),
    );
    counted = λ k.
        ground
          (arith, find_users-retain_out k r.releasable r.generations, v.counted k, v.queued_idle k);
    queued_idle = λ k h. cc;
    idle_queued = λ k h.
        ground (arith, find_users-retain_out k r.releasable r.generations, v.idle_queued k, h);
  },
  (refl, λ h. omega (arith, h, length-retain_out r.releasable r.generations)),
)
