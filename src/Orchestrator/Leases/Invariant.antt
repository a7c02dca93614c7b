-- ===== src/Orchestrator/Leases/Invariant.antt =====
-- The invariant of the registry in leases.rs, relative to the leases that are held, and that each
-- of its operations keeps it.
use graphzero.Base.{
  ℕ, suc, ◌+◌, ◌≡◌, refl, sym, ◌∙◌, ◌⊎◌, inl, inr, Bool, true, false, ◌||◌, Option, none, some,
  if◌then◌else◌, arith, Bool-cases,
}
use graphzero.Base.Result.{ok}
use graphzero.Orchestrator.Leases.{
  ModelGeneration, ModelLeaseState, ModelLeaseRegistry, same, contains, find_users, set_users,
  new_registry, queue_model_release,
}
use graphzero.Orchestrator.Leases.Laws.{
  same_refl, same_trans, same→eq, same-sym, find_users-set_users, IsDistinct, IsDistinct-set_users,
  find_users-same, contains-queue_model_release, queue_model_release_rest,
}

-- A generation that is not resident has no user.
abbrev pub count_of : Option ℕ → ℕ
count_of none = 0
count_of (some n) = n

-- One lease of `m`, as a count for `k`.
abbrev pub one_if_same : ModelGeneration → ModelGeneration → ℕ
one_if_same m k = if same m k then 1 else 0

-- `held k` is the number of leases of `k` that are alive.
pub record Consistent (s : ModelLeaseState) (held : ModelGeneration → ℕ) : Type 0 where
  pub distinct : IsDistinct s.generations
  pub current_resident : (n : ℕ) × (find_users s.current s.generations ≡ some n)
  pub counted : (k : ModelGeneration) → count_of (find_users k s.generations) ≡ held k
  pub queued_idle :
      (k : ModelGeneration)
      → contains k s.releasable ≡ true
      → (same s.current k ≡ false) × (find_users k s.generations ≡ some 0)
  pub idle_queued :
      (k : ModelGeneration)
      → find_users k s.generations ≡ some 0
      → (same s.current k ≡ true) ⊎ (contains k s.releasable ≡ true)

pub new_registry-Consistent :
    (m : ModelGeneration) (max : ℕ) {r : ModelLeaseRegistry}
    → new_registry m max ≡ ok r
    → Consistent r.state (λ _. 0)
unfolding new_registry find_users contains
new_registry-Consistent m max h = record {
  distinct = ground arith;
  current_resident = (0, ground (arith, same_refl m));
  counted = λ k. ground arith;
  queued_idle = λ k c. ground arith;
  idle_queued = λ k c. ground arith;
}

module _ {s : ModelLeaseState} {held : ModelGeneration → ℕ} (v : Consistent s held) where
  -- Counting one more lease of the current generation.
  pub acquire-Consistent :
      (n : ℕ) (held' : ModelGeneration → ℕ)
      → find_users s.current s.generations ≡ some n
      → ((k : ModelGeneration) → held' k ≡ held k + one_if_same s.current k)
      → Consistent (record s { generations = set_users s.current (suc n) s.generations }) held'
  acquire-Consistent n held' h e = record {
    distinct = IsDistinct-set_users s.current (suc n) s.generations v.distinct;
    current_resident = (
      suc n,
      ground (
        arith,
        find_users-set_users s.current s.current (suc n) s.generations,
        same_refl s.current,
      ),
    );
    counted = λ k. ground (
      arith,
      find_users-set_users k s.current (suc n) s.generations,
      v.counted k,
      e k,
      find_users-same s.current k s.generations,
    );
    queued_idle = λ k c.
        ground (arith, find_users-set_users k s.current (suc n) s.generations, v.queued_idle k c);
    idle_queued = λ k c.
        ground (arith, find_users-set_users k s.current (suc n) s.generations, v.idle_queued k);
  }

  -- Counting one lease less, where the generation stays in use or is current.
  pub drop-Consistent :
      (m : ModelGeneration) (n : ℕ) (held' : ModelGeneration → ℕ)
      → find_users m s.generations ≡ some (suc n)
      → ((n ≡ 0) → same s.current m ≡ true)
      → ((k : ModelGeneration) → held k ≡ held' k + one_if_same m k)
      → Consistent (record s { generations = set_users m n s.generations }) held'
  drop-Consistent m n held' h current e = record {
    distinct = IsDistinct-set_users m n s.generations v.distinct;
    current_resident = resident;
    counted = λ k. ground (
      arith,
      find_users-set_users k m n s.generations,
      v.counted k,
      e k,
      find_users-same m k s.generations,
    );
    queued_idle = λ k c. ground (
      arith,
      find_users-set_users k m n s.generations,
      v.queued_idle k c,
      find_users-same m k s.generations,
    );
    idle_queued = λ k c. ground (
      arith,
      find_users-set_users k m n s.generations,
      v.idle_queued k,
      find_users-same m k s.generations,
      current,
      same_trans s.current m k,
    );
  }
    where
      resident : (j : ℕ) × (find_users s.current (set_users m n s.generations) ≡ some j)
      resident = elim (Bool-cases (same m s.current)) [
        | inl q ↦ (
          n,
          ground (arith, find_users-set_users s.current m n s.generations, v.current_resident),
        )
        | inr q ↦ (
          v.current_resident.0,
          ground (arith, find_users-set_users s.current m n s.generations, v.current_resident),
        )
      ]

-- Queueing a generation that is idle and not current keeps the invariant, and repairs it where
-- that generation was the only idle one outside the queue.
pub queue-Consistent :
    (s : ModelLeaseState) (m : ModelGeneration) {held : ModelGeneration → ℕ}
    → IsDistinct s.generations
    → (n : ℕ) × (find_users s.current s.generations ≡ some n)
    → ((k : ModelGeneration) → count_of (find_users k s.generations) ≡ held k)
    → ((k : ModelGeneration)
        → (contains k s.releasable || same m k) ≡ true
        → (same s.current k ≡ false) × (find_users k s.generations ≡ some 0))
    → ((k : ModelGeneration)
        → find_users k s.generations ≡ some 0
        → (same s.current k ≡ true) ⊎ ((contains k s.releasable || same m k) ≡ true))
    → Consistent (queue_model_release s m) held
queue-Consistent s m d r c q i =
    let (gs, cur) = queue_model_release_rest m s in
    record {
      distinct = rw gs d;
      current_resident = rw (gs, cur) r;
      counted = λ k. rw gs (c k);
      queued_idle = λ k h. rw (gs, cur) (q k (sym (contains-queue_model_release k m s) ∙ h));
      idle_queued = λ k h. rw (cur, contains-queue_model_release k m s) (i k (rw gs at h));
    }

-- `queued_idle` and `idle_queued` of the queue with `m` added, from those of the queue without it.
queued_step :
    (current m k : ModelGeneration) (queued : Bool) {u : Option ℕ}
    → same current m ≡ false
    → (queued ≡ true → (same current k ≡ false) × (u ≡ some 0))
    → (same m k ≡ true → u ≡ some 0)
    → (queued || same m k) ≡ true
    → (same current k ≡ false) × (u ≡ some 0)
queued_step current m k true other q i h = q refl
queued_step current m k false other q i h = (rw (← same→eq m k h) other, i h)

-- The drop of the last lease of a generation that is not current queues it.
pub drop_last-Consistent :
    {s : ModelLeaseState} {held : ModelGeneration → ℕ} (v : Consistent s held) (m : ModelGeneration)
    (held' : ModelGeneration → ℕ)
    → find_users m s.generations ≡ some 1
    → same s.current m ≡ false
    → ((k : ModelGeneration) → held k ≡ held' k + one_if_same m k)
    → Consistent
        (queue_model_release (record s { generations = set_users m 0 s.generations }) m)
        held'
drop_last-Consistent {s} v m held' h other e =
    queue-Consistent (record s { generations = set_users m 0 s.generations }) m
      (IsDistinct-set_users m 0 s.generations v.distinct)
      (
        v.current_resident.0,
        ground (
          arith,
          find_users-set_users s.current m 0 s.generations,
          v.current_resident,
          same-sym s.current m,
        ),
      )
      (λ k. ground (
        arith,
        find_users-set_users k m 0 s.generations,
        v.counted k,
        e k,
        find_users-same m k s.generations,
      ))
      (λ k c.
        queued_step s.current m k (contains k s.releasable) other
          (λ p. ground (
            arith,
            find_users-set_users k m 0 s.generations,
            v.queued_idle k p,
            find_users-same m k s.generations,
          ))
          (λ p.
            ground
              (arith, find_users-set_users k m 0 s.generations, find_users-same m k s.generations))
          c)
      (λ k c. ground (
        arith,
        find_users-set_users k m 0 s.generations,
        v.idle_queued k,
        find_users-same m k s.generations,
      ))
