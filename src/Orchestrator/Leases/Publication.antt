-- ===== src/Orchestrator/Leases/Publication.antt =====
-- `publish` of leases.rs on a consistent registry: its three ways to succeed, and the switch to the
-- new current generation.
use graphzero.Base.{
  ℕ, ◌<◌, ◌≡◌, refl, ◌⊎◌, inl, inr, true, false, none, some, [], ◌∷◌, ◌++◌, arith, Bool-cases,
  Option-cases, length, length-append,
}
use graphzero.Base.Result.{ok}
use graphzero.Orchestrator.Leases.{
  ModelGeneration, ModelLeaseState, ModelLeaseRegistry, same, contains, find_users, all_differ,
  any_unused, switch_current, publish,
}
use graphzero.Orchestrator.Leases.Laws.{
  same_refl, same_trans, same→eq, same-sym, find_users-append, all_differ-find_users, IsDistinct,
  IsDistinct-append, any_unused-find_users, find_users-same, contains-same,
  queue_model_release_rest,
}
use graphzero.Orchestrator.Leases.Invariant.{Consistent, count_of, queue-Consistent}
use graphzero.Orchestrator.Leases.Operations.{Within}

-- What holds once a generation that `publish` brings in is resident, just before the switch to it.
record Arrived (s : ModelLeaseState) (m : ModelGeneration) (held : ModelGeneration → ℕ)
    : Type 0 where
  distinct : IsDistinct s.generations
  resident : (n : ℕ) × (find_users m s.generations ≡ some n)
  old_resident : (n : ℕ) × (find_users s.current s.generations ≡ some n)
  new : same s.current m ≡ false
  not_queued : contains m s.releasable ≡ false
  counted : (k : ModelGeneration) → count_of (find_users k s.generations) ≡ held k
  queued_idle :
      (k : ModelGeneration)
      → contains k s.releasable ≡ true
      → (same s.current k ≡ false) × (find_users k s.generations ≡ some 0)
  idle_known :
      (k : ModelGeneration)
      → find_users k s.generations ≡ some 0
      → (same m k ≡ true) ⊎ (same s.current k ≡ true) ⊎ (contains k s.releasable ≡ true)

switch_current-Consistent :
    (s : ModelLeaseState) (m : ModelGeneration) {held : ModelGeneration → ℕ}
    → Arrived s m held
    → Consistent (switch_current s m) held
unfolding switch_current
switch_current-Consistent s m a = elim (Bool-cases (any_unused s.current s.generations)) [
  | inl idle ↦ rw idle (
      queue-Consistent (record s { current = m }) s.current a.distinct a.resident a.counted
        (λ k h. ground (
          arith,
          a.queued_idle k,
          a.new,
          a.not_queued,
          contains-same m k s.releasable,
          same-sym m k,
          same_trans s.current k m,
          any_unused-find_users s.current s.generations a.distinct,
          idle,
          find_users-same s.current k s.generations,
        ))
        (λ k h. ground (arith, a.idle_known k)))
  | inr busy ↦ rw busy (record {
    distinct = a.distinct;
    current_resident = a.resident;
    counted = a.counted;
    queued_idle =
        λ k h. ground (arith, a.queued_idle k h, a.not_queued, contains-same m k s.releasable, h);
    idle_queued = λ k h. ground (
      arith,
      a.idle_known k h,
      any_unused-find_users s.current s.generations a.distinct,
      busy,
      find_users-same s.current k s.generations,
    );
  })
]

switch_current-length :
    (s : ModelLeaseState) (m : ModelGeneration)
    → length (switch_current s m).generations ≡ length s.generations
unfolding switch_current
switch_current-length s m =
    ground (arith, queue_model_release_rest s.current (record s { current = m }))

-- A generation that `publish` adds.
pushed-Arrived :
    (s : ModelLeaseState) (m : ModelGeneration) {held : ModelGeneration → ℕ}
    → Consistent s held
    → same s.current m ≡ false
    → contains m s.releasable ≡ false
    → find_users m s.generations ≡ none
    → Arrived
        (record s { generations = s.generations ++ (record { model = m; users = 0 } ∷ []) })
        m
        held
pushed-Arrived s m {held} v new c absent = record {
  distinct = IsDistinct-append m s.generations absent v.distinct;
  resident = (0, ground (arith, find_users-append m m s.generations, same_refl m));
  old_resident = (
    v.current_resident.0,
    ground (arith, find_users-append s.current m s.generations, v.current_resident),
  );
  new = new;
  not_queued = c;
  counted = λ k. ground (arith, find_users-append k m s.generations, v.counted k);
  queued_idle = λ k h. ground (arith, find_users-append k m s.generations, v.queued_idle k h);
  idle_known = λ k h. ground (arith, find_users-append k m s.generations, v.idle_queued k, h);
}

resident-Arrived :
    (s : ModelLeaseState) (m : ModelGeneration) {held : ModelGeneration → ℕ} (n : ℕ)
    → Consistent s held
    → same s.current m ≡ false
    → contains m s.releasable ≡ false
    → find_users m s.generations ≡ some n
    → Arrived s m held
resident-Arrived s m n v new c found = record {
  distinct = v.distinct;
  resident = (n, found);
  old_resident = v.current_resident;
  new = new;
  not_queued = c;
  counted = v.counted;
  queued_idle = v.queued_idle;
  idle_known = λ k h. ground (arith, v.idle_queued k h);
}

-- The three ways in which a publication succeeds.
abbrev pub pushed : ModelLeaseState → ModelGeneration → ModelLeaseState
pushed s m = record s { generations = s.generations ++ (record { model = m; users = 0 } ∷ []) }

pub publish_cases :
    (r r' : ModelLeaseRegistry) (m : ModelGeneration)
    → publish r m ≡ ok r'
    → ((same r.current m ≡ true) × (r' ≡ r))
      ⊎ ((same r.current m ≡ false)
          × (all_differ m r.generations ≡ true)
          × (length r.generations < r.max_resident_generations)
          × (r' ≡ record r { state = switch_current (pushed r.state m) m }))
      ⊎ ((same r.current m ≡ false)
          × (all_differ m r.generations ≡ false)
          × (r' ≡ record r { state = switch_current r.state m }))
unfolding publish
publish_cases r r' m h = ground arith

pub switch_current-current :
    (s : ModelLeaseState) (m : ModelGeneration) → (switch_current s m).current ≡ m
unfolding switch_current
switch_current-current s m =
    ground (arith, queue_model_release_rest s.current (record s { current = m }))

-- A successful publication of a generation that is not queued for release.
pub publish_lem :
    (r r' : ModelLeaseRegistry) (m : ModelGeneration) {held : ModelGeneration → ℕ}
    → Consistent r.state held
    → contains m r.releasable ≡ false
    → publish r m ≡ ok r'
    → Consistent r'.state held × (r'.current ≡ m) × Within r r'
publish_lem r r' m {held} v c h = elim (publish_cases r r' m h) [
  | inl (cur, e) ↦ rw e (v, same→eq r.current m cur, (refl, λ b. b))
  | inr (inl (cur, new, room, e)) ↦ rw e (
    switch_current-Consistent (pushed r.state m) m
        (pushed-Arrived r.state m v cur c (ground (arith, all_differ-find_users m r.generations))),
    switch_current-current (pushed r.state m) m,
    (
      refl,
      λ b.
          rw switch_current-length (
            omega
              (arith, room, length-append r.generations (record { model = m; users = 0 } ∷ []))),
    ),
  )
  | inr (inr (cur, old, e)) ↦ rw e (elim (Option-cases (find_users m r.generations)) [
    | inl q ↦ absurd (ground (arith, all_differ-find_users m r.generations))
    | inr (n, q) ↦ (
      switch_current-Consistent r.state m (resident-Arrived r.state m n v cur c q),
      switch_current-current r.state m,
      (refl, λ b. rw switch_current-length b),
    )
  ])
]
