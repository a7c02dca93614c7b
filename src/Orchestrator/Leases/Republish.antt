-- ===== src/Orchestrator/Leases/Republish.antt =====
-- crates/gz-orchestrator/src/leases.rs: a generation that becomes current again while it waits for
-- its release.
use graphzero.Base.{◌≡◌, inl, inr, true, none, arith}
use graphzero.Base.Result.{ok}
use graphzero.Orchestrator.Leases.{
  ModelGeneration, ModelLeaseState, ModelLeaseRegistry, switch_current, same, contains, publish,
  take_releasable, acquire_current,
}
use graphzero.Orchestrator.Leases.Laws.{
  same_refl, find_users-retain_out, contains-same, contains-queue_model_release,
}
use graphzero.Orchestrator.Leases.Publication.{publish_cases, pushed, switch_current-current}

switch_current-contains :
    (s : ModelLeaseState) (m k : ModelGeneration)
    → contains k s.releasable ≡ true
    → contains k (switch_current s m).releasable ≡ true
unfolding switch_current
switch_current-contains s m k c =
    ground (arith, contains-queue_model_release k s.current (record s { current = m }))

-- A successful publication makes the generation current, and does not take it off the queue.
publish_keeps_queued :
    (r r' : ModelLeaseRegistry) (m k : ModelGeneration)
    → publish r m ≡ ok r'
    → contains k r.releasable ≡ true
    → (same r'.current m ≡ true) × (contains k r'.releasable ≡ true)
publish_keeps_queued r r' m k h c = elim (publish_cases r r' m h) [
  | inl (cur, e) ↦ rw e (cur, c)
  | inr (inl (cur, new, room, e)) ↦
      rw (e, switch_current-current) (same_refl m, switch_current-contains (pushed r.state m) m k c)
  | inr (inr (cur, old, e)) ↦
      rw (e, switch_current-current) (same_refl m, switch_current-contains r.state m k c)
]

-- A generation that waits for its release and is then published successfully is current, is handed
-- out for release all the same, and the next episode that asks for a lease panics.
pub republish_panics :
    (r r' : ModelLeaseRegistry) (m : ModelGeneration)
    → contains m r.releasable ≡ true
    → publish r m ≡ ok r'
    → (same r'.current m ≡ true)
      × (contains m (take_releasable r').0 ≡ true)
      × (acquire_current (take_releasable r').1 ≡ none)
unfolding take_releasable acquire_current
republish_panics r r' m c h =
    let (cur, kept) = publish_keeps_queued r r' m m h c in
    (
      cur,
      kept,
      ground (
        arith,
        find_users-retain_out r'.current r'.releasable r'.generations,
        contains-same r'.current m r'.releasable,
      ),
    )
