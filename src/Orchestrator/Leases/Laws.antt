-- ===== src/Orchestrator/Leases/Laws.antt =====
-- Laws of the lists in leases.rs: user counts by model, the release queue, retention.
use graphzero.Base.{
  ℕ, ◌≡◌, refl, ap, inl, inr, true, false, ◌||◌, none, some, List, [], ◌∷◌, ◌++◌, if◌then◌else◌,
  ◌==◌, arith, Bool-cases, length, ◌≤◌,
}
use graphzero.Orchestrator.Leases.{
  ModelGeneration, ModelGenerationState, same, contains, find_users, set_users, all_differ,
  any_unused, retain_out, ModelLeaseState, queue_model_release,
}

pub same_refl : (m : ModelGeneration) → same m m ≡ true
same_refl m = ground arith

pub same→eq : (a b : ModelGeneration) → same a b ≡ true → a ≡ b
same→eq a b h = ground arith

pub same-sym : (a b : ModelGeneration) → same a b ≡ same b a
same-sym a b = ground arith

pub same_trans : (a b c : ModelGeneration) → same a b ≡ true → same b c ≡ true → same a c ≡ true
same_trans a b c h k = ground arith

pub contains-append :
    (m n : ModelGeneration) (ms : List ModelGeneration)
    → contains m (ms ++ (n ∷ [])) ≡ (contains m ms || same n m)
unfolding contains
contains-append m n [] = ground arith
contains-append m n (x ∷ ms) = ground (arith, contains-append m n ms)

pub find_users-set_users :
    (m k : ModelGeneration) (n : ℕ) (gs : List ModelGenerationState)
    → find_users m (set_users k n gs) ≡ (
        if same k m
        then elim (find_users m gs) [ none ↦ none | some _ ↦ some n ]
        else find_users m gs)
unfolding find_users set_users
find_users-set_users m k n [] = ground arith
find_users-set_users m k n (g ∷ gs) = ground (arith, find_users-set_users m k n gs)

pub find_users-append :
    (m k : ModelGeneration) (gs : List ModelGenerationState)
    → find_users m (gs ++ (record { model = k; users = 0 } ∷ []))
      ≡ elim (find_users m gs) [ some n ↦ some n | none ↦ if same k m then some 0 else none ]
unfolding find_users
find_users-append m k [] = ground arith
find_users-append m k (g ∷ gs) = ground (arith, find_users-append m k gs)

pub find_users-retain_out :
    (m : ModelGeneration) (ms : List ModelGeneration) (gs : List ModelGenerationState)
    → find_users m (retain_out ms gs) ≡ (if contains m ms then none else find_users m gs)
unfolding find_users retain_out
find_users-retain_out m ms [] = ground arith
find_users-retain_out m ms (g ∷ gs) = elim (Bool-cases (same g.model m)) [
  | inl e ↦ rw (same→eq g.model m e) (ground (arith, find_users-retain_out m ms gs, same_refl m))
  | inr e ↦ ground (arith, find_users-retain_out m ms gs)
]

pub all_differ-find_users :
    (m : ModelGeneration) (gs : List ModelGenerationState)
    → all_differ m gs ≡ elim (find_users m gs) [ none ↦ true | some _ ↦ false ]
unfolding all_differ find_users
all_differ-find_users m [] = refl
all_differ-find_users m (g ∷ gs) = ground (arith, all_differ-find_users m gs)

pub length-set_users :
    (m : ModelGeneration) (n : ℕ) (gs : List ModelGenerationState)
    → length (set_users m n gs) ≡ length gs
unfolding set_users
length-set_users m n [] = refl
length-set_users m n (g ∷ gs) = ground (arith, length-set_users m n gs)

pub length-retain_out :
    (ms : List ModelGeneration) (gs : List ModelGenerationState)
    → length (retain_out ms gs) ≤ length gs
unfolding retain_out
length-retain_out ms [] = omega arith
length-retain_out ms (g ∷ gs) = ground (arith, length-retain_out ms gs)

-- No two entries of the list are for one model, so that the first entry is the only one.
abbrev pub IsDistinct : List ModelGenerationState → Type 0
IsDistinct [] = Unit {0}
IsDistinct (g ∷ gs) = (find_users g.model gs ≡ none) × IsDistinct gs

pub IsDistinct-set_users :
    (m : ModelGeneration) (n : ℕ) (gs : List ModelGenerationState)
    → IsDistinct gs
    → IsDistinct (set_users m n gs)
unfolding set_users
IsDistinct-set_users m n [] d = tt
IsDistinct-set_users m n (g ∷ gs) d =
    ground (arith, IsDistinct-set_users m n gs d.1, find_users-set_users g.model m n gs)

pub IsDistinct-append :
    (k : ModelGeneration) (gs : List ModelGenerationState)
    → find_users k gs ≡ none
    → IsDistinct gs
    → IsDistinct (gs ++ (record { model = k; users = 0 } ∷ []))
unfolding find_users
IsDistinct-append k [] h d = (refl, tt)
IsDistinct-append k (g ∷ gs) h d =
    ground (arith, IsDistinct-append k gs, find_users-append g.model k gs, same-sym k g.model)

pub IsDistinct-retain_out :
    (ms : List ModelGeneration) (gs : List ModelGenerationState)
    → IsDistinct gs
    → IsDistinct (retain_out ms gs)
unfolding retain_out
IsDistinct-retain_out ms [] d = tt
IsDistinct-retain_out ms (g ∷ gs) d =
    ground (arith, IsDistinct-retain_out ms gs d.1, find_users-retain_out g.model ms gs)

pub any_unused-find_users :
    (m : ModelGeneration) (gs : List ModelGenerationState)
    → IsDistinct gs
    → any_unused m gs ≡ elim (find_users m gs) [ none ↦ false | some n ↦ n == 0 ]
unfolding any_unused find_users
any_unused-find_users m [] d = refl
any_unused-find_users m (g ∷ gs) d = elim (Bool-cases (same g.model m)) [
  | inl e ↦
      let absent : find_users m gs ≡ none = rw (same→eq g.model m e) at d.0 in
      ground (arith, absent, any_unused-find_users m gs d.1)
  | inr e ↦ ground (arith, any_unused-find_users m gs d.1)
]

pub find_users-same :
    (a b : ModelGeneration) (gs : List ModelGenerationState)
    → same a b ≡ true
    → find_users a gs ≡ find_users b gs
find_users-same a b gs h = ap (λ m. find_users m gs) (same→eq a b h)

pub contains-same :
    (a b : ModelGeneration) (ms : List ModelGeneration)
    → same a b ≡ true
    → contains a ms ≡ contains b ms
contains-same a b ms h = ap (λ m. contains m ms) (same→eq a b h)

-- Queueing a model twice leaves one entry; nothing else changes.
pub contains-queue_model_release :
    (k m : ModelGeneration) (s : ModelLeaseState)
    → contains k (queue_model_release s m).releasable ≡ (contains k s.releasable || same m k)
unfolding queue_model_release
contains-queue_model_release k m s =
    ground (arith, contains-append k m s.releasable, contains-same m k s.releasable)

pub queue_model_release_rest :
    (m : ModelGeneration) (s : ModelLeaseState)
    → ((queue_model_release s m).generations ≡ s.generations)
      × ((queue_model_release s m).current ≡ s.current)
unfolding queue_model_release
queue_model_release_rest m s = ground arith
