-- ===== src/Whittle/Graph/Renumber.antt =====
-- The new numbers of the kept nodes, in `compact_graph` of graph.rs.
use graphzero.Base.{
  ℕ, zero, suc, ◌+◌, ◌<◌, ◌≤◌, ◌≡◌, refl, ap, sym, ◌∙◌, ◌⊎◌, inl, inr, false, none, some, List, [],
  ◌∷◌, ◌==◌, if◌then◌else◌, length, length-set, get_elem?, get_or, set, replicate, length-replicate,
  Bool-cases, ==→eq, arith,
}
use graphzero.Base.Result.{ok}
use graphzero.Whittle.Graph.{no_node, renumber, remapped}
use graphzero.Whittle.Graph.Keep.{Has}

get_elem?-set :
    (xs : List ℕ) (i j v : ℕ)
    → get_elem? (set xs i v) j ≡ (
        if i == j
        then (elim (get_elem? xs j) [ none ↦ none | some _ ↦ some v ])
        else get_elem? xs j)
get_elem?-set [] i j v = ground arith
get_elem?-set (x ∷ xs) zero zero v = refl
get_elem?-set (x ∷ xs) zero (suc j) v = ground arith
get_elem?-set (x ∷ xs) (suc i) zero v = ground arith
get_elem?-set (x ∷ xs) (suc i) (suc j) v = ground (arith, get_elem?-set xs i j v)

get_elem?-replicate : (n c v j : ℕ) → get_elem? (replicate n v) c ≡ some j → j ≡ v
get_elem?-replicate zero c v j h = cc
get_elem?-replicate (suc n) zero v j h = cc
get_elem?-replicate (suc n) (suc c) v j h = get_elem?-replicate n c v j h

get_elem?_within : (xs : List ℕ) (c : ℕ) → c < length xs → (j : ℕ) × (get_elem? xs c ≡ some j)
get_elem?_within [] c l = absurd (omega (arith, l))
get_elem?_within (x ∷ xs) zero l = (x, refl)
get_elem?_within (x ∷ xs) (suc c) l = get_elem?_within xs c (omega (arith, l))

-- A number that is found is the old one, or counts a kept node.
renumber_sound :
    (new : ℕ) (remap keep : List ℕ) (c j : ℕ)
    → get_elem? (renumber new remap keep) c ≡ some j
    → (get_elem? remap c ≡ some j)
      ⊎ ((k : ℕ) × (k < length keep) × (j ≡ new + k) × (get_or 0 keep k ≡ c))
unfolding renumber
renumber_sound new remap [] c j h = inl h
renumber_sound new remap (old ∷ keep) c j h =
    elim (renumber_sound (suc new) (set remap old new) keep c j h) [
      | inr (k, l, e, q) ↦ inr (suc k, omega (arith, l), omega (arith, e), q)
      | inl q ↦ elim (Bool-cases (old == c)) [
        | inl same ↦ inr (
          0,
          omega arith,
          ground (arith, get_elem?-set remap old c new, q, same),
          ==→eq old c same,
        )
        | inr other ↦ inl (ground (arith, get_elem?-set remap old c new, q, other))
      ]
    ]

renumber_keeps :
    (new : ℕ) (remap keep : List ℕ) (c j bound : ℕ)
    → get_elem? remap c ≡ some j
    → j < bound
    → new + length keep ≤ bound
    → (j' : ℕ) × (get_elem? (renumber new remap keep) c ≡ some j') × (j' < bound)
unfolding renumber
renumber_keeps new remap [] c j bound h l u = (j, h, l)
renumber_keeps new remap (old ∷ keep) c j bound h l u = elim (Bool-cases (old == c)) [
  | inl same ↦
      renumber_keeps (suc new) (set remap old new) keep c new bound
        (ground (arith, get_elem?-set remap old c new, h, same)) (omega (arith, u))
        (omega (arith, u))
  | inr other ↦
      renumber_keeps (suc new) (set remap old new) keep c j bound
        (ground (arith, get_elem?-set remap old c new, h, other)) l (omega (arith, u))
]

renumber_complete :
    (new : ℕ) (remap keep : List ℕ) (k bound : ℕ)
    → k < length keep
    → get_or 0 keep k < length remap
    → new + length keep ≤ bound
    → (j : ℕ) × (get_elem? (renumber new remap keep) (get_or 0 keep k) ≡ some j) × (j < bound)
unfolding renumber
renumber_complete new remap [] k bound l r u = absurd (omega (arith, l))
renumber_complete new remap (old ∷ keep) zero bound l r u =
    renumber_keeps (suc new) (set remap old new) keep old new bound
      (ground (arith, get_elem?-set remap old old new, get_elem?_within remap old r))
      (omega (arith, u)) (omega (arith, u))
renumber_complete new remap (old ∷ keep) (suc k) bound l r u =
    renumber_complete (suc new) (set remap old new) keep k bound (omega (arith, l))
      (omega (arith, r, length-set remap old new)) (omega (arith, u))

-- The remapping of a graph of `n` nodes.
abbrev pub renumbering : ℕ → List ℕ → List ℕ
renumbering n keep = renumber 0 (replicate n no_node) keep

remapped-eq_ok :
    (remap : List ℕ) (c j : ℕ)
    → remapped remap c ≡ ok j
    → (get_elem? remap c ≡ some j) × ((j == no_node) ≡ false)
unfolding remapped
remapped-eq_ok remap c j h = ground arith

remapped-some :
    (remap : List ℕ) (c j : ℕ) → get_elem? remap c ≡ some j → j < no_node → remapped remap c ≡ ok j
unfolding remapped
remapped-some remap c j h l = ground arith

pub remapped_sound :
    (n : ℕ) (keep : List ℕ) (c j : ℕ)
    → remapped (renumbering n keep) c ≡ ok j
    → (j < length keep) × (get_or 0 keep j ≡ c)
remapped_sound n keep c j h =
    let (found, real) = remapped-eq_ok (renumbering n keep) c j h in
    elim (renumber_sound 0 (replicate n no_node) keep c j found) [
      | inl q ↦ absurd (ground (arith, real, get_elem?-replicate n c no_node j q))
      | inr (k, l, e, q) ↦ (omega (arith, l, e), ap (λ m. get_or 0 keep m) (omega (arith, e)) ∙ q)
    ]

pub remapped_complete :
    (n : ℕ) (keep : List ℕ) (c : ℕ)
    → c < n
    → length keep ≤ no_node
    → Has keep c
    → (j : ℕ) × (remapped (renumbering n keep) c ≡ ok j)
remapped_complete n keep c l b (k, u, e) =
    let (j, found, small) =
      renumber_complete 0 (replicate n no_node) keep k no_node u
        (omega (arith, l, e, length-replicate n no_node)) (omega (arith, b)) in
    (
      j,
      remapped-some (renumbering n keep) c j (ap (get_elem? (renumbering n keep)) (sym e) ∙ found)
          small,
    )
