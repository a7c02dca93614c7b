-- ===== src/Whittle/Graph/Reach.antt =====
-- The marking of the nodes that the output depends on, in `compact_graph` of graph.rs.
use graphzero.Base.{
  ℕ, zero, suc, ◌+◌, ◌*◌, ◌<◌, ◌≤◌, ◌≡◌, refl, ◌∙◌, sym, subst, ◌⊎◌, inl, inr, Bool, true, false,
  List, [], ◌∷◌, ◌==◌, ltb, length, get_or, set, replicate, length-set, get_or-set, All, Bool-cases,
  ==→eq, ltb→lt, lt→ltb, arith,
}
use graphzero.Base.Result.{ok}
use graphzero.Whittle.Graph.{
  OpCode, input, const, and, or, not, output, GraphBody, op_at, arg0_at, arg1_at, children_of,
  children_at, children, extend, push_children, mark_reachable,
}

abbrev pub Marked : List Bool → ℕ → Type 0
Marked flags i = get_or false flags i ≡ true

-- The flags that are still false.
pub unmarked : List Bool → ℕ
unmarked [] = 0
unmarked (true ∷ flags) = unmarked flags
unmarked (false ∷ flags) = suc (unmarked flags)

unmarked-set :
    (flags : List Bool) (i : ℕ)
    → i < length flags
    → get_or false flags i ≡ false
    → suc (unmarked (set flags i true)) ≡ unmarked flags
unfolding unmarked
unmarked-set [] i h e = absurd (omega (arith, h))
unmarked-set (true ∷ flags) zero h e = cc
unmarked-set (false ∷ flags) zero h e = refl
unmarked-set (true ∷ flags) (suc i) h e = unmarked-set flags i (omega (arith, h)) e
unmarked-set (false ∷ flags) (suc i) h e = omega (arith, unmarked-set flags i (omega (arith, h)) e)

pub unmarked-replicate : (n : ℕ) → unmarked (replicate n false) ≡ n
unfolding unmarked
unmarked-replicate zero = refl
unmarked-replicate (suc n) = omega (arith, unmarked-replicate n)

length-extend_children :
    (out : List ℕ) (code : OpCode) (a b : ℕ)
    → length (extend out (children_of code a b)) ≤ length out + 2
unfolding extend children_of
length-extend_children out input a b = omega arith
length-extend_children out const a b = omega arith
length-extend_children out not a b = omega arith
length-extend_children out output a b = omega arith
length-extend_children out and a b = omega arith
length-extend_children out or a b = omega arith

All-extend : (P : ℕ → Type 0) (out cs : List ℕ) → All P out → All P cs → All P (extend out cs)
unfolding extend
All-extend P out [] h k = h
All-extend P out (c ∷ cs) h k = All-extend P (c ∷ out) cs (k.0, h) k.1

extend-All : (P : ℕ → Type 0) (out cs : List ℕ) → All P (extend out cs) → All P out × All P cs
unfolding extend
extend-All P out [] h = (h, tt)
extend-All P out (c ∷ cs) h = let (o, r) = extend-All P (c ∷ out) cs h in (o.1, (o.0, r))

module _ (g : GraphBody) where
  -- What the flags at the end have to do with the flags and the stack before.
  pub record Reached (flags : List Bool) (stack : List ℕ) (flags' : List Bool) : Type 0 where
    pub sized : length flags' ≡ length flags
    pub grows : (i : ℕ) → Marked flags i → Marked flags' i
    pub stacked : All (Marked flags') stack
    pub closed :
        (i : ℕ)
        → Marked flags' i
        → Marked flags i ⊎ ((i < length g.op) × All (Marked flags') (children_at g i))

  mark_old :
      (fuel : ℕ) (flags : List Bool) (node : ℕ) (stack : List ℕ)
      → ltb node (length g.op) ≡ true
      → Marked flags node
      → mark_reachable g (suc fuel) flags (node ∷ stack) ≡ mark_reachable g fuel flags stack
  unfolding mark_reachable
  mark_old fuel flags node stack lt seen = rw (lt, seen, mark_reachable)

  push_children_lem :
      (node : ℕ) (stack : List ℕ)
      → ltb node (length g.op) ≡ true
      → push_children g node stack ≡ ok (extend stack (children_at g node))
  unfolding push_children children
  push_children_lem node stack lt = rw lt

  mark_new :
      (fuel : ℕ) (flags : List Bool) (node : ℕ) (stack : List ℕ)
      → ltb node (length g.op) ≡ true
      → get_or false flags node ≡ false
      → mark_reachable g (suc fuel) flags (node ∷ stack)
        ≡ mark_reachable g fuel (set flags node true) (extend stack (children_at g node))
  unfolding mark_reachable
  mark_new fuel flags node stack lt fresh =
      rw (lt, fresh, push_children_lem node stack lt, mark_reachable)

  Reached-done : (flags : List Bool) → Reached flags [] flags
  Reached-done flags = record {
    sized = refl;
    grows = λ i m. m;
    stacked = tt;
    closed = λ i m. inl m;
  }

  Reached-old :
      (flags flags' : List Bool) (node : ℕ) (stack : List ℕ)
      → Marked flags node
      → Reached flags stack flags'
      → Reached flags (node ∷ stack) flags'
  Reached-old flags flags' node stack m r = record {
    sized = r.sized;
    grows = r.grows;
    stacked = (r.grows node m, r.stacked);
    closed = r.closed;
  }

  Reached-new :
      (flags flags' : List Bool) (node : ℕ) (stack : List ℕ)
      → node < length flags
      → node < length g.op
      → Reached (set flags node true) (extend stack (children_at g node)) flags'
      → Reached flags (node ∷ stack) flags'
  Reached-new flags flags' node stack l n r =
      let (below, own) = extend-All (Marked flags') stack (children_at g node) r.stacked in
      let old = λ (i : ℕ). get_or-set false flags node i true l in
      record {
        sized = r.sized ∙ length-set flags node true;
        grows = λ i m. r.grows i (ground (arith, old i, m));
        stacked = (r.grows node (ground (arith, old node)), below);
        closed = λ i m. elim (r.closed i m) [
          | inr c ↦ inr c
          | inl s ↦ elim (Bool-cases (node == i)) [
            | inl e ↦ inr (
                subst (λ (k : ℕ). (k < length g.op) × All (Marked flags') (children_at g k))
                  (==→eq node i e) (n, own))
            | inr e ↦ inl (ground (arith, old i, s, e))
          ]
        ];
      }

  -- What a marking that succeeds marks.
  pub mark_reachable_lem :
      (fuel : ℕ) (flags : List Bool) (stack : List ℕ) (end : List Bool)
      → length flags ≡ length g.op
      → mark_reachable g fuel flags stack ≡ ok end
      → Reached flags stack end
  unfolding mark_reachable
  mark_reachable_lem zero flags [] end z h = subst (Reached flags []) (cc) (Reached-done flags)
  mark_reachable_lem zero flags (node ∷ stack) end z h = cc
  mark_reachable_lem (suc fuel) flags [] end z h =
      subst (Reached flags []) (cc) (Reached-done flags)
  mark_reachable_lem (suc fuel) flags (node ∷ stack) end z h =
      elim (Bool-cases (ltb node (length g.op))) [
        | inr out ↦ cc (rw (out, mark_reachable) at h)
        | inl lt ↦ elim (Bool-cases (get_or false flags node)) [
          | inl seen ↦ Reached-old flags end node stack seen (
              mark_reachable_lem fuel flags stack end z
                (sym (mark_old fuel flags node stack lt seen) ∙ h))
          | inr fresh ↦
              let l : node < length flags = ground (arith, lt, z) in
              Reached-new flags end node stack l (ltb→lt node (length g.op) lt) (
                mark_reachable_lem fuel (set flags node true) (extend stack (children_at g node))
                  end (length-set flags node true ∙ z)
                  (sym (mark_new fuel flags node stack lt fresh) ∙ h))
        ]
      ]

  -- The fuel lasts until the stack is empty, and no node is out of range, where each argument is a
  -- node: each round takes a node off the stack, and marks a node where it puts two on it.
  pub mark_reachable_total :
      (fuel : ℕ) (flags : List Bool) (stack : List ℕ)
      → ((i : ℕ) → i < length g.op → All (λ c. c < length g.op) (children_at g i))
      → All (λ c. c < length g.op) stack
      → length flags ≡ length g.op
      → length stack + 2 * unmarked flags ≤ fuel
      → (end : List Bool) × (mark_reachable g fuel flags stack ≡ ok end)
  unfolding mark_reachable
  mark_reachable_total zero flags [] w s z f = (flags, refl)
  mark_reachable_total zero flags (node ∷ stack) w s z f = absurd (omega (arith, f))
  mark_reachable_total (suc fuel) flags [] w s z f = (flags, refl)
  mark_reachable_total (suc fuel) flags (node ∷ stack) w s z f =
      let lt = lt→ltb node (length g.op) s.0 in
      elim (Bool-cases (get_or false flags node)) [
        | inl seen ↦
            rw (mark_old fuel flags node stack lt seen)
              (mark_reachable_total fuel flags stack w s.1 z (omega (arith, f)))
        | inr fresh ↦ rw (mark_new fuel flags node stack lt fresh) (
            mark_reachable_total fuel (set flags node true) (extend stack (children_at g node)) w
              (All-extend (λ c. c < length g.op) stack (children_at g node) s.1 (w node s.0))
              (length-set flags node true ∙ z)
              (omega (
                arith,
                f,
                unmarked-set flags node (ground (arith, lt, z)) fresh,
                length-extend_children stack (op_at g node) (arg0_at g node) (arg1_at g node),
              )))
      ]
