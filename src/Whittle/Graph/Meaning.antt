-- ===== src/Whittle/Graph/Meaning.antt =====
-- What a graph of graph.rs computes, and when it is well formed. A valuation gives each node a value,
-- and solves the graph at given inputs when each node has the value of its gate at those of its
-- arguments. A graph without cycles has one solution at each inputs.
use graphzero.Base.{
  ℕ, ◌<◌, ◌≤◌, ◌≡◌, refl, Bool, true, false, ◌&&◌, ◌||◌, List, ◌==◌, length, get_or, All, zero, suc,
  ◌+◌, inl, inr, subst, Bool-cases, ==→eq, arith,
}
use graphzero.Base as Base
use graphzero.Base.Result.{ok}
use graphzero.Whittle.Graph.{
  OpCode, input, const, and, or, not, output, GraphBody, op_at, arg0_at, arg1_at, is_input,
  inputs_in_place, validate, children_of, children_at,
}

abbrev pub Valuation : Type 0
Valuation = ℕ → Bool

-- The value of a gate from those of the graph's inputs and nodes.
unfoldable pub op_value : OpCode → Valuation → Valuation → ℕ → ℕ → Bool
op_value input x v a b = x a
op_value const x v a b = Base.not (a == 0)
op_value not x v a b = Base.not (v a)
op_value output x v a b = v a
op_value and x v a b = v a && v b
op_value or x v a b = v a || v b

abbrev pub node_value : GraphBody → Valuation → Valuation → ℕ → Bool
node_value g x v i = op_value (op_at g i) x v (arg0_at g i) (arg1_at g i)

abbrev pub Solves : GraphBody → Valuation → Valuation → Type 0
Solves g x v = (i : ℕ) → i < length g.op → v i ≡ node_value g x v i

-- What `validate` tests.
pub record Validated (g : GraphBody) : Type 0 where
  pub arg0_sized : length g.arg0 ≡ length g.op
  pub arg1_sized : length g.arg1 ≡ length g.op
  pub fits : length g.op ≤ g.capacity
  pub output_in_range : g.output_node < length g.op
  pub arity_in_range : g.arity ≤ length g.op
  pub inputs : (i : ℕ) → i < g.arity → (is_input (op_at g i) ≡ true) × (arg0_at g i ≡ i)

-- Besides, each argument is a node.
pub record WellFormed (g : GraphBody) : Type 0 where
  pub valid : Validated g
  pub in_range : (i : ℕ) → i < length g.op → All (λ c. c < length g.op) (children_at g i)

-- What a compacted or rewritten graph `g'` has to do with the graph `g`: it is well formed, of the same
-- arity and capacity, and each solution of `g` gives one of `g'` with the same output.
pub record Preserves (g g' : GraphBody) : Type 0 where
  pub well_formed : WellFormed g'
  pub same_arity : g'.arity ≡ g.arity
  pub same_capacity : g'.capacity ≡ g.capacity
  pub solved :
      (x v : Valuation)
      → Solves g x v
      → (v' : Valuation) × Solves g' x v' × (v' g'.output_node ≡ v g.output_node)

-- A gate looks only at the values of its children.
pub op_value-eq :
    (code : OpCode) (x v w : Valuation) (a b : ℕ)
    → All (λ c. v c ≡ w c) (children_of code a b)
    → op_value code x v a b ≡ op_value code x w a b
unfolding op_value children_of
op_value-eq input x v w a b h = refl
op_value-eq const x v w a b h = refl
op_value-eq not x v w a b h = rw h.0
op_value-eq output x v w a b h = h.0
op_value-eq and x v w a b h = rw (h.0, h.1.0)
op_value-eq or x v w a b h = rw (h.0, h.1.0)

inputs_sound :
    (rounds i : ℕ) (g : GraphBody)
    → inputs_in_place rounds i g ≡ true
    → (j : ℕ) → i ≤ j
    → j < i + rounds
    → (is_input (op_at g j) ≡ true) × (arg0_at g j ≡ j)
unfolding inputs_in_place
inputs_sound zero i g h j l u = absurd (omega (arith, l, u))
inputs_sound (suc rounds) i g h j l u = elim (Bool-cases (i == j)) [
  | inl e ↦
      subst (λ (k : ℕ). (is_input (op_at g k) ≡ true) × (arg0_at g k ≡ k)) (==→eq i j e)
        (ground arith)
  | inr e ↦ inputs_sound rounds (suc i) g (ground arith) j (ground (arith, l, e)) (omega (arith, u))
]

inputs_complete :
    (rounds i : ℕ) (g : GraphBody)
    → ((j : ℕ) → i ≤ j → j < i + rounds → (is_input (op_at g j) ≡ true) × (arg0_at g j ≡ j))
    → inputs_in_place rounds i g ≡ true
unfolding inputs_in_place
inputs_complete zero i g h = refl
inputs_complete (suc rounds) i g h =
    let now = h i (omega arith) (omega arith) in
    let later =
      inputs_complete rounds (suc i) g (λ j l u. h j (omega (arith, l)) (omega (arith, u))) in
    ground (arith, now, later)

pub validate-Validated : (g : GraphBody) → validate g ≡ ok tt → Validated g
unfolding validate
validate-Validated g h = record {
  arg0_sized = ground arith;
  arg1_sized = ground arith;
  fits = ground arith;
  output_in_range = ground arith;
  arity_in_range = ground arith;
  inputs = λ i l. inputs_sound g.arity 0 g (ground arith) i (omega arith) (omega (arith, l));
}

pub Validated-validate : (g : GraphBody) → Validated g → validate g ≡ ok tt
unfolding validate
Validated-validate g v =
    ground (arith, v, inputs_complete g.arity 0 g (λ j l u. v.inputs j (omega (arith, u))))
