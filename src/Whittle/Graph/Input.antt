-- ===== src/Whittle/Graph/Input.antt =====
-- `GraphBody::input` of graph.rs: the graph that a search starts from.
use graphzero.Base.{
  ℕ, zero, suc, ◌+◌, ◌<◌, ◌≤◌, ◌≡◌, refl, sym, ◌∙◌, subst, inl, inr, [], ◌∷◌, ◌++◌, ltb, ltb→lt,
  u16_mod, length, get_or, All, replicate, length-append, length-replicate, get_or-append,
  get_or-append_last, get_or-replicate, Bool-cases, arith,
}
use graphzero.Base.Result.{ok}
use graphzero.Whittle.Graph.{
  input, output, GraphBody, no_node, numbers_from, input_body, is_input, children_of, children_at,
  op_at, arg0_at,
}
use graphzero.Whittle.Graph.Meaning.{Valuation, op_value, Solves, WellFormed}

length-numbers_from : (k n : ℕ) → length (numbers_from k n) ≡ n
unfolding numbers_from
length-numbers_from k zero = refl
length-numbers_from k (suc n) = omega (arith, length-numbers_from (suc k) n)

get_or-numbers_from : (k n i : ℕ) → i < n → get_or 0 (numbers_from k n) i ≡ k + i
unfolding numbers_from
get_or-numbers_from k zero i l = absurd (omega (arith, l))
get_or-numbers_from k (suc n) zero l = omega arith
get_or-numbers_from k (suc n) (suc i) l =
    omega (arith, get_or-numbers_from (suc k) n i (omega (arith, l)))

module _ (arity capacity input_index : ℕ) where
  abbrev inputs_only : GraphBody
  inputs_only = record {
    arity = arity;
    capacity = capacity;
    output_node = arity;
    op = replicate arity input ++ (output ∷ []);
    arg0 = numbers_from 0 arity ++ (input_index ∷ []);
    arg1 = replicate arity no_node ++ (no_node ∷ []);
  }

  nodes : length inputs_only.op ≡ arity + 1
  nodes =
      omega
        (arith, length-append (replicate arity input) (output ∷ []), length-replicate arity input)

  op_of_input : (i : ℕ) → i < arity → op_at inputs_only i ≡ input
  op_of_input i l =
      get_or-append input (replicate arity input) (output ∷ []) i
        (omega (arith, l, length-replicate arity input))
      ∙ get_or-replicate input arity i

  arg0_of_input : (i : ℕ) → i < arity → arg0_at inputs_only i ≡ i
  arg0_of_input i l =
      get_or-append 0 (numbers_from 0 arity) (input_index ∷ []) i
        (omega (arith, l, length-numbers_from 0 arity))
      ∙ omega (arith, get_or-numbers_from 0 arity i l)

  op_of_output : op_at inputs_only arity ≡ output
  op_of_output =
      subst (λ n. get_or input inputs_only.op n ≡ output) (length-replicate arity input)
        (get_or-append_last input (replicate arity input) output)

  arg0_of_output : arg0_at inputs_only arity ≡ input_index
  arg0_of_output =
      subst (λ n. get_or 0 inputs_only.arg0 n ≡ input_index) (length-numbers_from 0 arity)
        (get_or-append_last 0 (numbers_from 0 arity) input_index)

  children_in :
      (i : ℕ)
      → i < length inputs_only.op
      → input_index < arity
      → All (λ c. c < length inputs_only.op) (children_at inputs_only i)
  unfolding children_of
  children_in i below l = elim (Bool-cases (ltb i arity)) [
    | inl before ↦ rw (op_of_input i (ltb→lt i arity before)) tt
    | inr last ↦
        let here : arity ≡ i = ground (arith, below, last, nodes) in
        subst (λ j. All (λ c. c < length inputs_only.op) (children_at inputs_only j)) here
          (rw op_of_output (rw arg0_of_output (omega (arith, l, nodes), tt)))
  ]

  inputs_only-WellFormed : input_index < arity → arity + 1 ≤ capacity → WellFormed inputs_only
  inputs_only-WellFormed l room = record {
    valid = record {
      arg0_sized = omega (
        arith,
        nodes,
        length-append (numbers_from 0 arity) (input_index ∷ []),
        length-numbers_from 0 arity,
      );
      arg1_sized = omega (
        arith,
        nodes,
        length-append (replicate arity no_node) (no_node ∷ []),
        length-replicate arity no_node,
      );
      fits = omega (arith, nodes, room);
      output_in_range = omega (arith, nodes);
      arity_in_range = omega (arith, nodes);
      inputs = λ i l. (unfold is_input in rw (op_of_input i l) refl, arg0_of_input i l);
    };
    in_range = λ i below. children_in i below l;
  }

  computes :
      (x v : Valuation) → input_index < arity → Solves inputs_only x v → v arity ≡ x input_index
  computes x v l s =
      s arity (omega (arith, nodes))
      ∙ unfold op_value in
        rw (op_of_output, arg0_of_output)
          (s input_index (omega (arith, l, nodes))
            ∙ rw (op_of_input input_index l, arg0_of_input input_index l) refl)

-- The graph that `GraphBody::input` returns for an arity below 65535 is well formed, has the given
-- arity and capacity, and computes the input that was asked for.
pub input_body-WellFormed :
    (arity capacity input_index : ℕ) (g : GraphBody) (x v : Valuation)
    → arity + 1 < u16_mod
    → input_body arity capacity input_index ≡ ok g
    → Solves g x v
    → WellFormed g × (g.arity ≡ arity) × (g.capacity ≡ capacity) × (v g.output_node ≡ x input_index)
unfolding input_body
input_body-WellFormed arity capacity input_index g x v small e s =
    let l : input_index < arity = ground (arith, e) in
    let room : arity + 1 ≤ capacity = ground (arith, e, small) in
    let same : inputs_only arity capacity input_index ≡ g = ground (arith, e) in
    let s' : Solves (inputs_only arity capacity input_index) x v =
      subst (λ h. Solves h x v) (sym same) s in
    subst
      (λ h.
        WellFormed h
        × (h.arity ≡ arity)
        × (h.capacity ≡ capacity)
        × (v h.output_node ≡ x input_index))
      same
      (
        inputs_only-WellFormed arity capacity input_index l room,
        refl,
        refl,
        computes arity capacity input_index x v l s',
      )
