-- ===== src/Tests/Whittle.antt =====
-- crates/gz-engine-whittle at concrete inputs: a graph whose output is an Or that its And absorbs.
use graphzero.Base.{
  ℕ, zero, suc, ◌<◌, ◌≤◌, ◌≡◌, refl, true, false, not, ◌||◌, none, some, List, [], ◌∷◌, ◌==◌, All,
  take, length, arith,
}
use graphzero.Base.Bytes.{same}
use graphzero.Base.Result.{ok}
use graphzero.Whittle.Graph.{
  OpCode, input, const, and, or, output, GraphBody, no_node, is_input, inputs_in_place, validate,
  new, children_of, children, extend, push_children, mark_reachable, collect, renumber, remapped,
  remapped_args, rebuild, renumbered, compact_graph,
}
use graphzero.Whittle.Graph as Graph
use graphzero.Whittle.RuleTable as Rule
use graphzero.Whittle.Graph.Meaning.{
  Valuation, op_value, Solves, Validated, WellFormed, validate-Validated,
}
use graphzero.Whittle.Graph.Input.{input_body-WellFormed}
use graphzero.Whittle.Graph.Compact.{compact_graph_keeps_solutions, compact_graph-WellFormed}
use graphzero.Whittle.Graph.Total.{compact_graph_total}
use graphzero.Whittle.Artifact.{serialize, deserialize, deserialize-serialize}
use graphzero.Whittle.Rules.{RawCandidate, apply_graph}
use graphzero.Whittle.Builder.{enumerate_graph_limited}
use graphzero.Whittle.RuleTable.Inverse.{inverse_rule_id-inverse_rule_id}
use graphzero.Whittle.Listing.{NoRepeats, Wanted, enumerate_graph_limited-Within}
use graphzero.Whittle.Enumerate.{candidates_apply, candidate_keeps_solutions}
use graphzero.Whittle.Acyclic.{evaluate, Ranked, candidate_computes_same}

abbrev sample : GraphBody
sample = record {
  arity = 2;
  capacity = 16;
  output_node = 4;
  op = input ∷ input ∷ and ∷ or ∷ output ∷ [];
  arg0 = 0 ∷ 1 ∷ 0 ∷ 0 ∷ 3 ∷ [];
  arg1 = no_node ∷ no_node ∷ 1 ∷ 2 ∷ no_node ∷ [];
}

-- The Or with the And below it gives way to its argument.
abbrev absorb : RawCandidate
absorb = record {
  rule_id = 17;
  root = 3;
  match_len = 4;
  matched = 3 ∷ 0 ∷ 2 ∷ 1 ∷ 0 ∷ 0 ∷ 0 ∷ 0 ∷ [];
}

abbrev items : List RawCandidate
items =
    record { rule_id = 11; root = 2; match_len = 3; matched = 2 ∷ 0 ∷ 1 ∷ 0 ∷ 0 ∷ 0 ∷ 0 ∷ 0 ∷ [] }
    ∷ record { rule_id = 12; root = 3; match_len = 3; matched = 3 ∷ 0 ∷ 2 ∷ 0 ∷ 0 ∷ 0 ∷ 0 ∷ 0 ∷ [] }
    ∷ absorb
    ∷ []

abbrev smaller : GraphBody
smaller = record {
  arity = 2;
  capacity = 16;
  output_node = 2;
  op = input ∷ input ∷ output ∷ [];
  arg0 = 0 ∷ 1 ∷ 0 ∷ [];
  arg1 = no_node ∷ no_node ∷ no_node ∷ [];
}

-- A graph with a node that its output does not depend on.
abbrev loose : GraphBody
loose = record sample { arg0 = 0 ∷ 1 ∷ 0 ∷ 0 ∷ 0 ∷ [] }

enumerated : enumerate_graph_limited sample true (some 3) ≡ ok items
unfolding enumerate_graph_limited same Rule.replacement_extra_nodes Rule.as_u16
enumerated = refl

applied : apply_graph sample absorb ≡ ok smaller
unfolding apply_graph take Graph.compact_graph Graph.mark_reachable Graph.push_children Graph.extend
    Graph.collect Graph.renumbered Graph.rebuild Graph.remapped_args Graph.inputs_in_place
    Graph.is_input Graph.children_of
applied = refl

loose_compacted : compact_graph loose ≡ ok smaller
unfolding Graph.compact_graph Graph.mark_reachable Graph.push_children Graph.extend Graph.collect
    Graph.renumbered Graph.rebuild Graph.remapped_args Graph.inputs_in_place Graph.is_input
    Graph.children_of
loose_compacted = refl

sample-Validated : Validated sample
sample-Validated = validate-Validated sample valid
  where
    valid : validate sample ≡ ok tt
    valid = unfold validate Graph.inputs_in_place Graph.is_input in refl

below : (i : ℕ) → i < 5 → All (λ c. c < 5) (Graph.children_at sample i)
unfolding Graph.children_of
below zero l = tt
below (suc zero) l = tt
below (suc (suc zero)) l = omega arith
below (suc (suc (suc zero))) l = omega arith
below (suc (suc (suc (suc zero)))) l = omega arith
below (suc (suc (suc (suc (suc i))))) l = absurd (omega (arith, l))

sample-WellFormed : WellFormed sample
sample-WellFormed = record { valid = sample-Validated; in_range = below }

-- Each node comes after its children.
sample-Ranked : Ranked sample (λ i. i)
unfolding Graph.children_of
sample-Ranked zero l = tt
sample-Ranked (suc zero) l = tt
sample-Ranked (suc (suc zero)) l = omega arith
sample-Ranked (suc (suc (suc zero))) l = omega arith
sample-Ranked (suc (suc (suc (suc zero)))) l = omega arith
sample-Ranked (suc (suc (suc (suc (suc i))))) l = absurd (omega (arith, l))

smaller-Ranked : Ranked smaller (λ i. i)
unfolding Graph.children_of
smaller-Ranked zero l = tt
smaller-Ranked (suc zero) l = tt
smaller-Ranked (suc (suc zero)) l = omega arith
smaller-Ranked (suc (suc (suc i))) l = absurd (omega (arith, l))

-- The first input is true and the second false.
abbrev inputs : Valuation
inputs i = i == 0

abbrev values : Valuation
values i = not (i == 1 || i == 2)

solved : Solves sample inputs values
unfolding op_value
solved zero l = refl
solved (suc zero) l = refl
solved (suc (suc zero)) l = refl
solved (suc (suc (suc zero))) l = refl
solved (suc (suc (suc (suc zero)))) l = refl
solved (suc (suc (suc (suc (suc i))))) l = absurd (omega (arith, l))

loose_solved : Solves loose inputs values
unfolding op_value
loose_solved zero l = refl
loose_solved (suc zero) l = refl
loose_solved (suc (suc zero)) l = refl
loose_solved (suc (suc (suc zero))) l = refl
loose_solved (suc (suc (suc (suc zero)))) l = refl
loose_solved (suc (suc (suc (suc (suc i))))) l = absurd (omega (arith, l))

-- A constant that gives way to the conjunction of itself and its negation: node 2 then reads node 5,
-- and node 5 reads node 2.
abbrev with_constant : GraphBody
with_constant = record {
  arity = 1;
  capacity = 16;
  output_node = 4;
  op = input ∷ const ∷ OpCode.not ∷ or ∷ output ∷ [];
  arg0 = 0 ∷ 0 ∷ 1 ∷ 0 ∷ 3 ∷ [];
  arg1 = no_node ∷ no_node ∷ no_node ∷ 2 ∷ no_node ∷ [];
}

abbrev complement : RawCandidate
complement = record {
  rule_id = 39;
  root = 1;
  match_len = 3;
  matched = 1 ∷ 1 ∷ 2 ∷ 0 ∷ 0 ∷ 0 ∷ 0 ∷ 0 ∷ [];
}

cycle_made :
    apply_graph with_constant complement
    ≡ ok (record {
      arity = 1;
      capacity = 16;
      output_node = 4;
      op = input ∷ const ∷ OpCode.not ∷ or ∷ output ∷ and ∷ [];
      arg0 = 0 ∷ 0 ∷ 5 ∷ 0 ∷ 3 ∷ 1 ∷ [];
      arg1 = no_node ∷ no_node ∷ no_node ∷ 2 ∷ no_node ∷ 2 ∷ [];
    })
unfolding apply_graph take Graph.compact_graph Graph.mark_reachable Graph.push_children Graph.extend
    Graph.collect Graph.renumbered Graph.rebuild Graph.remapped_args Graph.inputs_in_place
    Graph.is_input Graph.children_of
cycle_made = refl

candidates_apply_example :
    (found : List RawCandidate) × (enumerate_graph_limited sample false none ≡ ok found)
    × All
        (λ c.
          (g : GraphBody) × (apply_graph sample c ≡ ok g)
          × WellFormed g
          × (g.arity ≡ sample.arity)
          × (g.capacity ≡ sample.capacity))
        found
candidates_apply_example = candidates_apply sample false none sample-WellFormed (omega arith)

candidate_keeps_solutions_example : (v : Valuation) × Solves smaller inputs v × (v 2 ≡ true)
candidate_keeps_solutions_example =
    candidate_keeps_solutions sample smaller true (some 3) items 2 absorb inputs values
      sample-WellFormed (omega arith) enumerated refl applied solved

candidate_computes_same_example : evaluate 3 smaller inputs 2 ≡ evaluate 5 sample inputs 4
candidate_computes_same_example =
    candidate_computes_same sample smaller (λ i. i) (λ i. i) true (some 3) items 2 absorb inputs
      sample-WellFormed (omega arith) enumerated refl applied sample-Ranked smaller-Ranked

-- The second of two inputs.
abbrev second : GraphBody
second = record smaller { arg0 = 0 ∷ 1 ∷ 1 ∷ [] }

abbrev second_values : Valuation
second_values i = i == 0

second_made : Graph.input_body 2 16 1 ≡ ok second
unfolding Graph.input_body Graph.numbers_from
second_made = refl

second_solved : Solves second inputs second_values
unfolding op_value
second_solved zero l = refl
second_solved (suc zero) l = refl
second_solved (suc (suc zero)) l = refl
second_solved (suc (suc (suc i))) l = absurd (omega (arith, l))

input_body-WellFormed_example :
    WellFormed second
    × (second.arity ≡ 2)
    × (second.capacity ≡ 16)
    × (second_values second.output_node ≡ inputs 1)
input_body-WellFormed_example =
    input_body-WellFormed 2 16 1 second inputs second_values (omega arith) second_made second_solved

compact_graph_keeps_solutions_example : (v : Valuation) × Solves smaller inputs v × (v 2 ≡ true)
compact_graph_keeps_solutions_example =
    compact_graph_keeps_solutions loose smaller inputs values loose_compacted loose_solved

compact_graph-WellFormed_example :
    WellFormed smaller × (smaller.arity ≡ loose.arity) × (smaller.capacity ≡ loose.capacity)
compact_graph-WellFormed_example = compact_graph-WellFormed loose smaller loose_compacted

compact_graph_total_example : (g : GraphBody) × (compact_graph sample ≡ ok g)
compact_graph_total_example = compact_graph_total sample sample-WellFormed (omega arith)

deserialize-serialize_example : deserialize (serialize sample) ≡ ok sample
deserialize-serialize_example =
    deserialize-serialize sample sample-Validated (record {
      arity = omega arith;
      capacity = omega arith;
      arg0 = omega arith;
      arg1 = omega arith;
    })

enumerate_graph_limited-Within_example :
    (length items ≤ 3) × NoRepeats items × All (Wanted true) items
enumerate_graph_limited-Within_example =
    enumerate_graph_limited-Within sample true (some 3) items enumerated

-- Factoring and expanding an Or of Ands.
expands : Rule.inverse_rule_id 23 ≡ some 24
unfolding Rule.inverse_rule_id
expands = refl

inverse_rule_id-inverse_rule_id_example : Rule.inverse_rule_id 24 ≡ some 23
inverse_rule_id-inverse_rule_id_example = inverse_rule_id-inverse_rule_id 23 24 expands
