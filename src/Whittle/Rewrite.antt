-- ===== src/Whittle/Rewrite.antt =====
-- crates/gz-engine-whittle/src/rules.rs: what the candidates of a graph do to it.
use graphzero.Base.{
  ℕ, zero, suc, ◌+◌, ◌<◌, ◌≤◌, ◌≡◌, refl, ap, ◌∙◌, true, List, [], ◌∷◌, lt→ltb, le→leb, length,
  take, All, arith,
}
use graphzero.Base.Result.{ok}
use graphzero.Whittle.Graph.{GraphBody, no_node}
use graphzero.Whittle.Graph.Meaning.{Valuation, Solves, WellFormed, Preserves}
use graphzero.Whittle.Graph.Compact.{compact_graph_sound}
use graphzero.Whittle.Graph.Total.{compact_graph_total}
use graphzero.Whittle.RuleTable.{
  RuleId, RuleError, rules, from_u16, as_u16, replacement_extra_nodes,
}
use graphzero.Whittle.Rules.{
  RawCandidate, matched_at, replacement, build_replacement, redirected, all_below, map_err,
  apply_graph,
}
use graphzero.Whittle.RuleTable as Rule
use graphzero.Whittle.Rules.Append.{Grown}
use graphzero.Whittle.Rules.Meaning.{rule_value, replacement-Grown}
use graphzero.Whittle.Rules.Redirect.{redirected_range, redirected-Solves, redirected-Validated}

pub from_u16-as_u16 : (rule : RuleId) → from_u16 (as_u16 rule) ≡ ok rule
unfolding from_u16 as_u16
from_u16-as_u16 Rule.and_false = refl
from_u16-as_u16 _ = refl

-- A candidate whose nodes are nodes of the graph, whose rule the graph has room for, and whose
-- replacement has the value of its root in each solution.
pub record Sound (g : GraphBody) (c : RawCandidate) : Type 0 where
  pub rule : RuleId
  pub known : c.rule_id ≡ as_u16 rule
  pub root_in : c.root < length g.op
  pub matched_in : All (λ k. k < length g.op) c.matched
  pub room : length g.op + replacement_extra_nodes rule ≤ g.capacity
  pub valued :
      (x v : Valuation)
      → Solves g x v
      → rule_value rule (v c.root) (λ k. v (matched_at c.matched k)) ≡ v c.root

all_below_lem :
    (n k : ℕ) (nodes : List ℕ) → All (λ i. i < n) nodes → all_below n (take k nodes) ≡ true
unfolding all_below take
all_below_lem n zero nodes h = refl
all_below_lem n (suc k) [] h = refl
all_below_lem n (suc k) (i ∷ nodes) h = ground (arith, h.0, all_below_lem n k nodes h.1)

matched_at_lem :
    (n k : ℕ) (nodes : List ℕ) → 0 < n → All (λ i. i < n) nodes → matched_at nodes k < n
matched_at_lem n k [] l h = l
matched_at_lem n zero (i ∷ nodes) l h = h.0
matched_at_lem n (suc k) (i ∷ nodes) l h = matched_at_lem n k nodes l h.1

module _ (g : GraphBody) (c : RawCandidate) (w : WellFormed g) (s : Sound g c) where
  abbrev n : ℕ
  n = length g.op

  abbrev built : ℕ × GraphBody
  built = replacement s.rule c.root c.matched g

  abbrev turned_graph : GraphBody
  turned_graph = redirected n c.root built.0 built.1

  grown :
      (x v : Valuation)
      → Grown g x v built.0 built.1
          (rule_value s.rule (v c.root) (λ k. v (matched_at c.matched k)))
          (replacement_extra_nodes s.rule)
  grown x v =
      replacement-Grown g x v w.valid.arg0_sized w.valid.arg1_sized s.rule c.root c.matched
        s.root_in (λ k. matched_at_lem n k c.matched (omega (arith, s.root_in)) s.matched_in)

  abbrev nowhere : Valuation
  nowhere _ = true

  turned-Solves :
      (x v : Valuation)
      → Solves g x v
      → (v' : Valuation) × Solves turned_graph x v'
        × (v' turned_graph.output_node ≡ v g.output_node)
  unfolding redirected
  turned-Solves x v solves =
      let r = grown x v in
      (
        r.valuation,
        redirected-Solves g built.1 x v c.root built.0 w r.valuation r.extends r.within
            (r.valued ∙ s.valued x v solves) solves,
        ap r.valuation r.extends.same_output
            ∙ (r.extends.old_node g.output_node w.valid.output_in_range).3,
      )

  built_fits : length built.1.op ≤ built.1.capacity
  built_fits =
      let r = grown nowhere nowhere in omega (arith, r.sized, s.room, r.extends.same_capacity)

  turned-WellFormed : WellFormed turned_graph
  unfolding redirected
  turned-WellFormed =
      let r = grown nowhere nowhere in
      record {
        valid =
            redirected-Validated g built.1 nowhere nowhere c.root built.0 w r.valuation r.extends
              r.within built_fits;
        in_range =
            redirected_range g built.1 nowhere nowhere c.root built.0 w r.valuation r.extends
              r.within;
      }

  turned_fields : (turned_graph.arity ≡ g.arity) × (turned_graph.capacity ≡ g.capacity)
  unfolding redirected
  turned_fields = let r = grown nowhere nowhere in (r.extends.same_arity, r.extends.same_capacity)

  Preserves-after : (g' : GraphBody) → Preserves turned_graph g' → Preserves g g'
  Preserves-after g' p = record {
    well_formed = p.well_formed;
    same_arity = p.same_arity ∙ turned_fields.0;
    same_capacity = p.same_capacity ∙ turned_fields.1;
    solved = λ x v solves.
        let (v1, s1, e1) = turned-Solves x v solves in
        let (v2, s2, e2) = p.solved x v1 s1 in (v2, s2, e2 ∙ e1);
  }

  -- The candidate is applied with no error.
  pub apply_graph_lem :
      g.capacity ≤ no_node → (g' : GraphBody) × (apply_graph g c ≡ ok g') × Preserves g g'
  unfolding apply_graph build_replacement map_err
  apply_graph_lem small =
      let (g', e) =
        compact_graph_total turned_graph turned-WellFormed (omega (arith, small, turned_fields)) in
      let known : from_u16 c.rule_id ≡ ok s.rule = ap from_u16 s.known ∙ from_u16-as_u16 s.rule in
      (
        g',
        rw
            (
              lt→ltb c.root n s.root_in,
              all_below_lem n c.match_len c.matched s.matched_in,
              known,
              le→leb (length built.1.op) built.1.capacity built_fits,
              e,
            )
            refl,
        Preserves-after g' (compact_graph_sound turned_graph g' e),
      )
