-- ===== src/Whittle/Graph/Compact.antt =====
-- What `compact_graph` of graph.rs does to a graph.
use graphzero.Base.{
  ℕ, ◌+◌, ◌<◌, ◌≡◌, refl, ap, sym, ◌∙◌, subst, inl, inr, Bool, true, false, ◌&&◌, List, [], ◌∷◌,
  ◌==◌, if◌then◌else◌, length, get_or, replicate, length-replicate, get_or-replicate, All, All-map,
  All-get_or, Bool-cases, arith,
}
use graphzero.Base.Result.{Result, ok, >>=-eq-ok}
use graphzero.Whittle.Graph.{
  OpCode, input, GraphError, GraphBody, op_at, arg0_at, arg1_at, is_input, children_of, children_at,
  validate, new, mark_reachable, collect, remapped, Arrays, rebuild, renumbered, compact_fuel,
  compact_graph,
}
use graphzero.Whittle.Graph.Meaning.{
  Valuation, Solves, Validated, WellFormed, Preserves, validate-Validated,
}
use graphzero.Whittle.Graph.Reach.{Marked, mark_reachable_lem}
use graphzero.Whittle.Graph.Keep.{Kept, collect_sound, collect_all}
use graphzero.Whittle.Graph.Renumber.{renumbering, remapped_sound}
use graphzero.Whittle.Graph.Rebuild.{Rebuilt, rebuild_sound, remapped_args_sound}

abbrev pub blank : GraphBody → List Bool
blank g = replicate (length g.op) false

abbrev pub marks : GraphBody → Result GraphError (List Bool)
marks g = mark_reachable g (compact_fuel g) (blank g) (g.output_node ∷ [])

-- The marked nodes: the output and, with a node, its children.
pub record Closed (g : GraphBody) (flags : List Bool) : Type 0 where
  pub sized : length flags ≡ length g.op
  pub from_output : Marked flags g.output_node
  pub closed : (i : ℕ) → Marked flags i → (i < length g.op) × All (Marked flags) (children_at g i)

pub marks-Closed : (g : GraphBody) (end : List Bool) → marks g ≡ ok end → Closed g end
marks-Closed g end h =
    let n = length g.op in
    let r =
      mark_reachable_lem g (compact_fuel g) (blank g) (g.output_node ∷ []) end
        (length-replicate n false) h in
    record {
      sized = r.sized ∙ length-replicate n false;
      from_output = r.stacked.0;
      closed = λ i m. elim (r.closed i m) [
        | inl old ↦ cc (get_or-replicate false n i)
        | inr later ↦ later
      ];
    }

input_children : (code : OpCode) (a b : ℕ) → is_input code ≡ true → children_of code a b ≡ []
unfolding is_input children_of
input_children input a b h = refl
input_children _ a b h = cc

-- The children of a kept node are in range and kept.
pub Kept-children :
    (g : GraphBody) (flags : List Bool)
    → Validated g
    → Closed g flags
    → (i : ℕ) → Kept g.arity 0 flags i
    → All (λ c. (c < length g.op) × Marked flags c) (children_at g i)
Kept-children g flags v c i (inl l) =
    rw (input_children (op_at g i) (arg0_at g i) (arg1_at g i) (v.inputs i (omega (arith, l))).0) tt
Kept-children g flags v c i (inr m) =
    All-map (Marked flags) (λ k. (k < length g.op) × Marked flags k) (children_at g i)
      (λ k h. ((c.closed k h).0, h)) (c.closed i m).1

whole-Preserves :
    (g : GraphBody) (flags : List Bool)
    → Validated g
    → Closed g flags
    → length (collect g.arity 0 0 flags).0 ≡ length g.op
    → Preserves g g
whole-Preserves g flags v c e = record {
  well_formed = record {
    valid = v;
    in_range = λ i l.
        All-map (λ k. (k < length g.op) × Marked flags k) (λ k. k < length g.op) (children_at g i)
          (λ k h. h.0)
          (Kept-children g flags v c i
            (collect_all g.arity 0 0 flags (e ∙ sym c.sized) i (omega (arith, l, c.sized))));
  };
  same_arity = refl;
  same_capacity = refl;
  solved = λ x v' s. (v', s, refl);
}

-- The graph that the new arrays make.
abbrev pub renumbered_body : GraphBody → Arrays → ℕ → GraphBody
renumbered_body g out output_node = record g {
  output_node = output_node;
  op = out.op;
  arg0 = out.arg0;
  arg1 = out.arg1;
}

body-Preserves :
    (g : GraphBody) (keep : List ℕ) (out : Arrays) (o : ℕ)
    → All (λ k. k < length g.op) keep
    → Rebuilt g (renumbering (length g.op) keep) keep out
    → remapped (renumbering (length g.op) keep) g.output_node ≡ ok o
    → Validated (renumbered_body g out o)
    → Preserves g (renumbered_body g out o)
body-Preserves g keep out o below r ro valid =
    let n = length g.op in
    let args_lem = λ (x v : Valuation) (i : ℕ) (l : i < length keep).
      remapped_args_sound n keep (op_at g (get_or 0 keep i)) x v (arg0_at g (get_or 0 keep i))
        (arg1_at g (get_or 0 keep i)) (get_or 0 out.arg0 i, get_or 0 out.arg1 i) (r.3 i l).1 in
    record {
      well_formed = record {
        valid = valid;
        in_range = λ i l.
            let l' : i < length keep = omega (arith, l, r.0) in
            rw ((r.3 i l').0, r.0) (args_lem (λ _. true) (λ _. true) i l').0;
      };
      same_arity = refl;
      same_capacity = refl;
      solved = λ x v s. (
        λ k. v (get_or 0 keep k),
        λ i l.
            let l' : i < length keep = omega (arith, l, r.0) in
            s (get_or 0 keep i) (All-get_or (λ k. k < n) 0 keep i l' below)
            ∙ sym (args_lem x v i l').1
            ∙ rw (r.3 i l').0 refl,
        ap v (remapped_sound n keep g.output_node o ro).1,
      );
    }

new-eq_ok : (b g' : GraphBody) → new b ≡ ok g' → Validated b × (b ≡ g')
unfolding new
new-eq_ok b g' h =
    let (_, checked, e) = >>=-eq-ok (validate b) _ h in
    (validate-Validated b (ground (arith, checked)), cc e)

renumbered-Preserves :
    (g g' : GraphBody) (keep : List ℕ)
    → All (λ o. o < length g.op) keep
    → renumbered g keep ≡ ok g'
    → Preserves g g'
unfolding renumbered
renumbered-Preserves g g' keep below h =
    let remap = renumbering (length g.op) keep in
    let (out, ra, h1) = >>=-eq-ok (rebuild g remap keep) _ h in
    let (o, ro, h2) = >>=-eq-ok (remapped remap g.output_node) _ h1 in
    let (valid, e) = new-eq_ok (renumbered_body g out o) g' h2 in
    subst (Preserves g) e
      (body-Preserves g keep out o below (rebuild_sound g remap keep out ra) ro valid)

collect_below :
    (g : GraphBody) (flags : List Bool)
    → length flags ≡ length g.op
    → All (λ o. o < length g.op) (collect g.arity 0 0 flags).0
collect_below g flags e =
    All-map (λ o. (k : ℕ) × (k < length flags) × (o ≡ 0 + k) × Kept g.arity 0 flags k)
      (λ o. o < length g.op) (collect g.arity 0 0 flags).0 (λ o h. omega (arith, h.1, h.2, e))
      (collect_sound g.arity 0 0 flags)

compact_from_marks :
    (g g' : GraphBody) (end : List Bool)
    → Validated g
    → marks g ≡ ok end
    → (if (collect g.arity 0 0 end).1 && length (collect g.arity 0 0 end).0 == length g.op
        then ok g
        else renumbered g (collect g.arity 0 0 end).0)
      ≡ ok g'
    → Preserves g g'
compact_from_marks g g' end v m h =
    let kept = collect g.arity 0 0 end in
    let c = marks-Closed g end m in
    elim (Bool-cases (kept.1 && length kept.0 == length g.op)) [
      | inl all ↦
          let e : g ≡ g' = cc (rw all at h) in
          subst (Preserves g) e (whole-Preserves g end v c (ground (arith, all)))
      | inr some ↦ renumbered-Preserves g g' kept.0 (collect_below g end c.sized) (rw some at h)
    ]

-- What the returned graph has to do with the graph.
pub compact_graph_sound : (g g' : GraphBody) → compact_graph g ≡ ok g' → Preserves g g'
unfolding compact_graph
compact_graph_sound g g' h =
    let (_, checked, h1) = >>=-eq-ok (validate g) _ h in
    let (end, m, h2) = >>=-eq-ok (marks g) _ h1 in
    compact_from_marks g g' end (validate-Validated g (ground (arith, checked))) m h2

-- Compaction keeps what a graph computes: each solution of the graph gives a solution of the returned
-- graph, at the same inputs and with the same output.
pub compact_graph_keeps_solutions :
    (g g' : GraphBody) (x v : Valuation)
    → compact_graph g ≡ ok g'
    → Solves g x v
    → (v' : Valuation) × Solves g' x v' × (v' g'.output_node ≡ v g.output_node)
compact_graph_keeps_solutions g g' x v e s = (compact_graph_sound g g' e).solved x v s

-- Whatever graph is compacted with no error, the result is well formed, of its arity and capacity.
pub compact_graph-WellFormed :
    (g g' : GraphBody)
    → compact_graph g ≡ ok g'
    → WellFormed g' × (g'.arity ≡ g.arity) × (g'.capacity ≡ g.capacity)
compact_graph-WellFormed g g' e =
    let p = compact_graph_sound g g' e in (p.well_formed, p.same_arity, p.same_capacity)
