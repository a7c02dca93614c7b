-- ===== src/Whittle/Graph/Total.antt =====
-- A well-formed graph is compacted with no error.
use native.Mathlib.Nat.{zero-add}
use graphzero.Base.{
  ℕ, ◌+◌, ◌<◌, ◌≤◌, ◌≡◌, refl, ap, ◌∙◌, subst, inl, inr, Bool, true, false, ◌&&◌, List, [], ◌∷◌,
  ◌==◌, length, get_or, All-map, length-replicate, Bool-cases, arith,
}
use graphzero.Base.Result.{ok}
use graphzero.Whittle.Graph.{
  OpCode, input, GraphBody, op_at, arg0_at, arg1_at, is_input, children_at, no_node, new, collect,
  remapped, remapped_args, Arrays, renumbered, compact_fuel, compact_graph,
}
use graphzero.Whittle.Graph.Meaning.{Validated, WellFormed, Validated-validate}
use graphzero.Whittle.Graph.Reach.{Marked, mark_reachable_total, unmarked-replicate}
use graphzero.Whittle.Graph.Keep.{
  Has, Kept, collect_sound, collect_complete, collect_inputs, collect_inputs_within, length-collect,
}
use graphzero.Whittle.Graph.Renumber.{renumbering, remapped_sound, remapped_complete}
use graphzero.Whittle.Graph.Rebuild.{
  Rebuilt, args_at, rebuild_sound, rebuild_total, remapped_args_total,
}
use graphzero.Whittle.Graph.Compact.{blank, Closed, marks-Closed, Kept-children, renumbered_body}

input_args :
    (remap : List ℕ) (code : OpCode) (a b : ℕ) (args : ℕ × ℕ)
    → is_input code ≡ true
    → remapped_args remap code a b ≡ ok args
    → args.0 ≡ a
unfolding is_input remapped_args
input_args remap input a b args i h = cc
input_args remap _ a b args i h = cc

section_inputs :
    (g : GraphBody) (flags : List Bool) (out : Arrays)
    → Validated g
    → length flags ≡ length g.op
    → Rebuilt g
        (renumbering (length g.op) (collect g.arity 0 0 flags).0)
        (collect g.arity 0 0 flags).0
        out
    → (i : ℕ) → i < g.arity
    → (is_input (get_or input out.op i) ≡ true) × (get_or 0 out.arg0 i ≡ i)
section_inputs g flags out v e r i l =
    let keep = (collect g.arity 0 0 flags).0 in
    let here : get_or 0 keep i ≡ i =
      collect_inputs g.arity 0 0 flags i (omega (arith, l, e, v.arity_in_range)) (omega (arith, l))
      ∙ zero-add i in
    let within : i < length keep = omega (
      arith,
      l,
      collect_inputs_within g.arity 0 0 flags g.arity (omega arith)
          (omega (arith, e, v.arity_in_range)),
    ) in
    let is : is_input (op_at g (get_or 0 keep i)) ≡ true = rw here (v.inputs i l).0 in
    (
      rw (r.3 i within).0 is,
      input_args (renumbering (length g.op) keep) (op_at g (get_or 0 keep i))
            (arg0_at g (get_or 0 keep i)) (arg1_at g (get_or 0 keep i))
            (get_or 0 out.arg0 i, get_or 0 out.arg1 i) is (r.3 i within).1
          ∙ ap (arg0_at g) here
          ∙ (v.inputs i l).1,
    )

-- The new arrays of the kept nodes make a graph that passes `validate`.
renumbered_body-Validated :
    (g : GraphBody) (flags : List Bool) (out : Arrays) (o : ℕ)
    → Validated g
    → length flags ≡ length g.op
    → Rebuilt g
        (renumbering (length g.op) (collect g.arity 0 0 flags).0)
        (collect g.arity 0 0 flags).0
        out
    → remapped (renumbering (length g.op) (collect g.arity 0 0 flags).0) g.output_node ≡ ok o
    → Validated (renumbered_body g out o)
renumbered_body-Validated g flags out o v e r ro =
    let keep = (collect g.arity 0 0 flags).0 in
    record {
      arg0_sized = omega (arith, r.0, r.1);
      arg1_sized = omega (arith, r.0, r.2);
      fits = omega (arith, r.0, v.fits, e, length-collect g.arity 0 0 flags);
      output_in_range =
          omega (arith, r.0, (remapped_sound (length g.op) keep g.output_node o ro).0);
      arity_in_range = omega (
        arith,
        r.0,
        collect_inputs_within g.arity 0 0 flags g.arity (omega arith)
            (omega (arith, e, v.arity_in_range)),
      );
      inputs = section_inputs g flags out v e r;
    }

Kept-args_total :
    (g : GraphBody) (flags : List Bool)
    → Validated g
    → g.capacity ≤ no_node
    → Closed g flags
    → (o k : ℕ) → o ≡ 0 + k
    → Kept g.arity 0 flags k
    → (args : ℕ × ℕ) × (args_at g (renumbering (length g.op) (collect g.arity 0 0 flags).0) o
        ≡ ok args)
Kept-args_total g flags v room c o k e kept =
    let keep = (collect g.arity 0 0 flags).0 in
    let same : k ≡ o = omega (arith, e) in
    remapped_args_total (length g.op) keep (op_at g o) (arg0_at g o) (arg1_at g o)
      (omega (arith, room, v.fits, c.sized, length-collect g.arity 0 0 flags))
      (All-map (λ (j : ℕ). (j < length g.op) × Marked flags j)
        (λ (j : ℕ). (j < length g.op) × Has keep j) (children_at g o)
        (λ j h. (
          h.0,
          subst (Has keep) (zero-add j)
              (collect_complete g.arity 0 0 flags j (omega (arith, h.0, c.sized)) (inr h.1)),
        ))
        (Kept-children g flags v c o (subst (Kept g.arity 0 flags) same kept)))

renumbered_total :
    (g : GraphBody) (flags : List Bool)
    → Validated g
    → g.capacity ≤ no_node
    → Closed g flags
    → (g' : GraphBody) × (renumbered g (collect g.arity 0 0 flags).0 ≡ ok g')
unfolding renumbered new
renumbered_total g flags v room c =
    let n = length g.op in
    let keep = (collect g.arity 0 0 flags).0 in
    let remap = renumbering n keep in
    let (out, ra) = rebuild_total g remap keep (
      All-map (λ (o : ℕ). (k : ℕ) × (k < length flags) × (o ≡ 0 + k) × Kept g.arity 0 flags k)
        (λ (o : ℕ). (args : ℕ × ℕ) × (args_at g remap o ≡ ok args)) keep
        (λ o h. Kept-args_total g flags v room c o h.0 h.2 h.3)
        (collect_sound g.arity 0 0 flags)) in
    let (o, ro) =
      remapped_complete n keep g.output_node v.output_in_range
        (omega (arith, room, v.fits, c.sized, length-collect g.arity 0 0 flags))
        (subst (Has keep) (zero-add g.output_node) (
          collect_complete g.arity 0 0 flags g.output_node
            (omega (arith, v.output_in_range, c.sized)) (inr c.from_output))) in
    let valid =
      renumbered_body-Validated g flags out o v c.sized (rebuild_sound g remap keep out ra) ro in
    (renumbered_body g out o, rw (ra, ro, Validated-validate (renumbered_body g out o) valid) refl)

-- A well-formed graph is compacted with no error, if its capacity is at most the mark for no node: the
-- loop that marks nodes has emptied its stack before its fuel ends, which would be an error.
pub compact_graph_total :
    (g : GraphBody)
    → WellFormed g
    → g.capacity ≤ no_node
    → (g' : GraphBody) × (compact_graph g ≡ ok g')
unfolding compact_graph
compact_graph_total g w room =
    let (end, m) =
      mark_reachable_total g (compact_fuel g) (blank g) (g.output_node ∷ []) w.in_range
        (w.valid.output_in_range, tt) (length-replicate (length g.op) false)
        (omega (arith, unmarked-replicate (length g.op))) in
    let (g', r) = renumbered_total g end w.valid room (marks-Closed g end m) in
    let kept = collect g.arity 0 0 end in
    elim (Bool-cases (kept.1 && length kept.0 == length g.op)) [
      | inl all ↦ (g, rw (Validated-validate g w.valid, m, all) refl)
      | inr some ↦ (g', rw (Validated-validate g w.valid, m, some) r)
    ]
