-- ===== src/Whittle/Rules.antt =====
-- crates/gz-engine-whittle/src/rules.rs: how a candidate is applied to a graph. The three arrays that a
-- replacement appends to are those of the graph's copy, so `append_node` works on the copy. The
-- remaining capacity, which the source takes as a signed number, is compared as the sum that must not
-- exceed the capacity.
pub mod Append
pub mod Redirect
pub mod Meaning
use Prim.Native.String.{String}
use graphzero.Base.{
  ℕ, suc, Bool, true, false, ◌&&◌, Option, none, some, List, [], ◌∷◌, ◌++◌, if◌then◌else◌, ◌==◌,
  ltb, leb, length, get_elem?, get_or, take,
}
use graphzero.Base.Result.{Result, ok, err, ◌>>=◌, ◌>>◌, guard}
use graphzero.Whittle.RuleTable.{
  RuleError, RuleId, absorb_and_or, absorb_and_or_inverse, absorb_or_and, absorb_or_and_inverse,
  and_complement, and_complement_inverse, and_false, and_false_inverse, and_idempotent,
  and_idempotent_inverse, and_true, and_true_inverse, associate_and_left, associate_and_right,
  associate_or_left, associate_or_right, bad_match_length, capacity_exceeded, commute_and,
  commute_or, consensus_and_add, consensus_and_remove, consensus_or_add, consensus_or_remove,
  de_morgan_and_nots, de_morgan_not_and, de_morgan_not_or, de_morgan_or_nots, distribute_and_expand,
  distribute_and_factor, distribute_or_expand, distribute_or_factor, double_negation,
  double_negation_inverse, from_u16, graph, invalid_candidate, not_false, not_false_inverse,
  not_true, not_true_inverse, or_complement, or_complement_inverse, or_false, or_false_inverse,
  or_idempotent, or_idempotent_inverse, or_true, or_true_inverse,
}
use graphzero.Whittle.Graph.{
  OpCode, const, and, or, not, output, GraphError, GraphBody, no_node, compact_graph,
}

-- A candidate: the rule's number, the node that it replaces, and the nodes that it matched, of which
-- the first `match_len` count. The rest of the eight is zero.
pub record RawCandidate : Type 0 where
  pub rule_id : ℕ
  pub root : ℕ
  pub match_len : ℕ
  pub matched : List ℕ

abbrev pub matched_at : List ℕ → ℕ → ℕ
matched_at m k = get_or 0 m k

unfoldable pub append_node : OpCode → ℕ → ℕ → GraphBody → ℕ × GraphBody
append_node code a b g = (
  length g.op,
  record g { op = g.op ++ (code ∷ []); arg0 = g.arg0 ++ (a ∷ []); arg1 = g.arg1 ++ (b ∷ []) },
)

-- Two nodes, the second of which takes the first on its left or on its right, or is its negation.
unfoldable pub append_left : OpCode → ℕ → ℕ → OpCode → ℕ → GraphBody → ℕ × GraphBody
unfolding append_node
append_left code a b code' c g =
    let (first, g1) = append_node code a b g in append_node code' first c g1

unfoldable pub append_right : OpCode → ℕ → ℕ → OpCode → ℕ → GraphBody → ℕ × GraphBody
unfolding append_node
append_right code a b code' c g =
    let (first, g1) = append_node code a b g in append_node code' c first g1

-- Two nodes of one gate and a third that joins them.
unfoldable pub append_both : OpCode → ℕ → ℕ → ℕ → ℕ → OpCode → GraphBody → ℕ × GraphBody
unfolding append_node
append_both code a b c d code' g =
    let (first, g1) = append_node code a b g in
    let (second, g2) = append_node code c d g1 in append_node code' first second g2

-- `build_replacement` for a known rule: the node that stands for the root, and the graph with the
-- nodes that it needs.
unfoldable pub replacement : RuleId → ℕ → List ℕ → GraphBody → ℕ × GraphBody
unfolding append_node append_left append_right append_both
replacement and_false root m g = (matched_at m 1, g)
replacement and_true root m g = (matched_at m 2, g)
replacement or_false root m g = (matched_at m 2, g)
replacement or_true root m g = (matched_at m 1, g)
replacement not_false root m g = append_node const 1 no_node g
replacement not_true root m g = append_node const 0 no_node g
replacement and_idempotent root m g = (matched_at m 1, g)
replacement or_idempotent root m g = (matched_at m 1, g)
replacement and_complement root m g = append_node const 0 no_node g
replacement or_complement root m g = append_node const 1 no_node g
replacement double_negation root m g = (matched_at m 2, g)
replacement commute_and root m g = append_node and (matched_at m 2) (matched_at m 1) g
replacement commute_or root m g = append_node or (matched_at m 2) (matched_at m 1) g
replacement associate_and_left root m g =
    append_left and (matched_at m 2) (matched_at m 3) and (matched_at m 4) g
replacement associate_and_right root m g =
    append_right and (matched_at m 3) (matched_at m 4) and (matched_at m 2) g
replacement associate_or_left root m g =
    append_left or (matched_at m 2) (matched_at m 3) or (matched_at m 4) g
replacement associate_or_right root m g =
    append_right or (matched_at m 3) (matched_at m 4) or (matched_at m 2) g
replacement absorb_or_and root m g = (matched_at m 1, g)
replacement absorb_and_or root m g = (matched_at m 1, g)
replacement de_morgan_not_and root m g =
    append_both not (matched_at m 2) no_node (matched_at m 3) no_node or g
replacement de_morgan_not_or root m g =
    append_both not (matched_at m 2) no_node (matched_at m 3) no_node and g
replacement de_morgan_or_nots root m g =
    append_left and (matched_at m 3) (matched_at m 4) not no_node g
replacement de_morgan_and_nots root m g =
    append_left or (matched_at m 3) (matched_at m 4) not no_node g
replacement distribute_or_factor root m g =
    append_right or (matched_at m 4) (matched_at m 5) and (matched_at m 3) g
replacement distribute_or_expand root m g =
    append_both and (matched_at m 2) (matched_at m 3) (matched_at m 2) (matched_at m 4) or g
replacement distribute_and_factor root m g =
    append_right and (matched_at m 4) (matched_at m 5) or (matched_at m 3) g
replacement distribute_and_expand root m g =
    append_both or (matched_at m 2) (matched_at m 3) (matched_at m 2) (matched_at m 4) and g
replacement consensus_or_add root m g = append_right and (matched_at m 4) (matched_at m 5) or root g
replacement consensus_or_remove root m g = (matched_at m 1, g)
replacement consensus_and_add root m g =
    append_right or (matched_at m 4) (matched_at m 5) and root g
replacement consensus_and_remove root m g = (matched_at m 1, g)
replacement and_false_inverse root m g = append_node and (matched_at m 1) root g
replacement and_true_inverse root m g = append_node and root (matched_at m 1) g
replacement or_false_inverse root m g = append_node or root (matched_at m 1) g
replacement or_true_inverse root m g = append_node or (matched_at m 1) root g
replacement not_false_inverse root m g = append_node not (matched_at m 1) no_node g
replacement not_true_inverse root m g = append_node not (matched_at m 1) no_node g
replacement and_idempotent_inverse root m g = append_node and root root g
replacement or_idempotent_inverse root m g = append_node or root root g
replacement and_complement_inverse root m g = append_node and (matched_at m 1) (matched_at m 2) g
replacement or_complement_inverse root m g = append_node or (matched_at m 1) (matched_at m 2) g
replacement double_negation_inverse root m g = append_left not root no_node not no_node g
replacement absorb_or_and_inverse root m g = append_right and root (matched_at m 1) or root g
replacement absorb_and_or_inverse root m g = append_right or root (matched_at m 1) and root g

unfoldable pub build_replacement : RawCandidate → GraphBody → Result RuleError (ℕ × GraphBody)
unfolding from_u16 replacement
build_replacement candidate g = do
  rule ← from_u16 candidate.rule_id
  ok (replacement rule candidate.root candidate.matched g)

-- Whether a gate reads its first and its second argument as nodes.
unfoldable pub reads_first : OpCode → Bool
reads_first and = true
reads_first or = true
reads_first not = true
reads_first output = true
reads_first _ = false

unfoldable pub reads_second : OpCode → Bool
reads_second and = true
reads_second or = true
reads_second _ = false

-- The loop over the nodes `0..old_n`: in those whose gate passes the test, an argument that is the
-- root becomes the replacement. The two arrays of arguments do not depend on one another.
unfoldable pub redirect : (OpCode → Bool) → ℕ → ℕ → ℕ → List OpCode → List ℕ → List ℕ
redirect reads (suc old_n) root node (code ∷ op) (a ∷ args) =
    (if reads code && a == root then node else a) ∷ redirect reads old_n root node op args
redirect reads _ root node op args = args

unfoldable pub redirected : ℕ → ℕ → ℕ → GraphBody → GraphBody
unfolding redirect reads_first reads_second
redirected old_n root node g = record g {
  arg0 = redirect reads_first old_n root node g.op g.arg0;
  arg1 = redirect reads_second old_n root node g.op g.arg1;
}

-- Whether all nodes of a list are nodes of a graph of `n` nodes.
unfoldable pub all_below : ℕ → List ℕ → Bool
all_below n [] = true
all_below n (node ∷ rest) = ltb node n && all_below n rest

unfoldable pub map_err : Result GraphError GraphBody → Result RuleError GraphBody
map_err (ok g) = ok g
map_err (err e) = err (graph e)

unfoldable pub apply_graph : GraphBody → RawCandidate → Result RuleError GraphBody
unfolding all_below build_replacement redirected map_err
apply_graph g candidate = do
  guard (ltb candidate.root (length g.op)) (invalid_candidate "candidate root out of range")
  guard (all_below (length g.op) (take candidate.match_len candidate.matched))
      (invalid_candidate "candidate matched node out of range")
  built ← build_replacement candidate g
  guard (leb (length built.1.op) built.1.capacity) capacity_exceeded
  map_err (compact_graph (redirected (length g.op) candidate.root built.0 built.1))
