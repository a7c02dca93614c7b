-- ===== src/Whittle/Acyclic.antt =====
-- Graphs of crates/gz-engine-whittle without cycles: evaluation from the inputs, and what a rewrite
-- keeps of it.
use graphzero.Base.{
  ℕ, zero, suc, ◌<◌, ◌≤◌, ◌≡◌, sym, ◌∙◌, Bool, false, Option, some, get_elem?, List, [], ◌∷◌,
  length, All, arith,
}
use graphzero.Base.Result.{ok}
use graphzero.Whittle.Graph.{GraphBody, op_at, arg0_at, arg1_at, no_node, children_at}
use graphzero.Whittle.Graph.Meaning.{
  Valuation, node_value, Solves, WellFormed, Preserves, op_value-eq,
}
use graphzero.Whittle.Rules.{RawCandidate, apply_graph}
use graphzero.Whittle.Builder.{enumerate_graph_limited}
use graphzero.Whittle.Enumerate.{candidate-Preserves}

-- The value of a node by evaluation of its children, down to a depth.
unfoldable pub evaluate : ℕ → GraphBody → Valuation → Valuation
evaluate zero g x i = false
evaluate (suc depth) g x i = node_value g x (evaluate depth g x) i

-- Each node stands above its children.
abbrev pub Ranked : GraphBody → (ℕ → ℕ) → Type 0
Ranked g rank = (i : ℕ) → i < length g.op → All (λ c. rank c < rank i) (children_at g i)

-- Two predicates of the children at once.
All-both :
    (P Q R : ℕ → Type 0) (xs : List ℕ)
    → ((c : ℕ) → P c → Q c → R c)
    → All P xs
    → All Q xs
    → All R xs
All-both P Q R [] f p q = tt
All-both P Q R (c ∷ xs) f p q = (f c p.0 q.0, All-both P Q R xs f p.1 q.1)

module _ (g : GraphBody) (rank : ℕ → ℕ) (w : WellFormed g) (ranked : Ranked g rank)
    (x : Valuation) where
  -- The values of the children are known where a solution is known below the rank of the node.
  solution_step :
      (v u : Valuation) (bound i : ℕ)
      → i < length g.op
      → rank i ≤ bound
      → ((c : ℕ) → c < length g.op → rank c < bound → v c ≡ u c)
      → node_value g x v i ≡ node_value g x u i
  solution_step v u bound i l r h = op_value-eq (op_at g i) x v u (arg0_at g i) (arg1_at g i) (
      All-both (λ c. c < length g.op) (λ c. rank c < rank i) (λ c. v c ≡ u c) (children_at g i)
        (λ c p q. h c p (omega (arith, q, r))) (w.in_range i l) (ranked i l))

  -- A solution agrees with evaluation to any depth above the rank.
  solution-evaluate :
      (v : Valuation)
      → Solves g x v
      → (depth i : ℕ) → i < length g.op
      → rank i < depth
      → v i ≡ evaluate depth g x i
  unfolding evaluate
  solution-evaluate v s zero i l r = absurd (omega (arith, r))
  solution-evaluate v s (suc depth) i l r =
      s i l
      ∙ solution_step v (evaluate depth g x) depth i l (omega (arith, r))
          (λ c p q. solution-evaluate v s depth c p q)

  evaluate_deeper :
      (depth depth' i : ℕ)
      → i < length g.op
      → rank i < depth
      → rank i < depth'
      → evaluate depth g x i ≡ evaluate depth' g x i
  unfolding evaluate
  evaluate_deeper zero depth' i l r r' = absurd (omega (arith, r))
  evaluate_deeper (suc depth) zero i l r r' = absurd (omega (arith, r'))
  evaluate_deeper (suc depth) (suc depth') i l r r' =
      solution_step (evaluate depth g x) (evaluate depth' g x) (rank i) i l (omega arith)
        (λ c p q. evaluate_deeper depth depth' c p (omega (arith, q, r)) (omega (arith, q, r')))

  -- Evaluation is a solution.
  evaluate-Solves : Solves g x (λ i. evaluate (suc (rank i)) g x i)
  unfolding evaluate
  evaluate-Solves i l =
      solution_step (evaluate (rank i) g x) (λ c. evaluate (suc (rank c)) g x c) (rank i) i l
        (omega arith) (λ c p q. evaluate_deeper (rank i) (suc (rank c)) c p q (omega arith))

Preserves-evaluate :
    (g g' : GraphBody) (rank rank' : ℕ → ℕ)
    → WellFormed g
    → Ranked g rank
    → Preserves g g'
    → Ranked g' rank'
    → (x : Valuation)
    → evaluate (suc (rank' g'.output_node)) g' x g'.output_node
      ≡ evaluate (suc (rank g.output_node)) g x g.output_node
Preserves-evaluate g g' rank rank' w r p r' x =
    let (v, s, e) =
      p.solved x (λ i. evaluate (suc (rank i)) g x i) (evaluate-Solves g rank w r x) in
    sym (
      solution-evaluate g' rank' p.well_formed r' x v s (suc (rank' g'.output_node)) g'.output_node
        p.well_formed.valid.output_in_range (omega arith))
    ∙ e

-- An enumerated candidate keeps the function of a graph: if the nodes of a well-formed graph stand above
-- their children under some rank, and so do those of the rewritten graph, both outputs evaluate to the
-- same value at all inputs.
pub candidate_computes_same :
    (g g' : GraphBody) (rank rank' : ℕ → ℕ) (include : Bool) (limit : Option ℕ)
    (items : List RawCandidate) (k : ℕ) (c : RawCandidate) (x : Valuation)
    → WellFormed g
    → g.capacity ≤ no_node
    → enumerate_graph_limited g include limit ≡ ok items
    → get_elem? items k ≡ some c
    → apply_graph g c ≡ ok g'
    → Ranked g rank
    → Ranked g' rank'
    → evaluate (suc (rank' g'.output_node)) g' x g'.output_node
      ≡ evaluate (suc (rank g.output_node)) g x g.output_node
candidate_computes_same g g' rank rank' include limit items k c x w small e at applied r r' =
    Preserves-evaluate g g' rank rank' w r
      (candidate-Preserves g g' include limit items k c w small e at applied) r' x
