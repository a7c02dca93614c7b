-- ===== src/Whittle/Builder.antt =====
-- crates/gz-engine-whittle/src/rules.rs: the builder that collects candidates, and the two loops of
-- `enumerate_graph_limited`. The set `seen` is the list of its keys.
use graphzero.Base.{
  ℕ, zero, suc, ◌+◌, Bool, true, false, not, ◌&&◌, ◌||◌, Option, none, some, List, [], ◌∷◌, ◌++◌,
  if◌then◌else◌, ltb, leb, length,
}
use graphzero.Base.Bytes.{same}
use graphzero.Base.Result.{Result, ok, err, ◌>>=◌}
use graphzero.Whittle.Graph.{GraphBody}
use graphzero.Whittle.RuleTable.{
  RuleError, as_u16, reverse_constant_folding_rule, replacement_extra_nodes, bad_match_length,
}
use graphzero.Whittle.Rules.{RawCandidate}
use graphzero.Whittle.Candidates.{Request, forward_requests, inverse_requests}

-- The remaining capacity is the capacity less the number of nodes, which stand here apart.
pub record Builder : Type 0 where
  pub include_reverse_constant_folding : Bool
  pub capacity : ℕ
  pub nodes : ℕ
  pub limit : Option ℕ
  pub items : List RawCandidate
  pub seen : List (List ℕ)

unfoldable pub is_full : Builder → Bool
is_full b = elim b.limit [ none ↦ false | some limit ↦ leb limit (length b.items) ]

-- A list cut or filled up with zeros to a length.
unfoldable pub padded : ℕ → List ℕ → List ℕ
padded zero xs = []
padded (suc n) [] = 0 ∷ padded n []
padded (suc n) (x ∷ xs) = x ∷ padded n xs

abbrev pub max_matched : ℕ
max_matched = 8

abbrev pub candidate_of : Request → RawCandidate
candidate_of r = record {
  rule_id = as_u16 r.rule;
  root = r.root;
  match_len = length r.rest + 1;
  matched = padded max_matched (r.root ∷ r.rest);
}

unfoldable pub candidate_key : RawCandidate → List ℕ
candidate_key c = c.rule_id ∷ c.root ∷ c.match_len ∷ c.matched

unfoldable pub contains_key : List ℕ → List (List ℕ) → Bool
contains_key key [] = false
contains_key key (old ∷ seen) = same old key || contains_key key seen

unfoldable pub push : Builder → RawCandidate → Builder
unfolding candidate_key contains_key
push b c =
    if contains_key (candidate_key c) b.seen
    then b
    else record b { items = b.items ++ (c ∷ []); seen = candidate_key c ∷ b.seen }

unfoldable pub add : Builder → Request → Result RuleError Builder
unfolding is_full padded push
add b r =
    if is_full b
    then ok b
    else (if not b.include_reverse_constant_folding && reverse_constant_folding_rule r.rule
        then ok b
        else (if ltb b.capacity (b.nodes + replacement_extra_nodes r.rule)
            then ok b
            else (if ltb max_matched (length r.rest + 1)
                then err bad_match_length
                else ok (push b (candidate_of r)))))

unfoldable pub add_all : Builder → List Request → Result RuleError Builder
unfolding add
add_all b [] = ok b
add_all b (r ∷ rest) = do b' ← add b r; add_all b' rest

-- A loop over the roots, from `root` for so many nodes.
unfoldable pub add_roots : (ℕ → List Request) → ℕ → ℕ → Builder → Result RuleError Builder
unfolding is_full add_all
add_roots requests zero root b = ok b
add_roots requests (suc rounds) root b = elim (is_full b) [
  | true ↦ ok b
  | false ↦ elim (add_all b (requests root)) [
    | err e ↦ err e
    | ok b' ↦ add_roots requests rounds (suc root) b'
  ]
]

unfoldable pub enumerate_graph_limited :
    GraphBody → Bool → Option ℕ → Result RuleError (List RawCandidate)
unfolding add_roots forward_requests inverse_requests
enumerate_graph_limited g include limit = do
  b ← add_roots (forward_requests g) (length g.op) 0 (record {
    include_reverse_constant_folding = include;
    capacity = g.capacity;
    nodes = length g.op;
    limit = limit;
    items = [];
    seen = [];
  })
  b' ← add_roots (inverse_requests g) (length g.op) 0 b
  ok b'.items

unfoldable pub enumerate_graph : GraphBody → Bool → Result RuleError (List RawCandidate)
unfolding enumerate_graph_limited
enumerate_graph g include = enumerate_graph_limited g include none
