-- ===== src/Whittle/Graph.antt =====
-- crates/gz-engine-whittle/src/graph.rs: a graph of Boolean gates as three parallel arrays, its
-- validation and its compaction. An index past the end of an array is a panic in the source; the
-- reads here stand behind a test of the index, or behind `validate`, so the default of `get_or` is
-- never seen. The head of a list of nodes to visit is the top of the stack.
pub mod Meaning
pub mod Input
pub mod Reach
pub mod Keep
pub mod Renumber
pub mod Rebuild
pub mod Compact
pub mod Total
use Prim.Native.String.{String}
use graphzero.Base.{
  ℕ, zero, suc, ◌+◌, ◌*◌, ◌%◌, u16_mod, Bool, true, false, ◌&&◌, ◌||◌, none, some, List, [], ◌∷◌,
  ◌++◌, if◌then◌else◌, ◌==◌, ltb, leb, length, get_elem?, get_or, set, replicate,
}
use graphzero.Base.Result.{Result, ok, err, ◌>>=◌, ◌>>◌, guard}

pub data OpCode : Type 0 where
  input const and or not output : OpCode

-- `out_of_fuel` is the model's own: the loop of `mark_reachable` was cut off.
pub data GraphError : Type 0 where
  invalid_input : String → GraphError
  bad_op : ℕ → GraphError
  out_of_fuel : GraphError

abbrev pub no_node : ℕ
no_node = 4294967295

pub record GraphBody : Type 0 where
  pub arity : ℕ
  pub capacity : ℕ
  pub output_node : ℕ
  pub op : List OpCode
  pub arg0 : List ℕ
  pub arg1 : List ℕ

abbrev pub op_at : GraphBody → ℕ → OpCode
op_at g i = get_or input g.op i

abbrev pub arg0_at : GraphBody → ℕ → ℕ
arg0_at g i = get_or 0 g.arg0 i

abbrev pub arg1_at : GraphBody → ℕ → ℕ
arg1_at g i = get_or 0 g.arg1 i

unfoldable pub is_input : OpCode → Bool
is_input input = true
is_input _ = false

-- The loop over `i in 0..arity` of `validate`, from `i` for so many rounds.
unfoldable pub inputs_in_place : ℕ → ℕ → GraphBody → Bool
inputs_in_place zero i g = true
inputs_in_place (suc rounds) i g =
    (is_input (op_at g i) && arg0_at g i == i) && inputs_in_place rounds (suc i) g

unfoldable pub validate : GraphBody → Result GraphError (Unit {0})
validate g = do
  guard (ltb 0 (length g.op)) (invalid_input "graph must contain nodes")
  guard (length g.arg0 == length g.op && length g.arg1 == length g.op)
      (invalid_input "graph arrays differ in length")
  guard (leb (length g.op) g.capacity) (invalid_input "capacity below node count")
  guard (ltb g.output_node (length g.op)) (invalid_input "output_node out of range")
  guard (leb g.arity (length g.op)) (invalid_input "arity exceeds node count")
  guard (inputs_in_place g.arity 0 g) (invalid_input "input nodes must occupy ids 0..arity-1")

-- `GraphBody::new`.
unfoldable pub new : GraphBody → Result GraphError GraphBody
new g = do validate g; ok g

-- The numbers from `i`, so many of them.
unfoldable pub numbers_from : ℕ → ℕ → List ℕ
numbers_from i zero = []
numbers_from i (suc rounds) = i ∷ numbers_from (suc i) rounds

-- `GraphBody::input`: the graph whose output is one of its inputs.
unfoldable pub input_body : ℕ → ℕ → ℕ → Result GraphError GraphBody
unfolding numbers_from
input_body arity capacity input_index = do
  guard (ltb 0 arity) (invalid_input "arity must be greater than zero")
  guard (ltb input_index arity) (invalid_input "input_index out of range")
  guard (leb ((arity + 1) % u16_mod) capacity) (invalid_input "capacity too small")
  ok (record {
    arity = arity;
    capacity = capacity;
    output_node = arity;
    op = replicate arity input ++ (output ∷ []);
    arg0 = numbers_from 0 arity ++ (input_index ∷ []);
    arg1 = replicate arity no_node ++ (no_node ∷ []);
  })

-- The arguments of a node that are nodes.
unfoldable pub children_of : OpCode → ℕ → ℕ → List ℕ
children_of input a b = []
children_of const a b = []
children_of not a b = a ∷ []
children_of output a b = a ∷ []
children_of and a b = a ∷ b ∷ []
children_of or a b = a ∷ b ∷ []

abbrev pub children_at : GraphBody → ℕ → List ℕ
children_at g i = children_of (op_at g i) (arg0_at g i) (arg1_at g i)

unfoldable pub children : GraphBody → ℕ → Result GraphError (List ℕ)
children g node =
    if ltb node (length g.op)
    then ok (children_at g node)
    else err (invalid_input "node out of range")

-- `Vec::extend`, the last one on top.
unfoldable pub extend : List ℕ → List ℕ → List ℕ
extend out [] = out
extend out (c ∷ cs) = extend (c ∷ out) cs

unfoldable pub push_children : GraphBody → ℕ → List ℕ → Result GraphError (List ℕ)
unfolding children
push_children g node out = do cs ← children g node; ok (extend out cs)

-- The loop of `compact_graph` over the stack, on fuel. Where the fuel does not last, the error is one
-- that the source does not have.
unfoldable pub mark_reachable : GraphBody → ℕ → List Bool → List ℕ → Result GraphError (List Bool)
mark_reachable g zero reachable [] = ok reachable
mark_reachable g zero reachable (node ∷ stack) = err out_of_fuel
mark_reachable g (suc fuel) reachable [] = ok reachable
mark_reachable g (suc fuel) reachable (node ∷ stack) = elim (ltb node (length g.op)) [
  | false ↦ err (invalid_input "bad node reference")
  | true ↦ elim (get_or false reachable node) [
    | true ↦ mark_reachable g fuel reachable stack
    | false ↦ elim (push_children g node stack) [
      | err e ↦ err e
      | ok next ↦ mark_reachable g fuel (set reachable node true) next
    ]
  ]
]

-- The nodes to keep, from node `i` on with `count` kept before it, and whether each keeps its place.
unfoldable pub collect : ℕ → ℕ → ℕ → List Bool → List ℕ × Bool
collect arity i count [] = ([], true)
collect arity i count (reached ∷ rest) =
    let kept = ltb i arity || reached in
    let (later, identity) = collect arity (suc i) (if kept then suc count else count) rest in
    if kept then (i ∷ later, i == count && identity) else (later, identity)

-- `remap[old] = new` for the kept nodes, numbered from `new`.
unfoldable pub renumber : ℕ → List ℕ → List ℕ → List ℕ
renumber new remap [] = remap
renumber new remap (old ∷ keep) = renumber (suc new) (set remap old new) keep

unfoldable pub remapped : List ℕ → ℕ → Result GraphError ℕ
remapped remap node = elim (get_elem? remap node) [
  | none ↦ err (invalid_input "bad node reference")
  | some mapped ↦
      if mapped == no_node then err (invalid_input "unreachable child reference") else ok mapped
]

-- The new arguments of one kept node.
unfoldable pub remapped_args : List ℕ → OpCode → ℕ → ℕ → Result GraphError (ℕ × ℕ)
unfolding remapped
remapped_args remap input a b = ok (a, no_node)
remapped_args remap const a b = ok (if a == 0 then 0 else 1, no_node)
remapped_args remap not a b = do a' ← remapped remap a; ok (a', no_node)
remapped_args remap output a b = do a' ← remapped remap a; ok (a', no_node)
remapped_args remap and a b = do a' ← remapped remap a; b' ← remapped remap b; ok (a', b')
remapped_args remap or a b = do a' ← remapped remap a; b' ← remapped remap b; ok (a', b')

pub record Arrays : Type 0 where
  pub op : List OpCode
  pub arg0 : List ℕ
  pub arg1 : List ℕ

-- The loop over the kept nodes that fills the new arrays.
unfoldable pub rebuild : GraphBody → List ℕ → List ℕ → Result GraphError Arrays
rebuild g remap [] = ok (record { op = []; arg0 = []; arg1 = [] })
rebuild g remap (old ∷ keep) = do
  args ← remapped_args remap (op_at g old) (arg0_at g old) (arg1_at g old)
  rest ← rebuild g remap keep
  ok (record { op = op_at g old ∷ rest.op; arg0 = args.0 ∷ rest.arg0; arg1 = args.1 ∷ rest.arg1 })

-- The part of `compact_graph` after the early return for a graph that keeps all its nodes.
unfoldable pub renumbered : GraphBody → List ℕ → Result GraphError GraphBody
unfolding renumber remapped new
renumbered g keep =
    let remap = renumber 0 (replicate (length g.op) no_node) keep in
    do
      arrays ← rebuild g remap keep
      output_node ← remapped remap g.output_node
      new (record g {
        output_node = output_node;
        op = arrays.op;
        arg0 = arrays.arg0;
        arg1 = arrays.arg1;
      })

-- Each round takes a node off the stack, and a node puts its two children on it at most once.
abbrev pub compact_fuel : GraphBody → ℕ
compact_fuel g = suc (2 * length g.op)

unfoldable pub compact_graph : GraphBody → Result GraphError GraphBody
unfolding validate
compact_graph g = do
  validate g
  marked ← mark_reachable g (compact_fuel g) (replicate (length g.op) false) (g.output_node ∷ [])
  let kept = collect g.arity 0 0 marked
  if kept.1 && length kept.0 == length g.op then ok g else renumbered g kept.0
