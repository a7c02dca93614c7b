-- ===== src/Whittle/Graph/Rebuild.antt =====
-- The new arrays of the kept nodes, in `compact_graph` of graph.rs.
use graphzero.Base.{
  ℕ, zero, suc, ◌<◌, ◌≤◌, ◌≡◌, refl, ap, subst, List, [], ◌∷◌, ◌==◌, if◌then◌else◌, length, get_or,
  All, arith,
}
use graphzero.Base.Result.{Result, ok, >>=-eq-ok}
use graphzero.Whittle.Graph.{
  OpCode, input, const, and, or, not, output, GraphError, GraphBody, op_at, arg0_at, arg1_at,
  children_of, no_node, remapped, remapped_args, Arrays, rebuild,
}
use graphzero.Whittle.Graph.Meaning.{Valuation, op_value}
use graphzero.Whittle.Graph.Keep.{Has}
use graphzero.Whittle.Graph.Renumber.{renumbering, remapped_sound, remapped_complete}

abbrev pub args_at : GraphBody → List ℕ → ℕ → Result GraphError (ℕ × ℕ)
args_at g remap o = remapped_args remap (op_at g o) (arg0_at g o) (arg1_at g o)

abbrev put : OpCode → ℕ × ℕ → Arrays → Arrays
put code args rest = record {
  op = code ∷ rest.op;
  arg0 = args.0 ∷ rest.arg0;
  arg1 = args.1 ∷ rest.arg1;
}

rebuild-eq_ok :
    (g : GraphBody) (remap : List ℕ) (old : ℕ) (keep : List ℕ) (out : Arrays)
    → rebuild g remap (old ∷ keep) ≡ ok out
    → (args : ℕ × ℕ) × (rest : Arrays) × (args_at g remap old ≡ ok args)
      × (rebuild g remap keep ≡ ok rest)
      × (put (op_at g old) args rest ≡ out)
unfolding rebuild
rebuild-eq_ok g remap old keep out h =
    let (args, a, h1) = >>=-eq-ok (args_at g remap old) _ h in
    let (rest, r, h2) = >>=-eq-ok (rebuild g remap keep) _ h1 in (args, rest, a, r, cc h2)

-- What the new arrays hold for each kept node.
abbrev pub Rebuilt : GraphBody → List ℕ → List ℕ → Arrays → Type 0
Rebuilt g remap keep out =
    (length out.op ≡ length keep)
    × (length out.arg0 ≡ length keep)
    × (length out.arg1 ≡ length keep)
    × ((k : ℕ)
        → k < length keep
        → (get_or input out.op k ≡ op_at g (get_or 0 keep k))
          × (args_at g remap (get_or 0 keep k) ≡ ok (get_or 0 out.arg0 k, get_or 0 out.arg1 k)))

put-Rebuilt :
    (g : GraphBody) (remap : List ℕ) (old : ℕ) (keep : List ℕ) (args : ℕ × ℕ) (rest : Arrays)
    → args_at g remap old ≡ ok args
    → Rebuilt g remap keep rest
    → Rebuilt g remap (old ∷ keep) (put (op_at g old) args rest)
put-Rebuilt g remap old keep args rest a r = (ap suc r.0, ap suc r.1, ap suc r.2, at_index)
  where
    at_index :
        (k : ℕ)
        → k < length (old ∷ keep)
        → (get_or input (put (op_at g old) args rest).op k ≡ op_at g (get_or 0 (old ∷ keep) k))
          × (args_at g remap (get_or 0 (old ∷ keep) k)
              ≡ ok (
                get_or 0 (put (op_at g old) args rest).arg0 k,
                get_or 0 (put (op_at g old) args rest).arg1 k,
              ))
    at_index zero l = (refl, a)
    at_index (suc k) l = r.3 k (omega (arith, l))

pub rebuild_sound :
    (g : GraphBody) (remap keep : List ℕ) (out : Arrays)
    → rebuild g remap keep ≡ ok out
    → Rebuilt g remap keep out
unfolding rebuild
rebuild_sound g remap [] out h =
    let e : record { op = []; arg0 = []; arg1 = [] } ≡ out = cc h in
    subst (Rebuilt g remap []) e (refl, refl, refl, λ k l. absurd (omega (arith, l)))
rebuild_sound g remap (old ∷ keep) out h =
    let (args, rest, a, r, e) = rebuild-eq_ok g remap old keep out h in
    subst (Rebuilt g remap (old ∷ keep)) e
      (put-Rebuilt g remap old keep args rest a (rebuild_sound g remap keep rest r))

pub rebuild_total :
    (g : GraphBody) (remap keep : List ℕ)
    → All (λ o. (args : ℕ × ℕ) × (args_at g remap o ≡ ok args)) keep
    → (out : Arrays) × (rebuild g remap keep ≡ ok out)
unfolding rebuild
rebuild_total g remap [] h = (record { op = []; arg0 = []; arg1 = [] }, refl)
rebuild_total g remap (old ∷ keep) ((args, a), later) =
    let (rest, r) = rebuild_total g remap keep later in (put (op_at g old) args rest, rw (a, r))

-- A node's new arguments are kept nodes, and the node has the same value from them.
pub remapped_args_sound :
    (n : ℕ) (keep : List ℕ) (code : OpCode) (x v : Valuation) (a b : ℕ) (args : ℕ × ℕ)
    → remapped_args (renumbering n keep) code a b ≡ ok args
    → All (λ c. c < length keep) (children_of code args.0 args.1)
      × (op_value code x (λ k. v (get_or 0 keep k)) args.0 args.1 ≡ op_value code x v a b)
unfolding remapped_args children_of op_value
remapped_args_sound n keep input x v a b args h = (tt, cc h)
remapped_args_sound n keep const x v a b args h = (tt, ground (arith, h))
remapped_args_sound n keep not x v a b args h =
    let (a', e, h') = >>=-eq-ok (remapped (renumbering n keep) a) _ h in
    ground (arith, remapped_sound n keep a a' e, h')
remapped_args_sound n keep output x v a b args h =
    let (a', e, h') = >>=-eq-ok (remapped (renumbering n keep) a) _ h in
    ground (arith, remapped_sound n keep a a' e, h')
remapped_args_sound n keep and x v a b args h =
    let (a', e, h1) = >>=-eq-ok (remapped (renumbering n keep) a) _ h in
    let (b', q, h2) = >>=-eq-ok (remapped (renumbering n keep) b) _ h1 in
    ground (arith, remapped_sound n keep a a' e, remapped_sound n keep b b' q, h2)
remapped_args_sound n keep or x v a b args h =
    let (a', e, h1) = >>=-eq-ok (remapped (renumbering n keep) a) _ h in
    let (b', q, h2) = >>=-eq-ok (remapped (renumbering n keep) b) _ h1 in
    ground (arith, remapped_sound n keep a a' e, remapped_sound n keep b b' q, h2)

pub remapped_args_total :
    (n : ℕ) (keep : List ℕ) (code : OpCode) (a b : ℕ)
    → length keep ≤ no_node
    → All (λ c. (c < n) × Has keep c) (children_of code a b)
    → (args : ℕ × ℕ) × (remapped_args (renumbering n keep) code a b ≡ ok args)
unfolding remapped_args children_of
remapped_args_total n keep input a b l h = ((a, no_node), refl)
remapped_args_total n keep const a b l h = ((if a == 0 then 0 else 1, no_node), refl)
remapped_args_total n keep not a b l h =
    let (a', e) = remapped_complete n keep a h.0.0 l h.0.1 in ((a', no_node), rw e)
remapped_args_total n keep output a b l h =
    let (a', e) = remapped_complete n keep a h.0.0 l h.0.1 in ((a', no_node), rw e)
remapped_args_total n keep and a b l h =
    let (a', e) = remapped_complete n keep a h.0.0 l h.0.1 in
    let (b', q) = remapped_complete n keep b h.1.0.0 l h.1.0.1 in ((a', b'), rw (e, q))
remapped_args_total n keep or a b l h =
    let (a', e) = remapped_complete n keep a h.0.0 l h.0.1 in
    let (b', q) = remapped_complete n keep b h.1.0.0 l h.1.0.1 in ((a', b'), rw (e, q))
