-- ===== src/Whittle/Rules/Redirect.antt =====
-- The old nodes of rules.rs that read the root of a rewrite, turned to its replacement.
use graphzero.Base.{
  ℕ, zero, suc, ◌+◌, ◌<◌, ◌≤◌, ◌≡◌, refl, ap, sym, ◌∙◌, ◌⊎◌, inl, inr, Bool, true, false, ◌&&◌,
  List, [], ◌∷◌, ◌==◌, if◌then◌else◌, ltb, ltb→lt, length, get_or, All, Bool-cases, ==→eq, arith,
}
use graphzero.Base as Base
use graphzero.Whittle.Graph.{
  OpCode, input, const, and, or, not, output, GraphBody, op_at, arg0_at, arg1_at, is_input,
  children_of, children_at,
}
use graphzero.Whittle.Graph.Meaning.{Valuation, op_value, Solves, Validated, WellFormed}
use graphzero.Whittle.Rules.{reads_first, reads_second, redirect, redirected}
use graphzero.Whittle.Rules.Append.{Extends}

-- The argument that a node has in the end.
abbrev turned : (OpCode → Bool) → ℕ → ℕ → OpCode → ℕ → ℕ
turned reads root node code a = if reads code && a == root then node else a

reads_first_input : (code : OpCode) → is_input code ≡ true → reads_first code ≡ false
unfolding is_input reads_first
reads_first_input input h = refl
reads_first_input _ h = cc

length-redirect :
    (reads : OpCode → Bool) (old_n root node : ℕ) (op : List OpCode) (args : List ℕ)
    → length (redirect reads old_n root node op args) ≡ length args
unfolding redirect
length-redirect reads zero root node op args = refl
length-redirect reads (suc old_n) root node [] args = refl
length-redirect reads (suc old_n) root node (code ∷ op) [] = refl
length-redirect reads (suc old_n) root node (code ∷ op) (a ∷ args) =
    ap suc (length-redirect reads old_n root node op args)

redirect_old :
    (reads : OpCode → Bool) (old_n root node : ℕ) (op : List OpCode) (args : List ℕ) (i : ℕ)
    → i < old_n
    → i < length op
    → i < length args
    → get_or 0 (redirect reads old_n root node op args) i
      ≡ turned reads root node (get_or input op i) (get_or 0 args i)
unfolding redirect
redirect_old reads zero root node op args i l p q = absurd (omega (arith, l))
redirect_old reads (suc old_n) root node [] args i l p q = absurd (omega (arith, p))
redirect_old reads (suc old_n) root node (code ∷ op) [] i l p q = absurd (omega (arith, q))
redirect_old reads (suc old_n) root node (code ∷ op) (a ∷ args) zero l p q = refl
redirect_old reads (suc old_n) root node (code ∷ op) (a ∷ args) (suc i) l p q =
    redirect_old reads old_n root node op args i (omega (arith, l)) (omega (arith, p))
      (omega (arith, q))

redirect_new :
    (reads : OpCode → Bool) (old_n root node : ℕ) (op : List OpCode) (args : List ℕ) (i : ℕ)
    → old_n ≤ i
    → get_or 0 (redirect reads old_n root node op args) i ≡ get_or 0 args i
unfolding redirect
redirect_new reads zero root node op args i l = refl
redirect_new reads (suc old_n) root node [] args i l = refl
redirect_new reads (suc old_n) root node (code ∷ op) [] i l = refl
redirect_new reads (suc old_n) root node (code ∷ op) (a ∷ args) zero l = absurd (omega (arith, l))
redirect_new reads (suc old_n) root node (code ∷ op) (a ∷ args) (suc i) l =
    redirect_new reads old_n root node op args i (omega (arith, l))

-- Turning an argument from a root to a node of the same value.
abbrev Turn : Valuation → Valuation → ℕ → ℕ → ℕ → ℕ → Type 0
Turn v w root node n n' = (n ≤ n') × (node < n') × (w node ≡ v root) × ((c : ℕ) → c < n → w c ≡ v c)

turned_arg :
    (v w : Valuation) (root node a n n' : ℕ)
    → Turn v w root node n n'
    → a < n
    → (w (if a == root then node else a) ≡ v a) × ((if a == root then node else a) < n')
turned_arg v w root node a n n' (le, lt, same, old) l = elim (Bool-cases (a == root)) [
  | inl e ↦ rw e (same ∙ ap v (sym (==→eq a root e)), lt)
  | inr e ↦ rw e (old a l, omega (arith, l, le))
]

-- A gate has the same value, and its children are nodes, after its arguments are turned.
turned_value :
    (code : OpCode) (x v w : Valuation) (root node a b n n' : ℕ)
    → Turn v w root node n n'
    → All (λ c. c < n) (children_of code a b)
    → (op_value code x w
          (turned reads_first root node code a)
          (turned reads_second root node code b)
        ≡ op_value code x v a b)
      × All
          (λ c. c < n')
          (children_of code
            (turned reads_first root node code a)
            (turned reads_second root node code b))
unfolding op_value children_of reads_first reads_second
turned_value input x v w root node a b n n' t h = (refl, tt)
turned_value const x v w root node a b n n' t h = (refl, tt)
turned_value not x v w root node a b n n' t h =
    let (e, l) = turned_arg v w root node a n n' t h.0 in (ap Base.not e, (l, tt))
turned_value output x v w root node a b n n' t h =
    let (e, l) = turned_arg v w root node a n n' t h.0 in (e, (l, tt))
turned_value and x v w root node a b n n' t h =
    let (e, l) = turned_arg v w root node a n n' t h.0 in
    let (e', l') = turned_arg v w root node b n n' t h.1.0 in (rw (e, e') refl, (l, (l', tt)))
turned_value or x v w root node a b n n' t h =
    let (e, l) = turned_arg v w root node a n n' t h.0 in
    let (e', l') = turned_arg v w root node b n n' t h.1.0 in (rw (e, e') refl, (l, (l', tt)))

-- A graph `g0`, one that extends it with a node of the root's value, and what `redirected` makes.
module _ (g0 g : GraphBody) (x v0 : Valuation) (root node : ℕ) where
  module _ (w0 : WellFormed g0) (v : Valuation) (e : Extends g0 x v0 g v)
      (within : node < length g.op) where
    -- The arguments of an old node, and of a new one.
    redirected_old :
        (i : ℕ)
        → i < length g0.op
        → (arg0_at (redirected (length g0.op) root node g) i
            ≡ turned reads_first root node (op_at g0 i) (arg0_at g0 i))
          × (arg1_at (redirected (length g0.op) root node g) i
              ≡ turned reads_second root node (op_at g0 i) (arg1_at g0 i))
    unfolding redirected
    redirected_old i k =
        let (p, q, r, _) = e.old_node i k in
        let l : i < length g.op = omega (arith, k, e.longer) in
        (
          redirect_old reads_first (length g0.op) root node g.op g.arg0 i k l
                (omega (arith, l, e.arg0_sized))
              ∙ rw (p, q) refl,
          redirect_old reads_second (length g0.op) root node g.op g.arg1 i k l
                (omega (arith, l, e.arg1_sized))
              ∙ rw (p, r) refl,
        )

    redirected_new :
        (i : ℕ)
        → length g0.op ≤ i
        → (arg0_at (redirected (length g0.op) root node g) i ≡ arg0_at g i)
          × (arg1_at (redirected (length g0.op) root node g) i ≡ arg1_at g i)
    unfolding redirected
    redirected_new i k = (
      redirect_new reads_first (length g0.op) root node g.op g.arg0 i k,
      redirect_new reads_second (length g0.op) root node g.op g.arg1 i k,
    )

    pub redirected_range :
        (i : ℕ)
        → i < length g.op
        → All (λ c. c < length g.op) (children_at (redirected (length g0.op) root node g) i)
    redirected_range i l = elim (Bool-cases (ltb i (length g0.op))) [
      | inl lt ↦
          let k = ltb→lt i (length g0.op) lt in
          let (first, second) = redirected_old i k in
          let always : Valuation = λ _. true in
          unfold redirected in
          rw (first, second, (e.old_node i k).0)
            (turned_value (op_at g0 i) x always always root node (arg0_at g0 i) (arg1_at g0 i)
              (length g0.op) (length g.op) (e.longer, within, refl, λ c l'. refl)
              (w0.in_range i k)).1
      | inr ge ↦
          let k : length g0.op ≤ i = ground (arith, ge) in
          let (first, second) = redirected_new i k in
          unfold redirected in rw (first, second) (e.new_node i k l).1
    ]

    pub redirected-Solves :
        v node ≡ v0 root → Solves g0 x v0 → Solves (redirected (length g0.op) root node g) x v
    redirected-Solves same solved i l = elim (Bool-cases (ltb i (length g0.op))) [
      | inl lt ↦
          let k = ltb→lt i (length g0.op) lt in
          let (first, second) = redirected_old i k in
          let value =
            (turned_value (op_at g0 i) x v0 v root node (arg0_at g0 i) (arg1_at g0 i) (length g0.op)
              (length g.op) (e.longer, within, same, λ c l'. (e.old_node c l').3)
              (w0.in_range i k)).0 in
          unfold redirected in
          rw (first, second, (e.old_node i k).0) ((e.old_node i k).3 ∙ solved i k ∙ sym value)
      | inr ge ↦
          let k : length g0.op ≤ i = ground (arith, ge) in
          let (first, second) = redirected_new i k in
          unfold redirected in rw (first, second) (e.new_node i k (unfold redirected in l)).0
    ]

    pub redirected-Validated :
        length g.op ≤ g.capacity → Validated (redirected (length g0.op) root node g)
    unfolding redirected
    redirected-Validated room =
        let n = length g0.op in
        record {
          arg0_sized = length-redirect reads_first n root node g.op g.arg0 ∙ e.arg0_sized;
          arg1_sized = length-redirect reads_second n root node g.op g.arg1 ∙ e.arg1_sized;
          fits = room;
          output_in_range = omega (arith, e.same_output, e.longer, w0.valid.output_in_range);
          arity_in_range = omega (arith, e.same_arity, e.longer, w0.valid.arity_in_range);
          inputs = λ i l.
              let (is, at) = w0.valid.inputs i (omega (arith, l, e.same_arity)) in
              let k : i < n = omega (arith, l, e.same_arity, w0.valid.arity_in_range) in
              let (p, q, _, _) = e.old_node i k in
              (
                rw p is,
                redirect_old reads_first n root node g.op g.arg0 i k (omega (arith, k, e.longer))
                      (omega (arith, k, e.longer, e.arg0_sized))
                    ∙ rw (p, reads_first_input (op_at g0 i) is) (q ∙ at),
              );
        }
