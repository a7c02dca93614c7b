-- ===== src/Whittle/Rules/Append.antt =====
-- The nodes that a replacement of rules.rs appends to a graph, and their values.
use graphzero.Base.{
  ℕ, suc, ◌+◌, ◌<◌, ◌≤◌, ◌≡◌, refl, ap, sym, ◌∙◌, inl, inr, Bool, [], ◌∷◌, ◌++◌, ◌==◌,
  if◌then◌else◌, length, get_or, length-append, get_or-append, get_or-append_last, All, All-map,
  Bool-cases, ==→eq, arith,
}
use graphzero.Whittle.Graph.{
  OpCode, input, GraphBody, op_at, arg0_at, arg1_at, children_of, children_at,
}
use graphzero.Whittle.Graph.Meaning.{Valuation, op_value, node_value, op_value-eq}
use graphzero.Whittle.Rules.{append_node}

-- A valuation with one more value.
abbrev pub after : ℕ → Bool → Valuation → Valuation
after node value v i = if i == node then value else v i

pub after_self : (node : ℕ) (value : Bool) (v : Valuation) → after node value v node ≡ value
after_self node value v = ground arith

pub after_old :
    (node : ℕ) (value : Bool) (v : Valuation) (i : ℕ) → i < node → after node value v i ≡ v i
after_old node value v i l = ground (arith, l)

pub length-append_node :
    (code : OpCode) (a b : ℕ) (g : GraphBody)
    → length (append_node code a b g).1.op ≡ suc (length g.op)
unfolding append_node
length-append_node code a b g = omega (arith, length-append g.op (code ∷ []))

-- What `append_node` leaves at a node that was there.
append_old :
    (code : OpCode) (a b : ℕ) (g : GraphBody) (i : ℕ)
    → length g.arg0 ≡ length g.op
    → length g.arg1 ≡ length g.op
    → i < length g.op
    → (op_at (append_node code a b g).1 i ≡ op_at g i)
      × (arg0_at (append_node code a b g).1 i ≡ arg0_at g i)
      × (arg1_at (append_node code a b g).1 i ≡ arg1_at g i)
unfolding append_node
append_old code a b g i e f l = (
  get_or-append input g.op (code ∷ []) i l,
  get_or-append 0 g.arg0 (a ∷ []) i (omega (arith, l, e)),
  get_or-append 0 g.arg1 (b ∷ []) i (omega (arith, l, f)),
)

append_last :
    (code : OpCode) (a b : ℕ) (g : GraphBody)
    → length g.arg0 ≡ length g.op
    → length g.arg1 ≡ length g.op
    → (op_at (append_node code a b g).1 (length g.op) ≡ code)
      × (arg0_at (append_node code a b g).1 (length g.op) ≡ a)
      × (arg1_at (append_node code a b g).1 (length g.op) ≡ b)
unfolding append_node
append_last code a b g e f = (
  get_or-append_last input g.op code,
  ap (get_or 0 (g.arg0 ++ (a ∷ []))) (sym e) ∙ get_or-append_last 0 g.arg0 a,
  ap (get_or 0 (g.arg1 ++ (b ∷ []))) (sym f) ∙ get_or-append_last 0 g.arg1 b,
)

module _ (g0 : GraphBody) (x v0 : Valuation) where
  -- A graph with more nodes than `g0`, whose values follow from those of the old nodes.
  pub record Extends (g : GraphBody) (v : Valuation) : Type 0 where
    pub longer : length g0.op ≤ length g.op
    pub arg0_sized : length g.arg0 ≡ length g.op
    pub arg1_sized : length g.arg1 ≡ length g.op
    pub same_arity : g.arity ≡ g0.arity
    pub same_capacity : g.capacity ≡ g0.capacity
    pub same_output : g.output_node ≡ g0.output_node
    pub old_node :
        (i : ℕ)
        → i < length g0.op
        → (op_at g i ≡ op_at g0 i)
          × (arg0_at g i ≡ arg0_at g0 i)
          × (arg1_at g i ≡ arg1_at g0 i)
          × (v i ≡ v0 i)
    pub new_node :
        (i : ℕ)
        → length g0.op ≤ i
        → i < length g.op
        → (v i ≡ node_value g x v i) × All (λ c. c < length g.op) (children_at g i)

  pub Extends-self : length g0.arg0 ≡ length g0.op → length g0.arg1 ≡ length g0.op → Extends g0 v0
  Extends-self e f = record {
    longer = omega arith;
    arg0_sized = e;
    arg1_sized = f;
    same_arity = refl;
    same_capacity = refl;
    same_output = refl;
    old_node = λ i l. (refl, refl, refl, refl);
    new_node = λ i l u. absurd (omega (arith, l, u));
  }

  -- The children of a gate keep their values where one more node gets a value.
  pub op_value-after :
      (code : OpCode) (v : Valuation) (a b node : ℕ) (value : Bool)
      → All (λ c. c < node) (children_of code a b)
      → op_value code x v a b ≡ op_value code x (after node value v) a b
  op_value-after code v a b node value h = op_value-eq code x v (after node value v) a b (
      All-map (λ c. c < node) (λ c. v c ≡ after node value v c) (children_of code a b)
        (λ c l. sym (after_old node value v c l)) h)

  append_new :
      (code : OpCode) (a b : ℕ) (g : GraphBody) (v : Valuation)
      → Extends g v
      → All (λ c. c < length g.op) (children_of code a b)
      → (i : ℕ) → length g0.op ≤ i
      → i < suc (length g.op)
      → (after (length g.op) (op_value code x v a b) v i
          ≡ node_value
              (append_node code a b g).1
              x
              (after (length g.op) (op_value code x v a b) v)
              i)
        × All (λ c. c < suc (length g.op)) (children_at (append_node code a b g).1 i)
  append_new code a b g v e h i l u =
      let n = length g.op in
      let value = op_value code x v a b in
      elim (Bool-cases (i == n)) [
        | inl last ↦
            let (p, q, r) = append_last code a b g e.arg0_sized e.arg1_sized in
            rw (==→eq i n last) (
              after_self n value v ∙ op_value-after code v a b n value h ∙ rw (p, q, r) refl,
              rw (p, q, r)
                  (All-map (λ c. c < n) (λ c. c < suc n) (children_of code a b)
                    (λ c k. omega (arith, k)) h),
            )
        | inr old ↦
            let k : i < n = ground (arith, u, old) in
            let (p, q, r) = append_old code a b g i e.arg0_sized e.arg1_sized k in
            let (s, t) = e.new_node i l k in
            (
              after_old n value v i k
                  ∙ s
                  ∙ op_value-after (op_at g i) v (arg0_at g i) (arg1_at g i) n value t
                  ∙ rw (p, q, r) refl,
              rw (p, q, r)
                  (All-map (λ c. c < n) (λ c. c < suc n) (children_at g i) (λ c k. omega (arith, k))
                    t),
            )
      ]

  pub append_node-Extends :
      (code : OpCode) (a b : ℕ) (g : GraphBody) (v : Valuation)
      → Extends g v
      → All (λ c. c < length g.op) (children_of code a b)
      → Extends (append_node code a b g).1 (after (length g.op) (op_value code x v a b) v)
  append_node-Extends code a b g v e h =
      let n = length-append_node code a b g in
      record {
        longer = omega (arith, n, e.longer);
        arg0_sized =
            unfold append_node in
            omega
              (arith, length-append g.arg0 (a ∷ []), length-append g.op (code ∷ []), e.arg0_sized);
        arg1_sized =
            unfold append_node in
            omega
              (arith, length-append g.arg1 (b ∷ []), length-append g.op (code ∷ []), e.arg1_sized);
        same_arity = unfold append_node in e.same_arity;
        same_capacity = unfold append_node in e.same_capacity;
        same_output = unfold append_node in e.same_output;
        old_node = λ i l.
            let k : i < length g.op = omega (arith, l, e.longer) in
            let (p, q, r) = append_old code a b g i e.arg0_sized e.arg1_sized k in
            let (p', q', r', s) = e.old_node i l in
            (p ∙ p', q ∙ q', r ∙ r', after_old (length g.op) (op_value code x v a b) v i k ∙ s);
        new_node = λ i l u. rw n (append_new code a b g v e h i l (omega (arith, u, n)));
      }

  -- A node of a graph that has so many nodes more, with its value.
  pub record Grown (node : ℕ) (g : GraphBody) (value : Bool) (extra : ℕ) : Type 0 where
    pub valuation : Valuation
    pub extends : Extends g valuation
    pub within : node < length g.op
    pub valued : valuation node ≡ value
    pub sized : length g.op ≡ length g0.op + extra

  pub Grown-eq :
      {node : ℕ} {g : GraphBody} {value value' : Bool} {extra : ℕ}
      → Grown node g value extra
      → value ≡ value'
      → Grown node g value' extra
  Grown-eq r e = record {
    valuation = r.valuation;
    extends = r.extends;
    within = r.within;
    valued = r.valued ∙ e;
    sized = r.sized;
  }

  module _ (e0 : length g0.arg0 ≡ length g0.op) (e1 : length g0.arg1 ≡ length g0.op) where
    pub Grown-old : (node : ℕ) → node < length g0.op → Grown node g0 (v0 node) 0
    Grown-old node l = record {
      valuation = v0;
      extends = Extends-self e0 e1;
      within = l;
      valued = refl;
      sized = omega arith;
    }

    pub Grown-next :
        (code : OpCode) (a b extra : ℕ) (g : GraphBody) (v : Valuation)
        → Extends g v
        → length g.op ≡ length g0.op + extra
        → All (λ c. c < length g.op) (children_of code a b)
        → Grown (length g.op) (append_node code a b g).1 (op_value code x v a b) (suc extra)
    Grown-next code a b extra g v e s h = record {
      valuation = after (length g.op) (op_value code x v a b) v;
      extends = append_node-Extends code a b g v e h;
      within = omega (arith, length-append_node code a b g);
      valued = after_self (length g.op) (op_value code x v a b) v;
      sized = omega (arith, length-append_node code a b g, s);
    }

    pub Grown-one :
        (code : OpCode) (a b : ℕ)
        → All (λ c. c < length g0.op) (children_of code a b)
        → Grown (append_node code a b g0).0 (append_node code a b g0).1 (op_value code x v0 a b) 1
    Grown-one code a b h =
        unfold append_node in Grown-next code a b 0 g0 v0 (Extends-self e0 e1) (omega arith) h

    abbrev pub first_value : OpCode → ℕ → ℕ → Valuation
    first_value code a b = after (length g0.op) (op_value code x v0 a b) v0

    -- A second node above the first.
    pub Grown-two :
        (code : OpCode) (a b : ℕ) (code' : OpCode) (c d : ℕ)
        → All (λ k. k < length g0.op) (children_of code a b)
        → All (λ k. k < suc (length g0.op)) (children_of code' c d)
        → Grown
            (append_node code' c d (append_node code a b g0).1).0
            (append_node code' c d (append_node code a b g0).1).1
            (op_value code' x (first_value code a b) c d)
            2
    Grown-two code a b code' c d h k =
        let n = length-append_node code a b g0 in
        unfold append_node in
        Grown-next code' c d 1 (append_node code a b g0).1 (first_value code a b)
          (append_node-Extends code a b g0 v0 (Extends-self e0 e1) h) (omega (arith, n)) (rw n k)
