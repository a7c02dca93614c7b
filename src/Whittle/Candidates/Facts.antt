-- ===== src/Whittle/Candidates/Facts.antt =====
-- What the tables of rules.rs say of the values of the nodes, and when a request is good: its nodes are
-- nodes of the graph, and its replacement has the value of its root in each solution.
use graphzero.Base.{
  ℕ, zero, suc, ◌+◌, ◌<◌, ◌≤◌, ◌≡◌, refl, ap, sym, ◌∙◌, subst, inl, inr, Bool, true, false, ◌&&◌,
  Option, none, some, List, [], ◌∷◌, ◌++◌, ◌==◌, if◌then◌else◌, ltb, ltb→lt, length, get_or, All,
  All-append, Bool-cases, Option-cases, ==→eq, arith,
}
use graphzero.Base as Base
use graphzero.Whittle.Graph.{OpCode, const, and, or, not, GraphBody, op_at, arg0_at, arg1_at}
use graphzero.Whittle.Graph.Meaning.{Valuation, op_value, Solves}
use graphzero.Whittle.Rules.{matched_at}
use graphzero.Whittle.Rules.Meaning.{rule_value}
use graphzero.Whittle.Candidates.{
  Request, when, given, each, Side, conj, disj, const_of, const_signal, not_of, not_signal, pair_of,
  pair_for, is_not, binary_of, order, orders, turns,
}
use graphzero.Whittle.Candidates.Laws.{join, join_comm}

pub All-given {ℓ} :
    {A : Type ℓ} (P : Request → Type 0) (o : Option A) (f : A → List Request)
    → ((a : A) → o ≡ some a → All P (f a))
    → All P (given o f)
unfolding given
All-given P none f h = tt
All-given P (some a) f h = h a refl

pub All-when :
    (P : Request → Type 0) (b : Bool) (requests : List Request)
    → (b ≡ true → All P requests)
    → All P (when b requests)
unfolding when
All-when P true requests h = h refl
All-when P false requests h = tt

pub All-each {ℓ κ} :
    {A : Type ℓ} (P : Request → Type 0) (Q : A → Type κ) (xs : List A) (f : A → List Request)
    → All Q xs
    → ((a : A) → Q a → All P (f a))
    → All P (each xs f)
unfolding each
All-each P Q [] f q h = tt
All-each P Q (x ∷ xs) f q h = All-append P (f x) (each xs f) (h x q.0) (All-each P Q xs f q.1 h)

module _ (g : GraphBody) where
  abbrev pub IsConst : ℕ → Bool → Type 0
  IsConst i value = (x v : Valuation) → Solves g x v → v i ≡ value

  abbrev pub IsNot : ℕ → ℕ → Type 0
  IsNot i a = (a < length g.op) × ((x v : Valuation) → Solves g x v → v i ≡ Base.not (v a))

  abbrev pub Splits : Side → ℕ → ℕ × ℕ → Type 0
  Splits s i p =
      (p.0 < length g.op)
      × (p.1 < length g.op)
      × ((x v : Valuation) → Solves g x v → v i ≡ join s (v p.0) (v p.1))

  -- Each request: few nodes, all of them nodes of the graph, and the value of the root.
  pub record Good (r : Request) : Type 0 where
    pub short : length r.rest ≤ 7
    pub root_in : r.root < length g.op
    pub rest_in : All (λ c. c < length g.op) r.rest
    pub valued :
        (x v : Valuation)
        → Solves g x v
        → rule_value r.rule (v r.root) (λ k. v (matched_at (r.root ∷ r.rest) k)) ≡ v r.root

  const_code :
      (code : OpCode) (x v : Valuation) (a b : ℕ) (value : Bool)
      → const_of code a ≡ some value
      → op_value code x v a b ≡ value
  unfolding const_of op_value
  const_code const x v a b value h = cc
  const_code _ x v a b value h = cc

  pub const_lem :
      (i : ℕ) (value : Bool) → i < length g.op → const_signal g i ≡ some value → IsConst i value
  const_lem i value l h x v s =
      s i l ∙ const_code (op_at g i) x v (arg0_at g i) (arg1_at g i) value h

  not_code :
      (code : OpCode) (a b c : ℕ)
      → not_of g code a ≡ some c
      → (c < length g.op) × ((x v : Valuation) → op_value code x v a b ≡ Base.not (v c))
  unfolding not_of op_value
  not_code not a b c h = (ground arith, λ x v. ground arith)
  not_code _ a b c h = cc

  pub not_lem : (i a : ℕ) → i < length g.op → not_signal g i ≡ some a → IsNot i a
  not_lem i a l h =
      let (below, value) = not_code (op_at g i) (arg0_at g i) (arg1_at g i) a h in
      (below, λ x v s. s i l ∙ value x v)

  pair_code :
      (side : Side) (code : OpCode) (a b : ℕ) (p : ℕ × ℕ)
      → pair_of g side code a b ≡ some p
      → (p.0 < length g.op)
        × (p.1 < length g.op)
        × ((x v : Valuation) → op_value code x v a b ≡ join side (v p.0) (v p.1))
  unfolding pair_of op_value join
  pair_code conj and a b p h = (ground arith, ground arith, λ x v. ground arith)
  pair_code disj or a b p h = (ground arith, ground arith, λ x v. ground arith)
  pair_code _ _ a b p h = cc

  pub pair_lem :
      (side : Side) (i : ℕ) (p : ℕ × ℕ)
      → i < length g.op
      → pair_for g side i ≡ some p
      → Splits side i p
  pair_lem side i p l h =
      let (first, second, value) = pair_code side (op_at g i) (arg0_at g i) (arg1_at g i) p h in
      (first, second, λ x v s. s i l ∙ value x v)

  pub Splits-swap : (side : Side) (i : ℕ) (p : ℕ × ℕ) → Splits side i p → Splits side i (p.1, p.0)
  Splits-swap side i p (l, k, e) = (k, l, λ x v s. e x v s ∙ join_comm side (v p.0) (v p.1))

  order-Splits :
      (side : Side) (i a b : ℕ) (p : ℕ × ℕ)
      → Splits side i p
      → All (Splits side i) (order a b p.0 p.1)
  unfolding order
  order-Splits side i a b p h = elim (Bool-cases (p.0 == b && a == b)) [
    | inl e ↦ rw e tt
    | inr e ↦ rw e (h, tt)
  ]

  pub orders-Splits :
      (side : Side) (i : ℕ) (p : ℕ × ℕ) → Splits side i p → All (Splits side i) (orders p)
  unfolding orders
  orders-Splits side i p h =
      All-append (Splits side i) (order p.0 p.1 p.0 p.1) (order p.0 p.1 p.1 p.0)
        (order-Splits side i p.0 p.1 p h)
        (order-Splits side i p.0 p.1 (p.1, p.0) (Splits-swap side i p h))

  pub turns-Splits :
      (side : Side) (i : ℕ) (p : ℕ × ℕ) → Splits side i p → All (Splits side i) (turns p)
  unfolding turns
  turns-Splits side i p h = elim (Bool-cases (p.0 == p.1)) [
    | inl e ↦ rw e (h, tt)
    | inr e ↦ rw e (h, (Splits-swap side i p h, tt))
  ]

  pub is_not_lem : (i a : ℕ) → i < length g.op → is_not g i a ≡ true → IsNot i a
  unfolding is_not
  is_not_lem i a l h = elim (Option-cases (not_signal g i)) [
    | inl n ↦ absurd (ground (arith, n, h))
    | inr (c, q) ↦ subst (IsNot i) (==→eq c a (ground (arith, q, h))) (not_lem i c l q)
  ]

  same_pair :
      (side : Side) (i : ℕ) (p : ℕ × ℕ) (a b : ℕ)
      → Splits side i p
      → p.0 ≡ a
      → p.1 ≡ b
      → Splits side i (a, b)
  same_pair side i p a b (l, k, e) q r =
      (omega (arith, l, q), omega (arith, k, r), λ x v s. e x v s ∙ rw (ap v q, ap v r) refl)

  pub binary_of_lem :
      (side : Side) (i a b : ℕ)
      → i < length g.op
      → binary_of g side i a b ≡ true
      → Splits side i (a, b)
  unfolding binary_of
  binary_of_lem side i a b l h = elim (Option-cases (pair_for g side i)) [
    | inl n ↦ absurd (ground (arith, n, h))
    | inr (p, q) ↦ elim (Bool-cases (p.0 == a && p.1 == b)) [
      | inl e ↦
          same_pair side i p a b (pair_lem side i p l q) (ground (arith, e)) (ground (arith, e))
      | inr e ↦
          same_pair side i (p.1, p.0) a b (Splits-swap side i p (pair_lem side i p l q))
            (ground (arith, q, h, e)) (ground (arith, q, h, e))
    ]
  ]
