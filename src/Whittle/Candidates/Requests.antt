-- ===== src/Whittle/Candidates/Requests.antt =====
-- All requests of the two loops over the roots in rules.rs are good.
use graphzero.Base.{
  ℕ, zero, suc, ◌+◌, ◌<◌, ◌≤◌, ◌≡◌, refl, sym, ◌∙◌, subst, Bool, true, false, ◌&&◌, ◌||◌, none,
  some, List, [], ◌∷◌, ◌++◌, length, All, All-append, Bool-cases, Option-cases, inl, inr, Option,
  arith,
}
use graphzero.Base as Base
use graphzero.Whittle.Graph.{GraphBody, op_at}
use graphzero.Whittle.RuleTable as Rule
use graphzero.Whittle.Rules.Meaning.{rule_value}
use graphzero.Whittle.Candidates.{
  request, given, conj, disj, is_signal, const_signal, not_signal, pair_for, not_constant_rule,
  not_requests, forward_requests, first_const, const_node, complement_inverse_rule,
  witness_requests, constant_inverse_requests, inverse_requests,
}
use graphzero.Whittle.Candidates.Laws.{join}
use graphzero.Whittle.Candidates.Facts.{
  Good, IsConst, IsNot, All-given, All-when, const_lem, not_lem, pair_lem,
}
use graphzero.Whittle.Candidates.Binary.{one-Good, binary_requests_good}

module _ (g : GraphBody) where
  not_constant-Good :
      (value : Bool) (root left : ℕ)
      → root < length g.op
      → IsNot g root left
      → IsConst g left value
      → All (Good g) (request (not_constant_rule value) root (left ∷ []) ∷ [])
  unfolding not_constant_rule rule_value
  not_constant-Good false root left r n k =
      one-Good g Rule.not_false root (left ∷ []) r (omega arith) (n.0, tt)
        (λ x v s. ground (arith, n.1 x v s, k x v s))
  not_constant-Good true root left r n k =
      one-Good g Rule.not_true root (left ∷ []) r (omega arith) (n.0, tt)
        (λ x v s. ground (arith, n.1 x v s, k x v s))

  not_requests-Good :
      (root left : ℕ)
      → root < length g.op
      → IsNot g root left
      → All (Good g) (not_requests g root left)
  unfolding not_requests rule_value join
  not_requests-Good root left r n =
      All-append (Good g) (given (const_signal g left) _) _
        (All-given (Good g) (const_signal g left) _
          (λ value q. not_constant-Good value root left r n (const_lem g left value n.0 q)))
        (All-append (Good g) (given (not_signal g left) _) _
          (All-given (Good g) (not_signal g left) _ (λ inner q.
            let m = not_lem g left inner n.0 q in
            one-Good g Rule.double_negation root (left ∷ inner ∷ []) r (omega arith)
              (n.0, (m.0, tt)) (λ x v s. ground (arith, n.1 x v s, m.1 x v s))))
          (All-append (Good g) (given (pair_for g conj left) _) _
            (All-given (Good g) (pair_for g conj left) _ (λ p q.
              let (a, b, e) = pair_lem g conj left p n.0 q in
              one-Good g Rule.de_morgan_not_and root (left ∷ p.0 ∷ p.1 ∷ []) r (omega arith)
                (n.0, (a, (b, tt))) (λ x v s. ground (arith, n.1 x v s, e x v s))))
            (All-given (Good g) (pair_for g disj left) _ (λ p q.
              let (a, b, e) = pair_lem g disj left p n.0 q in
              one-Good g Rule.de_morgan_not_or root (left ∷ p.0 ∷ p.1 ∷ []) r (omega arith)
                (n.0, (a, (b, tt))) (λ x v s. ground (arith, n.1 x v s, e x v s))))))

  pub forward_requests-Good :
      (root : ℕ) → root < length g.op → All (Good g) (forward_requests g root)
  unfolding forward_requests
  forward_requests-Good root r =
      All-append (Good g) (given (pair_for g conj root) _) _
        (All-given (Good g) (pair_for g conj root) _
          (λ p q. binary_requests_good g conj root r p.0 p.1 (pair_lem g conj root p r q)))
        (All-append (Good g) (given (pair_for g disj root) _) _
          (All-given (Good g) (pair_for g disj root) _
            (λ p q. binary_requests_good g disj root r p.0 p.1 (pair_lem g disj root p r q)))
          (All-given (Good g) (not_signal g root) _
            (λ left q. not_requests-Good root left r (not_lem g root left r q))))

  first_const_lem :
      (value : Bool) (i rounds node : ℕ)
      → i + rounds ≤ length g.op
      → first_const g value i rounds ≡ some node
      → (node < length g.op) × IsConst g node value
  unfolding first_const
  first_const_lem value i zero node l h = cc
  first_const_lem value i (suc rounds) node l h = elim (Option-cases (const_signal g i)) [
    | inl n ↦ first_const_lem value (suc i) rounds node (omega (arith, l)) (ground (arith, n, h))
    | inr (found, q) ↦
        let k = const_lem g i found (omega (arith, l)) q in
        elim (Bool-cases (value && found || Base.not value && Base.not found)) [
          | inl e ↦
              let same : i ≡ node = ground (arith, q, h, e) in
              subst (λ (n : ℕ). (n < length g.op) × IsConst g n value) same
                (omega (arith, l), λ x v s. k x v s ∙ ground (arith, e))
          | inr e ↦
              first_const_lem value (suc i) rounds node (omega (arith, l)) (ground (arith, q, h, e))
        ]
  ]

  complement_inverse-Good :
      (value : Bool) (root inner witness : ℕ)
      → root < length g.op
      → IsConst g root value
      → witness < length g.op
      → IsNot g witness inner
      → All (Good g) (request (complement_inverse_rule value) root (inner ∷ witness ∷ []) ∷ [])
  unfolding complement_inverse_rule rule_value
  complement_inverse-Good false root inner witness r k l n =
      one-Good g Rule.and_complement_inverse root (inner ∷ witness ∷ []) r (omega arith)
        (n.0, (l, tt)) (λ x v s. ground (arith, k x v s, n.1 x v s))
  complement_inverse-Good true root inner witness r k l n =
      one-Good g Rule.or_complement_inverse root (inner ∷ witness ∷ []) r (omega arith)
        (n.0, (l, tt)) (λ x v s. ground (arith, k x v s, n.1 x v s))

  witness_requests-Good :
      (value : Bool) (root witness rounds : ℕ)
      → root < length g.op
      → IsConst g root value
      → witness + rounds ≤ length g.op
      → All (Good g) (witness_requests g value root witness rounds)
  unfolding witness_requests
  witness_requests-Good value root witness zero r k l = tt
  witness_requests-Good value root witness (suc rounds) r k l =
      All-append (Good g) (given (not_signal g witness) _) _
        (All-given (Good g) (not_signal g witness) _ (λ inner q.
          complement_inverse-Good value root inner witness r k (omega (arith, l))
            (not_lem g witness inner (omega (arith, l)) q)))
        (witness_requests-Good value root (suc witness) rounds r k (omega (arith, l)))

  const_node_lem :
      (value : Bool) (node : ℕ)
      → const_node g value ≡ some node
      → (node < length g.op) × IsConst g node value
  const_node_lem value node h = first_const_lem value 0 (length g.op) node (omega arith) h

  constant_inverse_requests-Good :
      (value : Bool) (root : ℕ)
      → root < length g.op
      → IsConst g root value
      → All (Good g) (constant_inverse_requests g value root)
  unfolding constant_inverse_requests rule_value
  constant_inverse_requests-Good false root r k =
      All-append (Good g) (request Rule.and_false_inverse root (root ∷ []) ∷ []) _
        (one-Good g Rule.and_false_inverse root (root ∷ []) r (omega arith) (r, tt)
          (λ x v s. ground (arith, k x v s)))
        (All-append (Good g) (given (const_node g true) _) _
          (All-given (Good g) (const_node g true) _ (λ node q.
            let (l, e) = const_node_lem true node q in
            one-Good g Rule.not_true_inverse root (node ∷ []) r (omega arith) (l, tt)
              (λ x v s. ground (arith, k x v s, e x v s))))
          (witness_requests-Good false root 0 (length g.op) r k (omega arith)))
  constant_inverse_requests-Good true root r k =
      All-append (Good g) (request Rule.or_true_inverse root (root ∷ []) ∷ []) _
        (one-Good g Rule.or_true_inverse root (root ∷ []) r (omega arith) (r, tt)
          (λ x v s. ground (arith, k x v s)))
        (All-append (Good g) (given (const_node g false) _) _
          (All-given (Good g) (const_node g false) _ (λ node q.
            let (l, e) = const_node_lem false node q in
            one-Good g Rule.not_false_inverse root (node ∷ []) r (omega arith) (l, tt)
              (λ x v s. ground (arith, k x v s, e x v s))))
          (witness_requests-Good true root 0 (length g.op) r k (omega arith)))

  -- The requests that any root has.
  plain_inverse-Good :
      (root : ℕ)
      → root < length g.op
      → All (Good g) (
          request Rule.and_idempotent_inverse root []
          ∷ request Rule.or_idempotent_inverse root []
          ∷ request Rule.double_negation_inverse root []
          ∷ request Rule.absorb_or_and_inverse root (root ∷ [])
          ∷ request Rule.absorb_and_or_inverse root (root ∷ [])
          ∷ [])
  unfolding rule_value
  plain_inverse-Good root r =
      let both =
        one-Good g Rule.and_idempotent_inverse root [] r (omega arith) tt (λ x v s. ground arith) in
      let any =
        one-Good g Rule.or_idempotent_inverse root [] r (omega arith) tt (λ x v s. ground arith) in
      let twice =
        one-Good g Rule.double_negation_inverse root [] r (omega arith) tt
          (λ x v s. ground arith) in
      let first =
        one-Good g Rule.absorb_or_and_inverse root (root ∷ []) r (omega arith) (r, tt)
          (λ x v s. ground arith) in
      let second =
        one-Good g Rule.absorb_and_or_inverse root (root ∷ []) r (omega arith) (r, tt)
          (λ x v s. ground arith) in
      (both.0, (any.0, (twice.0, (first.0, (second.0, tt)))))

  pub inverse_requests-Good :
      (root : ℕ) → root < length g.op → All (Good g) (inverse_requests g root)
  unfolding inverse_requests rule_value
  inverse_requests-Good root r = All-when (Good g) (is_signal (op_at g root)) _ (λ _.
      All-append (Good g)
        (request Rule.and_idempotent_inverse root []
          ∷ request Rule.or_idempotent_inverse root []
          ∷ request Rule.double_negation_inverse root []
          ∷ request Rule.absorb_or_and_inverse root (root ∷ [])
          ∷ request Rule.absorb_and_or_inverse root (root ∷ [])
          ∷ [])
        _ (plain_inverse-Good root r)
        (All-append (Good g) (given (const_node g true) _) _
          (All-given (Good g) (const_node g true) _ (λ node q.
            let (l, e) = const_node_lem true node q in
            one-Good g Rule.and_true_inverse root (node ∷ []) r (omega arith) (l, tt)
              (λ x v s. ground (arith, e x v s))))
          (All-append (Good g) (given (const_node g false) _) _
            (All-given (Good g) (const_node g false) _ (λ node q.
              let (l, e) = const_node_lem false node q in
              one-Good g Rule.or_false_inverse root (node ∷ []) r (omega arith) (l, tt)
                (λ x v s. ground (arith, e x v s))))
            (All-given (Good g) (const_signal g root) _ (λ value q.
              constant_inverse_requests-Good value root r (const_lem g root value r q))))))
