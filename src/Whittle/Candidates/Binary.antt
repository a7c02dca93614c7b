-- ===== src/Whittle/Candidates/Binary.antt =====
-- The requests of rules.rs for a root with an And or an Or are good.
use graphzero.Base.{
  ℕ, zero, suc, ◌+◌, ◌<◌, ◌≤◌, ◌≡◌, refl, ap, sym, ◌∙◌, subst, Bool, true, false, ◌&&◌, List, [],
  ◌∷◌, ◌++◌, ◌==◌, length, All, All-append, ==→eq, arith,
}
use graphzero.Base as Base
use graphzero.Whittle.Graph.{GraphBody}
use graphzero.Whittle.Graph.Meaning.{Valuation, Solves}
use graphzero.Whittle.RuleTable.{RuleId}
use graphzero.Whittle.Rules.{matched_at}
use graphzero.Whittle.RuleTable as Rule
use graphzero.Whittle.Rules.Meaning.{rule_value}
use graphzero.Whittle.Candidates.{
  Request, request, when, given, each, Side, conj, disj, other, const_signal, not_signal, pair_for,
  is_not, binary_of, orders, turns, constant_request, constant_requests, idempotent_rule,
  complement_rule, commute_rule, same_requests, associate_right_rule, associate_left_rule,
  associate_requests, absorb_rule, expand_rule, absorb_requests, nots_rule, nots_requests,
  factor_rule, factor_requests, consensus_add_rule, consensus_add_bindings, consensus_remove_rule,
  consensus_remove_bindings, binary_requests,
}
use graphzero.Whittle.Candidates.Laws.{
  join, idempotent_law, complement_law, commute_law, associate_right_law, associate_left_law,
  absorb_law, expand_law, nots_law, factor_law, consensus_add_law, consensus_remove_law,
}
use graphzero.Whittle.Candidates.Facts.{
  Good, IsConst, IsNot, Splits, All-given, All-when, All-each, const_lem, not_lem, pair_lem,
  Splits-swap, orders-Splits, turns-Splits, is_not_lem, binary_of_lem,
}

-- A list of one good request.
pub one-Good :
    (g : GraphBody) (rule : RuleId) (root : ℕ) (rest : List ℕ)
    → root < length g.op
    → length rest ≤ 7
    → All (λ c. c < length g.op) rest
    → ((x v : Valuation)
        → Solves g x v
        → rule_value rule (v root) (λ k. v (matched_at (root ∷ rest) k)) ≡ v root)
    → All (Good g) (request rule root rest ∷ [])
one-Good g rule root rest r l h e = (record { short = l; root_in = r; rest_in = h; valued = e }, tt)

constant-Good :
    (g : GraphBody) (side : Side) (value : Bool) (root c d : ℕ)
    → root < length g.op
    → IsConst g c value
    → Splits g side root (c, d)
    → All (Good g) (constant_request side value root c d ∷ [])
unfolding constant_request rule_value join
constant-Good g conj false root c d r k (lc, ld, e) =
    one-Good g Rule.and_false root (c ∷ []) r (omega arith) (lc, tt)
      (λ x v s. ground (arith, k x v s, e x v s))
constant-Good g conj true root c d r k (lc, ld, e) =
    one-Good g Rule.and_true root (c ∷ d ∷ []) r (omega arith) (lc, (ld, tt))
      (λ x v s. ground (arith, k x v s, e x v s))
constant-Good g disj false root c d r k (lc, ld, e) =
    one-Good g Rule.or_false root (c ∷ d ∷ []) r (omega arith) (lc, (ld, tt))
      (λ x v s. ground (arith, k x v s, e x v s))
constant-Good g disj true root c d r k (lc, ld, e) =
    one-Good g Rule.or_true root (c ∷ []) r (omega arith) (lc, tt)
      (λ x v s. ground (arith, k x v s, e x v s))

module _ (g : GraphBody) (side : Side) (root : ℕ) (root_in : root < length g.op) where
  abbrev Goods : List Request → Type 0
  Goods requests = All (Good g) requests

  constant_requests_good :
      (c d : ℕ) → Splits g side root (c, d) → Goods (constant_requests g side root c d)
  unfolding constant_requests
  constant_requests_good c d h =
      All-given (Good g) (const_signal g c) _
        (λ value q. constant-Good g side value root c d root_in (const_lem g c value h.0 q) h)

  idempotent_good :
      (left right : ℕ)
      → Splits g side root (left, right)
      → (left == right) ≡ true
      → Goods (request (idempotent_rule side) root (left ∷ []) ∷ [])
  idempotent_good left right h e =
      one-Good g (idempotent_rule side) root (left ∷ []) root_in (omega arith) (h.0, tt)
        (λ x v s.
          idempotent_law side (v root) (λ k. v (matched_at (root ∷ left ∷ []) k))
            (h.2 x v s ∙ ap (λ k. join side (v left) (v k)) (sym (==→eq left right e))))

  complement_good :
      (left right : ℕ)
      → Splits g side root (left, right)
      → IsNot g right left
      → Goods (request (complement_rule side) root (left ∷ right ∷ []) ∷ [])
  complement_good left right h n =
      one-Good g (complement_rule side) root (left ∷ right ∷ []) root_in (omega arith)
        (h.0, (h.1, tt))
        (λ x v s.
          complement_law side (v root) (λ k. v (matched_at (root ∷ left ∷ right ∷ []) k))
            (h.2 x v s) (n.1 x v s))

  same_requests_good :
      (left right : ℕ)
      → Splits g side root (left, right)
      → Goods (same_requests g side root left right)
  unfolding same_requests
  same_requests_good left right h =
      All-append (Good g) (when (left == right) _) _
        (All-when (Good g) (left == right) _ (idempotent_good left right h))
        (All-append (Good g) (when (is_not g right left) _) _
          (All-when (Good g) (is_not g right left) _
            (λ q. complement_good left right h (is_not_lem g right left h.1 q)))
          (All-append (Good g) (when (Base.not (left == right) && is_not g left right) _) _
            (All-when (Good g) (Base.not (left == right) && is_not g left right) _ (λ q.
              complement_good right left (Splits-swap g side root (left, right) h)
                (is_not_lem g left right h.0 (ground (arith, q)))))
            (one-Good g (commute_rule side) root (left ∷ right ∷ []) root_in (omega arith)
              (h.0, (h.1, tt))
              (λ x v s.
                commute_law side (v root) (λ k. v (matched_at (root ∷ left ∷ right ∷ []) k))
                  (h.2 x v s)))))

  associate_requests_good :
      (left right : ℕ)
      → Splits g side root (left, right)
      → Goods (associate_requests g side root left right)
  unfolding associate_requests
  associate_requests_good left right h =
      All-append (Good g) (given (pair_for g side left) _) (given (pair_for g side right) _)
        (All-given (Good g) (pair_for g side left) _ (λ p q.
          let (a, b, e) = pair_lem g side left p h.0 q in
          one-Good g (associate_right_rule side) root (left ∷ p.0 ∷ p.1 ∷ right ∷ []) root_in
            (omega arith) (h.0, (a, (b, (h.1, tt))))
            (λ x v s.
              associate_right_law side (v root)
                (λ k. v (matched_at (root ∷ left ∷ p.0 ∷ p.1 ∷ right ∷ []) k)) (h.2 x v s)
                (e x v s))))
        (All-given (Good g) (pair_for g side right) _ (λ p q.
          let (a, b, e) = pair_lem g side right p h.1 q in
          one-Good g (associate_left_rule side) root (right ∷ left ∷ p.0 ∷ p.1 ∷ []) root_in
            (omega arith) (h.1, (h.0, (a, (b, tt))))
            (λ x v s.
              associate_left_law side (v root)
                (λ k. v (matched_at (root ∷ right ∷ left ∷ p.0 ∷ p.1 ∷ []) k)) (h.2 x v s)
                (e x v s))))

  absorb_good :
      (outer inner third : ℕ)
      → Splits g side root (outer, inner)
      → Splits g (other side) inner (outer, third)
      → Goods (request (absorb_rule side) root (outer ∷ inner ∷ third ∷ []) ∷ [])
  absorb_good outer inner third h p =
      one-Good g (absorb_rule side) root (outer ∷ inner ∷ third ∷ []) root_in (omega arith)
        (h.0, (h.1, (p.1, tt)))
        (λ x v s.
          absorb_law side (v root) (λ k. v (matched_at (root ∷ outer ∷ inner ∷ third ∷ []) k))
            (h.2 x v s) (p.2 x v s))

  absorb_requests_good :
      (outer inner : ℕ)
      → Splits g side root (outer, inner)
      → Goods (absorb_requests g side root outer inner)
  unfolding absorb_requests
  absorb_requests_good outer inner h = All-given (Good g) (pair_for g (other side) inner) _ (λ p q.
      let split = pair_lem g (other side) inner p h.1 q in
      All-append (Good g) (when (p.0 == outer) _) _
        (All-when (Good g) (p.0 == outer) _ (λ e.
          absorb_good outer inner p.1 h
            (subst (λ k. Splits g (other side) inner (k, p.1)) (==→eq p.0 outer e) split)))
        (All-append (Good g) (when (p.1 == outer && Base.not (p.0 == p.1)) _) _
          (All-when (Good g) (p.1 == outer && Base.not (p.0 == p.1)) _ (λ e.
            absorb_good outer inner p.0 h (
              subst (λ k. Splits g (other side) inner (k, p.0))
                (==→eq p.1 outer (ground (arith, e))) (Splits-swap g (other side) inner p split))))
          (one-Good g (expand_rule side) root (inner ∷ outer ∷ p.0 ∷ p.1 ∷ []) root_in (omega arith)
            (h.1, (h.0, (split.0, (split.1, tt))))
            (λ x v s.
              expand_law side (v root)
                (λ k. v (matched_at (root ∷ inner ∷ outer ∷ p.0 ∷ p.1 ∷ []) k)) (h.2 x v s)
                (split.2 x v s)))))

  nots_requests_good :
      (left right : ℕ)
      → Splits g side root (left, right)
      → Goods (nots_requests g side root left right)
  unfolding nots_requests
  nots_requests_good left right h = All-given (Good g) (not_signal g left) _ (λ a p.
      All-given (Good g) (not_signal g right) _ (λ b q.
        let n = not_lem g left a h.0 p in
        let m = not_lem g right b h.1 q in
        one-Good g (nots_rule side) root (left ∷ right ∷ a ∷ b ∷ []) root_in (omega arith)
          (h.0, (h.1, (n.0, (m.0, tt))))
          (λ x v s.
            nots_law side (v root) (λ k. v (matched_at (root ∷ left ∷ right ∷ a ∷ b ∷ []) k))
              (h.2 x v s) (n.1 x v s) (m.1 x v s))))

  factor_requests_good :
      (left right : ℕ)
      → Splits g side root (left, right)
      → Goods (factor_requests g side root left right)
  unfolding factor_requests
  factor_requests_good left right h = All-given (Good g) (pair_for g (other side) left) _ (λ p i.
      All-given (Good g) (pair_for g (other side) right) _ (λ q j.
        All-each (Good g) (Splits g (other side) left) (orders p) _
          (orders-Splits g (other side) left p (pair_lem g (other side) left p h.0 i))
          (λ l l_split.
            All-each (Good g) (Splits g (other side) right) (orders q) _
              (orders-Splits g (other side) right q (pair_lem g (other side) right q h.1 j))
              (λ r r_split. All-when (Good g) (l.0 == r.0) _ (λ e.
                one-Good g (factor_rule side) root (left ∷ right ∷ l.0 ∷ l.1 ∷ r.1 ∷ []) root_in
                  (omega arith) (h.0, (h.1, (l_split.0, (l_split.1, (r_split.1, tt)))))
                  (λ x v s.
                    factor_law side (v root)
                      (λ k. v (matched_at (root ∷ left ∷ right ∷ l.0 ∷ l.1 ∷ r.1 ∷ []) k))
                      (h.2 x v s) (l_split.2 x v s)
                      (r_split.2 x v s
                        ∙ ap (λ k. join (other side) (v k) (v r.1)) (sym (==→eq l.0 r.0 e)))))))))

  consensus_add_good :
      (first second : ℕ)
      → Splits g side root (first, second)
      → Goods (consensus_add_bindings g side root first second)
  unfolding consensus_add_bindings
  consensus_add_good first second h = All-given (Good g) (pair_for g (other side) first) _ (λ p i.
      All-given (Good g) (pair_for g (other side) second) _ (λ q j.
        All-each (Good g) (Splits g (other side) first) (turns p)
          (λ a. each (turns q) (λ c. when (is_not g c.0 a.0) (
            request (consensus_add_rule side) root (first ∷ second ∷ a.0 ∷ a.1 ∷ c.1 ∷ c.0 ∷ [])
            ∷ [])))
          (turns-Splits g (other side) first p (pair_lem g (other side) first p h.0 i))
          (λ a a_split.
            All-each (Good g) (Splits g (other side) second) (turns q)
              (λ c. when (is_not g c.0 a.0) (
                request (consensus_add_rule side) root (first ∷ second ∷ a.0 ∷ a.1 ∷ c.1 ∷ c.0 ∷ [])
                ∷ []))
              (turns-Splits g (other side) second q (pair_lem g (other side) second q h.1 j))
              (λ c c_split.
                All-when (Good g) (is_not g c.0 a.0)
                  (request (consensus_add_rule side) root
                      (first ∷ second ∷ a.0 ∷ a.1 ∷ c.1 ∷ c.0 ∷ [])
                    ∷ [])
                  (λ e.
                    let n = is_not_lem g c.0 a.0 c_split.0 e in
                    one-Good g (consensus_add_rule side) root
                      (first ∷ second ∷ a.0 ∷ a.1 ∷ c.1 ∷ c.0 ∷ []) root_in (omega arith)
                      (h.0, (h.1, (a_split.0, (a_split.1, (c_split.1, (c_split.0, tt))))))
                      (λ x v s.
                        consensus_add_law side (v root)
                          (λ k.
                            v (matched_at (root ∷ first ∷ second ∷ a.0 ∷ a.1 ∷ c.1 ∷ c.0 ∷ []) k))
                          (h.2 x v s) (a_split.2 x v s) (c_split.2 x v s) (n.1 x v s)))))))

  consensus_remove_good :
      (inner term : ℕ)
      → Splits g side root (inner, term)
      → Goods (consensus_remove_bindings g side root inner term)
  unfolding consensus_remove_bindings
  consensus_remove_good inner term h = All-given (Good g) (pair_for g side inner) _ (λ pair w.
      All-each (Good g) (Splits g side inner) (orders pair) _
        (orders-Splits g side inner pair (pair_lem g side inner pair h.0 w))
        (λ t t_split. All-given (Good g) (pair_for g (other side) t.0) _ (λ p i.
          All-given (Good g) (pair_for g (other side) t.1) _ (λ q j.
            All-each (Good g) (Splits g (other side) t.0) (turns p)
              (λ a. each (turns q) (λ c.
                when (is_not g c.0 a.0 && binary_of g (other side) term a.1 c.1) (
                  request (consensus_remove_rule side) root
                    (inner ∷ term ∷ t.0 ∷ t.1 ∷ a.0 ∷ a.1 ∷ c.1 ∷ [])
                  ∷ [])))
              (turns-Splits g (other side) t.0 p (pair_lem g (other side) t.0 p t_split.0 i))
              (λ a a_split.
                All-each (Good g) (Splits g (other side) t.1) (turns q)
                  (λ c. when (is_not g c.0 a.0 && binary_of g (other side) term a.1 c.1) (
                    request (consensus_remove_rule side) root
                      (inner ∷ term ∷ t.0 ∷ t.1 ∷ a.0 ∷ a.1 ∷ c.1 ∷ [])
                    ∷ []))
                  (turns-Splits g (other side) t.1 q (pair_lem g (other side) t.1 q t_split.1 j))
                  (λ c c_split.
                    All-when (Good g) (is_not g c.0 a.0 && binary_of g (other side) term a.1 c.1)
                      (request (consensus_remove_rule side) root
                          (inner ∷ term ∷ t.0 ∷ t.1 ∷ a.0 ∷ a.1 ∷ c.1 ∷ [])
                        ∷ [])
                      (λ e.
                        let n = is_not_lem g c.0 a.0 c_split.0 (ground (arith, e)) in
                        let d = binary_of_lem g (other side) term a.1 c.1 h.1 (ground (arith, e)) in
                        one-Good g (consensus_remove_rule side) root
                          (inner ∷ term ∷ t.0 ∷ t.1 ∷ a.0 ∷ a.1 ∷ c.1 ∷ []) root_in (omega arith)
                          (
                            h.0,
                            (
                              h.1,
                              (t_split.0, (t_split.1, (a_split.0, (a_split.1, (c_split.1, tt))))),
                            ),
                          )
                          (λ x v s.
                            consensus_remove_law side (v root)
                              (λ k. v (
                                matched_at (root ∷ inner ∷ term ∷ t.0 ∷ t.1 ∷ a.0 ∷ a.1 ∷ c.1 ∷ [])
                                  k))
                              (v c.0) (h.2 x v s) (t_split.2 x v s) (a_split.2 x v s)
                              (c_split.2 x v s) (n.1 x v s) (d.2 x v s)))))))))

  -- Every request for the root is good.
  pub binary_requests_good :
      (left right : ℕ)
      → Splits g side root (left, right)
      → Goods (binary_requests g side root left right)
  unfolding binary_requests
  binary_requests_good left right h =
      let swapped = Splits-swap g side root (left, right) h in
      let turned = Base.not (left == right) in
      All-append (Good g) (constant_requests g side root left right) _
        (constant_requests_good left right h)
        (All-append (Good g) (when turned (constant_requests g side root right left)) _
          (All-when (Good g) turned _ (λ _. constant_requests_good right left swapped))
          (All-append (Good g) (same_requests g side root left right) _
            (same_requests_good left right h)
            (All-append (Good g) (associate_requests g side root left right) _
              (associate_requests_good left right h)
              (All-append (Good g) (absorb_requests g side root left right) _
                (absorb_requests_good left right h)
                (All-append (Good g) (when turned (absorb_requests g side root right left)) _
                  (All-when (Good g) turned _ (λ _. absorb_requests_good right left swapped))
                  (All-append (Good g) (nots_requests g side root left right) _
                    (nots_requests_good left right h)
                    (All-append (Good g) (factor_requests g side root left right) _
                      (factor_requests_good left right h)
                      (All-append (Good g) (consensus_add_bindings g side root left right) _
                        (consensus_add_good left right h)
                        (All-append (Good g)
                          (when turned (consensus_add_bindings g side root right left)) _
                          (All-when (Good g) turned _ (λ _. consensus_add_good right left swapped))
                          (All-append (Good g) (consensus_remove_bindings g side root left right) _
                            (consensus_remove_good left right h)
                            (All-when (Good g) turned _
                              (λ _. consensus_remove_good right left swapped))))))))))))
