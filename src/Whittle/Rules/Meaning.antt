-- ===== src/Whittle/Rules/Meaning.antt =====
-- The value that each replacement of rules.rs gives its root.
use graphzero.Base.{
  ℕ, suc, ◌<◌, ◌≡◌, refl, ap, sym, ◌∙◌, Bool, true, false, not, ◌&&◌, ◌||◌, List, length, All,
  All-map, arith,
}
use graphzero.Whittle.Graph.{OpCode, const, and, or, GraphBody, no_node, children_of}
use graphzero.Whittle.Graph.Meaning.{Valuation, op_value}
use graphzero.Whittle.RuleTable.{RuleId, replacement_extra_nodes}
use graphzero.Whittle.Rules.{
  matched_at, append_node, append_left, append_right, append_both, replacement,
}
use graphzero.Whittle.RuleTable as Rule
use graphzero.Whittle.Rules.Append.{
  after, after_self, after_old, append_node-Extends, Extends-self, length-append_node, Grown,
  Grown-eq, Grown-old, Grown-one, Grown-two, Grown-next, op_value-after,
}

-- The value of a replacement, from those of the root and of the matched nodes.
unfoldable pub rule_value : RuleId → Bool → (ℕ → Bool) → Bool
rule_value Rule.and_false b m = m 1
rule_value Rule.and_true b m = m 2
rule_value Rule.or_false b m = m 2
rule_value Rule.or_true b m = m 1
rule_value Rule.not_false b m = true
rule_value Rule.not_true b m = false
rule_value Rule.and_idempotent b m = m 1
rule_value Rule.or_idempotent b m = m 1
rule_value Rule.and_complement b m = false
rule_value Rule.or_complement b m = true
rule_value Rule.double_negation b m = m 2
rule_value Rule.commute_and b m = m 2 && m 1
rule_value Rule.commute_or b m = m 2 || m 1
rule_value Rule.associate_and_left b m = (m 2 && m 3) && m 4
rule_value Rule.associate_and_right b m = m 2 && (m 3 && m 4)
rule_value Rule.associate_or_left b m = (m 2 || m 3) || m 4
rule_value Rule.associate_or_right b m = m 2 || (m 3 || m 4)
rule_value Rule.absorb_or_and b m = m 1
rule_value Rule.absorb_and_or b m = m 1
rule_value Rule.de_morgan_not_and b m = not (m 2) || not (m 3)
rule_value Rule.de_morgan_not_or b m = not (m 2) && not (m 3)
rule_value Rule.de_morgan_or_nots b m = not (m 3 && m 4)
rule_value Rule.de_morgan_and_nots b m = not (m 3 || m 4)
rule_value Rule.distribute_or_factor b m = m 3 && (m 4 || m 5)
rule_value Rule.distribute_or_expand b m = (m 2 && m 3) || (m 2 && m 4)
rule_value Rule.distribute_and_factor b m = m 3 || (m 4 && m 5)
rule_value Rule.distribute_and_expand b m = (m 2 || m 3) && (m 2 || m 4)
rule_value Rule.consensus_or_add b m = b || (m 4 && m 5)
rule_value Rule.consensus_or_remove b m = m 1
rule_value Rule.consensus_and_add b m = b && (m 4 || m 5)
rule_value Rule.consensus_and_remove b m = m 1
rule_value Rule.and_false_inverse b m = m 1 && b
rule_value Rule.and_true_inverse b m = b && m 1
rule_value Rule.or_false_inverse b m = b || m 1
rule_value Rule.or_true_inverse b m = m 1 || b
rule_value Rule.not_false_inverse b m = not (m 1)
rule_value Rule.not_true_inverse b m = not (m 1)
rule_value Rule.and_idempotent_inverse b m = b && b
rule_value Rule.or_idempotent_inverse b m = b || b
rule_value Rule.and_complement_inverse b m = m 1 && m 2
rule_value Rule.or_complement_inverse b m = m 1 || m 2
rule_value Rule.double_negation_inverse b m = not (not (b))
rule_value Rule.absorb_or_and_inverse b m = b || (b && m 1)
rule_value Rule.absorb_and_or_inverse b m = b && (b || m 1)

-- The gates of two arguments, by value.
unfoldable pub gate : OpCode → Bool → Bool → Bool
gate and p q = p && q
gate _ p q = p || q

unfoldable pub is_binary : OpCode → Bool
is_binary and = true
is_binary or = true
is_binary _ = false

op_value-gate :
    (code : OpCode) (x v : Valuation) (a b : ℕ)
    → is_binary code ≡ true
    → op_value code x v a b ≡ gate code (v a) (v b)
unfolding op_value gate is_binary
op_value-gate and x v a b h = refl
op_value-gate or x v a b h = refl
op_value-gate _ x v a b h = cc

binary_children :
    (code : OpCode) (a b n : ℕ)
    → is_binary code ≡ true
    → a < n
    → b < n
    → All (λ k. k < n) (children_of code a b)
unfolding is_binary children_of
binary_children and a b n h l k = (l, (k, tt))
binary_children or a b n h l k = (l, (k, tt))
binary_children _ a b n h l k = cc

module _ (g0 : GraphBody) (x v0 : Valuation) where
  module _ (e0 : length g0.arg0 ≡ length g0.op) (e1 : length g0.arg1 ≡ length g0.op) where
    Grown-left :
        (code : OpCode) (a b : ℕ)
        → All (λ k. k < length g0.op) (children_of code a b)
        → (code' : OpCode) (c : ℕ) → is_binary code' ≡ true
        → c < length g0.op
        → Grown g0 x v0
            (append_left code a b code' c g0).0
            (append_left code a b code' c g0).1
            (gate code' (op_value code x v0 a b) (v0 c))
            2
    unfolding append_left append_node
    Grown-left code a b h code' c binary l =
        let n = length g0.op in
        let value = op_value code x v0 a b in
        Grown-eq g0 x v0
          (Grown-two g0 x v0 e0 e1 code a b code' n c h
            (binary_children code' n c (suc n) binary (omega arith) (omega (arith, l))))
          (op_value-gate code' x (after n value v0) n c binary
            ∙ rw (after_self n value v0, after_old n value v0 c l) refl)

    Grown-right :
        (code : OpCode) (a b : ℕ)
        → All (λ k. k < length g0.op) (children_of code a b)
        → (code' : OpCode) (c : ℕ) → is_binary code' ≡ true
        → c < length g0.op
        → Grown g0 x v0
            (append_right code a b code' c g0).0
            (append_right code a b code' c g0).1
            (gate code' (v0 c) (op_value code x v0 a b))
            2
    unfolding append_right append_node
    Grown-right code a b h code' c binary l =
        let n = length g0.op in
        let value = op_value code x v0 a b in
        Grown-eq g0 x v0
          (Grown-two g0 x v0 e0 e1 code a b code' c n h
            (binary_children code' c n (suc n) binary (omega (arith, l)) (omega arith)))
          (op_value-gate code' x (after n value v0) c n binary
            ∙ rw (after_self n value v0, after_old n value v0 c l) refl)

    Grown-negated :
        (code : OpCode) (a b : ℕ)
        → All (λ k. k < length g0.op) (children_of code a b)
        → Grown g0 x v0
            (append_left code a b OpCode.not no_node g0).0
            (append_left code a b OpCode.not no_node g0).1
            (not (op_value code x v0 a b))
            2
    unfolding append_left append_node children_of
    Grown-negated code a b h =
        let n = length g0.op in
        let value = op_value code x v0 a b in
        Grown-eq g0 x v0 (Grown-two g0 x v0 e0 e1 code a b OpCode.not n no_node h (omega arith, tt))
          (unfold op_value in ap not (after_self n value v0))

    Grown-both :
        (code : OpCode) (a b : ℕ)
        → All (λ k. k < length g0.op) (children_of code a b)
        → (c d : ℕ) → All (λ k. k < length g0.op) (children_of code c d)
        → (code' : OpCode) → is_binary code' ≡ true
        → Grown g0 x v0
            (append_both code a b c d code' g0).0
            (append_both code a b c d code' g0).1
            (gate code' (op_value code x v0 a b) (op_value code x v0 c d))
            3
    unfolding append_both append_node
    Grown-both code a b h c d k code' binary =
        let g1 = (append_node code a b g0).1 in
        let n = length g0.op in
        let n1 = length g1.op in
        let e = length-append_node code a b g0 in
        let first = op_value code x v0 a b in
        let v1 = after n first v0 in
        let second = op_value code x v1 c d in
        let ext1 = append_node-Extends g0 x v0 code a b g0 v0 (Extends-self g0 x v0 e0 e1) h in
        let ext2 = append_node-Extends g0 x v0 code c d g1 v1 ext1 (
          All-map (λ (i : ℕ). i < n) (λ (i : ℕ). i < n1) (children_of code c d)
            (λ i l. omega (arith, l, e)) k) in
        Grown-eq g0 x v0
          (Grown-next g0 x v0 e0 e1 code' n n1 2 (append_node code c d g1).1 (after n1 second v1)
            ext2 (omega (arith, length-append_node code c d g1, e))
            (binary_children code' n n1 (length (append_node code c d g1).1.op) binary
              (omega (arith, length-append_node code c d g1, e))
              (omega (arith, length-append_node code c d g1))))
          (op_value-gate code' x (after n1 second v1) n n1 binary
            ∙ rw
                (
                  after_self n1 second v1,
                  after_old n1 second v1 n (omega (arith, e)),
                  after_self n first v0,
                  sym (op_value-after g0 x v0 code v0 c d n first k),
                )
                refl)

    -- What stands for the root has the value of the rule, from so many new nodes.
    pub replacement-Grown :
        (rule : RuleId) (root : ℕ) (m : List ℕ)
        → root < length g0.op
        → ((k : ℕ) → matched_at m k < length g0.op)
        → Grown g0 x v0
            (replacement rule root m g0).0
            (replacement rule root m g0).1
            (rule_value rule (v0 root) (λ k. v0 (matched_at m k)))
            (replacement_extra_nodes rule)
    unfolding replacement rule_value replacement_extra_nodes children_of op_value gate is_binary
    replacement-Grown Rule.and_false root m r h = Grown-old g0 x v0 e0 e1 (matched_at m 1) (h 1)
    replacement-Grown Rule.and_true root m r h = Grown-old g0 x v0 e0 e1 (matched_at m 2) (h 2)
    replacement-Grown Rule.or_false root m r h = Grown-old g0 x v0 e0 e1 (matched_at m 2) (h 2)
    replacement-Grown Rule.or_true root m r h = Grown-old g0 x v0 e0 e1 (matched_at m 1) (h 1)
    replacement-Grown Rule.not_false root m r h = Grown-one g0 x v0 e0 e1 const 1 no_node tt
    replacement-Grown Rule.not_true root m r h = Grown-one g0 x v0 e0 e1 const 0 no_node tt
    replacement-Grown Rule.and_idempotent root m r h =
        Grown-old g0 x v0 e0 e1 (matched_at m 1) (h 1)
    replacement-Grown Rule.or_idempotent root m r h = Grown-old g0 x v0 e0 e1 (matched_at m 1) (h 1)
    replacement-Grown Rule.and_complement root m r h = Grown-one g0 x v0 e0 e1 const 0 no_node tt
    replacement-Grown Rule.or_complement root m r h = Grown-one g0 x v0 e0 e1 const 1 no_node tt
    replacement-Grown Rule.double_negation root m r h =
        Grown-old g0 x v0 e0 e1 (matched_at m 2) (h 2)
    replacement-Grown Rule.commute_and root m r h =
        Grown-one g0 x v0 e0 e1 and (matched_at m 2) (matched_at m 1) (h 2, (h 1, tt))
    replacement-Grown Rule.commute_or root m r h =
        Grown-one g0 x v0 e0 e1 or (matched_at m 2) (matched_at m 1) (h 2, (h 1, tt))
    replacement-Grown Rule.associate_and_left root m r h =
        Grown-left and (matched_at m 2) (matched_at m 3) (h 2, (h 3, tt)) and (matched_at m 4) refl
          (h 4)
    replacement-Grown Rule.associate_and_right root m r h =
        Grown-right and (matched_at m 3) (matched_at m 4) (h 3, (h 4, tt)) and (matched_at m 2) refl
          (h 2)
    replacement-Grown Rule.associate_or_left root m r h =
        Grown-left or (matched_at m 2) (matched_at m 3) (h 2, (h 3, tt)) or (matched_at m 4) refl
          (h 4)
    replacement-Grown Rule.associate_or_right root m r h =
        Grown-right or (matched_at m 3) (matched_at m 4) (h 3, (h 4, tt)) or (matched_at m 2) refl
          (h 2)
    replacement-Grown Rule.absorb_or_and root m r h = Grown-old g0 x v0 e0 e1 (matched_at m 1) (h 1)
    replacement-Grown Rule.absorb_and_or root m r h = Grown-old g0 x v0 e0 e1 (matched_at m 1) (h 1)
    replacement-Grown Rule.de_morgan_not_and root m r h =
        Grown-both OpCode.not (matched_at m 2) no_node (h 2, tt) (matched_at m 3) no_node (h 3, tt)
          or refl
    replacement-Grown Rule.de_morgan_not_or root m r h =
        Grown-both OpCode.not (matched_at m 2) no_node (h 2, tt) (matched_at m 3) no_node (h 3, tt)
          and refl
    replacement-Grown Rule.de_morgan_or_nots root m r h =
        Grown-negated and (matched_at m 3) (matched_at m 4) (h 3, (h 4, tt))
    replacement-Grown Rule.de_morgan_and_nots root m r h =
        Grown-negated or (matched_at m 3) (matched_at m 4) (h 3, (h 4, tt))
    replacement-Grown Rule.distribute_or_factor root m r h =
        Grown-right or (matched_at m 4) (matched_at m 5) (h 4, (h 5, tt)) and (matched_at m 3) refl
          (h 3)
    replacement-Grown Rule.distribute_or_expand root m r h =
        Grown-both and (matched_at m 2) (matched_at m 3) (h 2, (h 3, tt)) (matched_at m 2)
          (matched_at m 4) (h 2, (h 4, tt)) or refl
    replacement-Grown Rule.distribute_and_factor root m r h =
        Grown-right and (matched_at m 4) (matched_at m 5) (h 4, (h 5, tt)) or (matched_at m 3) refl
          (h 3)
    replacement-Grown Rule.distribute_and_expand root m r h =
        Grown-both or (matched_at m 2) (matched_at m 3) (h 2, (h 3, tt)) (matched_at m 2)
          (matched_at m 4) (h 2, (h 4, tt)) and refl
    replacement-Grown Rule.consensus_or_add root m r h =
        Grown-right and (matched_at m 4) (matched_at m 5) (h 4, (h 5, tt)) or root refl (r)
    replacement-Grown Rule.consensus_or_remove root m r h =
        Grown-old g0 x v0 e0 e1 (matched_at m 1) (h 1)
    replacement-Grown Rule.consensus_and_add root m r h =
        Grown-right or (matched_at m 4) (matched_at m 5) (h 4, (h 5, tt)) and root refl (r)
    replacement-Grown Rule.consensus_and_remove root m r h =
        Grown-old g0 x v0 e0 e1 (matched_at m 1) (h 1)
    replacement-Grown Rule.and_false_inverse root m r h =
        Grown-one g0 x v0 e0 e1 and (matched_at m 1) root (h 1, (r, tt))
    replacement-Grown Rule.and_true_inverse root m r h =
        Grown-one g0 x v0 e0 e1 and root (matched_at m 1) (r, (h 1, tt))
    replacement-Grown Rule.or_false_inverse root m r h =
        Grown-one g0 x v0 e0 e1 or root (matched_at m 1) (r, (h 1, tt))
    replacement-Grown Rule.or_true_inverse root m r h =
        Grown-one g0 x v0 e0 e1 or (matched_at m 1) root (h 1, (r, tt))
    replacement-Grown Rule.not_false_inverse root m r h =
        Grown-one g0 x v0 e0 e1 OpCode.not (matched_at m 1) no_node (h 1, tt)
    replacement-Grown Rule.not_true_inverse root m r h =
        Grown-one g0 x v0 e0 e1 OpCode.not (matched_at m 1) no_node (h 1, tt)
    replacement-Grown Rule.and_idempotent_inverse root m r h =
        Grown-one g0 x v0 e0 e1 and root root (r, (r, tt))
    replacement-Grown Rule.or_idempotent_inverse root m r h =
        Grown-one g0 x v0 e0 e1 or root root (r, (r, tt))
    replacement-Grown Rule.and_complement_inverse root m r h =
        Grown-one g0 x v0 e0 e1 and (matched_at m 1) (matched_at m 2) (h 1, (h 2, tt))
    replacement-Grown Rule.or_complement_inverse root m r h =
        Grown-one g0 x v0 e0 e1 or (matched_at m 1) (matched_at m 2) (h 1, (h 2, tt))
    replacement-Grown Rule.double_negation_inverse root m r h =
        Grown-negated OpCode.not root no_node (r, tt)
    replacement-Grown Rule.absorb_or_and_inverse root m r h =
        Grown-right and root (matched_at m 1) (r, (h 1, tt)) or root refl (r)
    replacement-Grown Rule.absorb_and_or_inverse root m r h =
        Grown-right or root (matched_at m 1) (r, (h 1, tt)) and root refl (r)
