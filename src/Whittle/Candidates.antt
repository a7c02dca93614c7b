-- ===== src/Whittle/Candidates.antt =====
-- crates/gz-engine-whittle/src/rules.rs: the enumeration of the candidates of a graph. A table that
-- one loop over the nodes fills (const_signals, not_signals, and_pairs, or_pairs) is the function that
-- gives its entries, with `none` for -1 or an invalid pair. The calls of `add` for a root do not depend
-- on the builder, so they are a list of requests, which `add_all` makes in order; a full builder takes
-- no more, so the break of the loop over the witnesses changes nothing. The two branches for And and Or
-- make the same calls with the rules of their side.
pub mod Laws
pub mod Facts
pub mod Binary
pub mod Requests
use graphzero.Base.{
  ℕ, zero, suc, ◌+◌, Bool, true, false, ◌&&◌, ◌||◌, Option, none, some, List, [], ◌∷◌, ◌++◌,
  if◌then◌else◌, ◌==◌, ltb, leb, length,
}
use graphzero.Base as Base
use graphzero.Base.Bytes.{same}
use graphzero.Base.Result.{Result, ok, err, ◌>>=◌}
use graphzero.Whittle.Graph.{
  OpCode, input, const, and, or, not, output, GraphBody, op_at, arg0_at, arg1_at,
}
use graphzero.Whittle.RuleTable.{
  RuleId, RuleError, as_u16, reverse_constant_folding_rule, replacement_extra_nodes,
  bad_match_length,
}
use graphzero.Whittle.Rules.{RawCandidate}
use graphzero.Whittle.RuleTable as Rule

-- One call `add(rule, root, rest)`.
pub record Request : Type 0 where
  pub rule : RuleId
  pub root : ℕ
  pub rest : List ℕ

abbrev pub request : RuleId → ℕ → List ℕ → Request
request rule root rest = record { rule = rule; root = root; rest = rest }

unfoldable pub when : Bool → List Request → List Request
when true requests = requests
when false requests = []

unfoldable pub given {ℓ} : {A : Type ℓ} → Option A → (A → List Request) → List Request
given none f = []
given (some a) f = f a

unfoldable pub each {ℓ} : {A : Type ℓ} → List A → (A → List Request) → List Request
each [] f = []
each (a ∷ rest) f = f a ++ each rest f

-- The branch for And and the branch for Or.
pub data Side : Type 0 where
  conj disj : Side

unfoldable pub other : Side → Side
other conj = disj
other disj = conj

unfoldable pub is_signal : OpCode → Bool
is_signal output = false
is_signal _ = true

abbrev pub signal_at : GraphBody → ℕ → Bool
signal_at g i = ltb i (length g.op) && is_signal (op_at g i)

unfoldable pub const_of : OpCode → ℕ → Option Bool
const_of const a = some (Base.not (a == 0))
const_of _ a = none

abbrev pub const_signal : GraphBody → ℕ → Option Bool
const_signal g i = const_of (op_at g i) (arg0_at g i)

unfoldable pub not_of : GraphBody → OpCode → ℕ → Option ℕ
unfolding is_signal
not_of g not a = if signal_at g a then some a else none
not_of g _ a = none

abbrev pub not_signal : GraphBody → ℕ → Option ℕ
not_signal g i = not_of g (op_at g i) (arg0_at g i)

unfoldable pub pair_of : GraphBody → Side → OpCode → ℕ → ℕ → Option (ℕ × ℕ)
unfolding is_signal
pair_of g conj and a b = if signal_at g a && signal_at g b then some (a, b) else none
pair_of g disj or a b = if signal_at g a && signal_at g b then some (a, b) else none
pair_of g _ _ a b = none

-- `pair_for`.
abbrev pub pair_for : GraphBody → Side → ℕ → Option (ℕ × ℕ)
pair_for g side i = pair_of g side (op_at g i) (arg0_at g i) (arg1_at g i)

unfoldable pub is_not : GraphBody → ℕ → ℕ → Bool
unfolding not_of
is_not g i inner = elim (not_signal g i) [ none ↦ false | some k ↦ k == inner ]

unfoldable pub binary_of : GraphBody → Side → ℕ → ℕ → ℕ → Bool
unfolding pair_of
binary_of g side node left right = elim (pair_for g side node) [
  | none ↦ false
  | some p ↦ (p.0 == left && p.1 == right) || (p.0 == right && p.1 == left)
]

-- A constant argument `c` beside the argument `d`.
unfoldable pub constant_request : Side → Bool → ℕ → ℕ → ℕ → Request
constant_request conj false root c d = request Rule.and_false root (c ∷ [])
constant_request conj true root c d = request Rule.and_true root (c ∷ d ∷ [])
constant_request disj false root c d = request Rule.or_false root (c ∷ d ∷ [])
constant_request disj true root c d = request Rule.or_true root (c ∷ [])

unfoldable pub constant_requests : GraphBody → Side → ℕ → ℕ → ℕ → List Request
unfolding given const_of constant_request
constant_requests g side root c d =
    given (const_signal g c) (λ value. constant_request side value root c d ∷ [])

unfoldable pub idempotent_rule : Side → RuleId
idempotent_rule conj = Rule.and_idempotent
idempotent_rule disj = Rule.or_idempotent

unfoldable pub complement_rule : Side → RuleId
complement_rule conj = Rule.and_complement
complement_rule disj = Rule.or_complement

unfoldable pub commute_rule : Side → RuleId
commute_rule conj = Rule.commute_and
commute_rule disj = Rule.commute_or

unfoldable pub same_requests : GraphBody → Side → ℕ → ℕ → ℕ → List Request
unfolding when is_not idempotent_rule complement_rule commute_rule
same_requests g side root left right =
    when (left == right) (request (idempotent_rule side) root (left ∷ []) ∷ [])
    ++ (when (is_not g right left) (request (complement_rule side) root (left ∷ right ∷ []) ∷ [])
        ++ (when (Base.not (left == right) && is_not g left right)
              (request (complement_rule side) root (right ∷ left ∷ []) ∷ [])
            ++ (request (commute_rule side) root (left ∷ right ∷ []) ∷ [])))

unfoldable pub associate_right_rule : Side → RuleId
associate_right_rule conj = Rule.associate_and_right
associate_right_rule disj = Rule.associate_or_right

unfoldable pub associate_left_rule : Side → RuleId
associate_left_rule conj = Rule.associate_and_left
associate_left_rule disj = Rule.associate_or_left

unfoldable pub associate_requests : GraphBody → Side → ℕ → ℕ → ℕ → List Request
unfolding given pair_of associate_right_rule associate_left_rule
associate_requests g side root left right =
    given (pair_for g side left)
      (λ p. request (associate_right_rule side) root (left ∷ p.0 ∷ p.1 ∷ right ∷ []) ∷ [])
    ++ given (pair_for g side right)
        (λ p. request (associate_left_rule side) root (right ∷ left ∷ p.0 ∷ p.1 ∷ []) ∷ [])

unfoldable pub absorb_rule : Side → RuleId
absorb_rule conj = Rule.absorb_and_or
absorb_rule disj = Rule.absorb_or_and

unfoldable pub expand_rule : Side → RuleId
expand_rule conj = Rule.distribute_or_expand
expand_rule disj = Rule.distribute_and_expand

-- The rules for an argument `inner` of the other side beside the argument `outer`.
unfoldable pub absorb_requests : GraphBody → Side → ℕ → ℕ → ℕ → List Request
unfolding given when pair_of other absorb_rule expand_rule
absorb_requests g side root outer inner = given (pair_for g (other side) inner) (λ p.
    when (p.0 == outer) (request (absorb_rule side) root (outer ∷ inner ∷ p.1 ∷ []) ∷ [])
    ++ (when (p.1 == outer && Base.not (p.0 == p.1))
          (request (absorb_rule side) root (outer ∷ inner ∷ p.0 ∷ []) ∷ [])
        ++ (request (expand_rule side) root (inner ∷ outer ∷ p.0 ∷ p.1 ∷ []) ∷ [])))

unfoldable pub nots_rule : Side → RuleId
nots_rule conj = Rule.de_morgan_and_nots
nots_rule disj = Rule.de_morgan_or_nots

unfoldable pub nots_requests : GraphBody → Side → ℕ → ℕ → ℕ → List Request
unfolding given not_of nots_rule
nots_requests g side root left right = given (not_signal g left) (λ a.
    given (not_signal g right)
      (λ b. request (nots_rule side) root (left ∷ right ∷ a ∷ b ∷ []) ∷ []))

-- Both orders of a pair, without those that `x == b && a == b` skips.
unfoldable pub order : ℕ → ℕ → ℕ → ℕ → List (ℕ × ℕ)
order a b x y = if x == b && a == b then [] else (x, y) ∷ []

unfoldable pub orders : ℕ × ℕ → List (ℕ × ℕ)
unfolding order
orders p = order p.0 p.1 p.0 p.1 ++ order p.0 p.1 p.1 p.0

-- Both turns of a pair, the second unless it is the first again.
unfoldable pub turns : ℕ × ℕ → List (ℕ × ℕ)
turns p = p ∷ (if p.0 == p.1 then [] else (p.1, p.0) ∷ [])

unfoldable pub factor_rule : Side → RuleId
factor_rule conj = Rule.distribute_and_factor
factor_rule disj = Rule.distribute_or_factor

unfoldable pub factor_requests : GraphBody → Side → ℕ → ℕ → ℕ → List Request
unfolding given each when pair_of other orders factor_rule
factor_requests g side root left right = given (pair_for g (other side) left) (λ p.
    given (pair_for g (other side) right) (λ q. each (orders p) (λ l. each (orders q) (λ r.
      when (l.0 == r.0)
        (request (factor_rule side) root (left ∷ right ∷ l.0 ∷ l.1 ∷ r.1 ∷ []) ∷ [])))))

unfoldable pub consensus_add_rule : Side → RuleId
consensus_add_rule conj = Rule.consensus_and_add
consensus_add_rule disj = Rule.consensus_or_add

unfoldable pub consensus_add_bindings : GraphBody → Side → ℕ → ℕ → ℕ → List Request
unfolding given each when is_not pair_of other turns consensus_add_rule
consensus_add_bindings g side root first second = given (pair_for g (other side) first) (λ p.
    given (pair_for g (other side) second) (λ q. each (turns p) (λ a. each (turns q) (λ c.
      when (is_not g c.0 a.0) (
        request (consensus_add_rule side) root (first ∷ second ∷ a.0 ∷ a.1 ∷ c.1 ∷ c.0 ∷ [])
        ∷ [])))))

unfoldable pub consensus_remove_rule : Side → RuleId
consensus_remove_rule conj = Rule.consensus_and_remove
consensus_remove_rule disj = Rule.consensus_or_remove

unfoldable pub consensus_remove_bindings : GraphBody → Side → ℕ → ℕ → ℕ → List Request
unfolding given each when is_not binary_of pair_of other orders turns consensus_remove_rule
consensus_remove_bindings g side root inner_node consensus_term =
    given (pair_for g side inner_node) (λ pair. each (orders pair) (λ terms.
      given (pair_for g (other side) terms.0) (λ p. given (pair_for g (other side) terms.1) (λ q.
        each (turns p) (λ a. each (turns q) (λ c.
          when (is_not g c.0 a.0 && binary_of g (other side) consensus_term a.1 c.1) (
            request (consensus_remove_rule side) root
              (inner_node ∷ consensus_term ∷ terms.0 ∷ terms.1 ∷ a.0 ∷ a.1 ∷ c.1 ∷ [])
            ∷ [])))))))

-- The calls for a root with the gate of a side and the arguments `left` and `right`.
unfoldable pub binary_requests : GraphBody → Side → ℕ → ℕ → ℕ → List Request
unfolding when constant_requests same_requests associate_requests absorb_requests nots_requests
    factor_requests consensus_add_bindings consensus_remove_bindings
binary_requests g side root left right =
    let right_order = Base.not (left == right) in
    constant_requests g side root left right
    ++ (when right_order (constant_requests g side root right left)
        ++ (same_requests g side root left right
            ++ (associate_requests g side root left right
                ++ (absorb_requests g side root left right
                    ++ (when right_order (absorb_requests g side root right left)
                        ++ (nots_requests g side root left right
                            ++ (factor_requests g side root left right
                                ++ (consensus_add_bindings g side root left right
                                    ++ (when right_order
                                          (consensus_add_bindings g side root right left)
                                        ++ (consensus_remove_bindings g side root left right
                                            ++ when right_order (
                                                consensus_remove_bindings g side root right
                                                  left)))))))))))

unfoldable pub not_constant_rule : Bool → RuleId
not_constant_rule false = Rule.not_false
not_constant_rule true = Rule.not_true

unfoldable pub not_requests : GraphBody → ℕ → ℕ → List Request
unfolding given const_of not_of pair_of not_constant_rule
not_requests g root left =
    given (const_signal g left) (λ value. request (not_constant_rule value) root (left ∷ []) ∷ [])
    ++ (given (not_signal g left)
          (λ inner. request Rule.double_negation root (left ∷ inner ∷ []) ∷ [])
        ++ (given (pair_for g conj left)
              (λ p. request Rule.de_morgan_not_and root (left ∷ p.0 ∷ p.1 ∷ []) ∷ [])
            ++ given (pair_for g disj left)
                (λ p. request Rule.de_morgan_not_or root (left ∷ p.0 ∷ p.1 ∷ []) ∷ [])))

-- The first loop over the roots.
unfoldable pub forward_requests : GraphBody → ℕ → List Request
unfolding given pair_of not_of binary_requests not_requests
forward_requests g root =
    given (pair_for g conj root) (λ p. binary_requests g conj root p.0 p.1)
    ++ (given (pair_for g disj root) (λ p. binary_requests g disj root p.0 p.1)
        ++ given (not_signal g root) (λ left. not_requests g root left))

-- `true_const` and `false_const`: the first constant of a value, from node `i` for so many nodes.
unfoldable pub first_const : GraphBody → Bool → ℕ → ℕ → Option ℕ
unfolding const_of
first_const g value i zero = none
first_const g value i (suc rounds) =
    let later = first_const g value (suc i) rounds in
    elim (const_signal g i) [
      | none ↦ later
      | some found ↦ if value && found || Base.not value && Base.not found then some i else later
    ]

abbrev pub const_node : GraphBody → Bool → Option ℕ
const_node g value = first_const g value 0 (length g.op)

unfoldable pub complement_inverse_rule : Bool → RuleId
complement_inverse_rule false = Rule.and_complement_inverse
complement_inverse_rule true = Rule.or_complement_inverse

-- The loop over the witnesses, from node `witness` for so many nodes.
unfoldable pub witness_requests : GraphBody → Bool → ℕ → ℕ → ℕ → List Request
unfolding given not_of complement_inverse_rule
witness_requests g value root witness zero = []
witness_requests g value root witness (suc rounds) =
    given (not_signal g witness)
      (λ inner. request (complement_inverse_rule value) root (inner ∷ witness ∷ []) ∷ [])
    ++ witness_requests g value root (suc witness) rounds

-- The calls for a root that is a constant.
unfoldable pub constant_inverse_requests : GraphBody → Bool → ℕ → List Request
unfolding given first_const witness_requests
constant_inverse_requests g false root =
    (request Rule.and_false_inverse root (root ∷ []) ∷ [])
    ++ (given (const_node g true) (λ node. request Rule.not_true_inverse root (node ∷ []) ∷ [])
        ++ witness_requests g false root 0 (length g.op))
constant_inverse_requests g true root =
    (request Rule.or_true_inverse root (root ∷ []) ∷ [])
    ++ (given (const_node g false) (λ node. request Rule.not_false_inverse root (node ∷ []) ∷ [])
        ++ witness_requests g true root 0 (length g.op))

-- The second loop over the roots.
unfoldable pub inverse_requests : GraphBody → ℕ → List Request
unfolding given when is_signal const_of first_const constant_inverse_requests
inverse_requests g root = when (is_signal (op_at g root)) (
    request Rule.and_idempotent_inverse root []
    ∷ request Rule.or_idempotent_inverse root []
    ∷ request Rule.double_negation_inverse root []
    ∷ request Rule.absorb_or_and_inverse root (root ∷ [])
    ∷ request Rule.absorb_and_or_inverse root (root ∷ [])
    ∷ (given (const_node g true) (λ node. request Rule.and_true_inverse root (node ∷ []) ∷ [])
        ++ (given (const_node g false) (λ node. request Rule.or_false_inverse root (node ∷ []) ∷ [])
            ++ given (const_signal g root) (λ value. constant_inverse_requests g value root))))
