-- ===== src/Whittle/RuleTable.antt =====
-- crates/gz-engine-whittle/src/rules.rs: the rewrite rules with their numbers, their inverses and the
-- number of nodes that they add, and the errors of their application.
pub mod Inverse
use Prim.Native.String.{String}
use graphzero.Base.{ℕ, Bool, true, false, Option, none, some, List, [], ◌∷◌, get_elem?}
use graphzero.Base.Result.{Result, ok, err}
use graphzero.Whittle.Graph.{GraphError}

pub data RuleId : Type 0 where
  and_false and_true or_false or_true not_false not_true and_idempotent or_idempotent : RuleId
  and_complement or_complement double_negation commute_and commute_or associate_and_left : RuleId
  associate_and_right associate_or_left associate_or_right absorb_or_and absorb_and_or : RuleId
  de_morgan_not_and de_morgan_not_or de_morgan_or_nots de_morgan_and_nots distribute_or_factor :
      RuleId
  distribute_or_expand distribute_and_factor distribute_and_expand consensus_or_add : RuleId
  consensus_or_remove consensus_and_add consensus_and_remove and_false_inverse and_true_inverse :
      RuleId
  or_false_inverse or_true_inverse not_false_inverse not_true_inverse and_idempotent_inverse :
      RuleId
  or_idempotent_inverse and_complement_inverse or_complement_inverse double_negation_inverse :
      RuleId
  absorb_or_and_inverse absorb_and_or_inverse : RuleId

pub data RuleError : Type 0 where
  unknown_rule : ℕ → RuleError
  bad_match_length capacity_exceeded : RuleError
  invalid_candidate : String → RuleError
  graph : GraphError → RuleError

-- The rules in the order of their numbers.
abbrev pub rules : List RuleId
rules =
    and_false ∷ and_true ∷ or_false ∷ or_true ∷ not_false ∷ not_true ∷ and_idempotent
    ∷ or_idempotent ∷ and_complement ∷ or_complement ∷ double_negation ∷ commute_and ∷ commute_or
    ∷ associate_and_left ∷ associate_and_right ∷ associate_or_left ∷ associate_or_right
    ∷ absorb_or_and ∷ absorb_and_or ∷ de_morgan_not_and ∷ de_morgan_not_or ∷ de_morgan_or_nots
    ∷ de_morgan_and_nots ∷ distribute_or_factor ∷ distribute_or_expand ∷ distribute_and_factor
    ∷ distribute_and_expand ∷ consensus_or_add ∷ consensus_or_remove ∷ consensus_and_add
    ∷ consensus_and_remove ∷ and_false_inverse ∷ and_true_inverse ∷ or_false_inverse
    ∷ or_true_inverse ∷ not_false_inverse ∷ not_true_inverse ∷ and_idempotent_inverse
    ∷ or_idempotent_inverse ∷ and_complement_inverse ∷ or_complement_inverse
    ∷ double_negation_inverse ∷ absorb_or_and_inverse ∷ absorb_and_or_inverse ∷ []

unfoldable pub from_u16 : ℕ → Result RuleError RuleId
from_u16 value = elim (get_elem? rules value) [
  | none ↦ err (unknown_rule value)
  | some rule ↦ ok rule
]

unfoldable pub as_u16 : RuleId → ℕ
as_u16 and_false = 0
as_u16 and_true = 1
as_u16 or_false = 2
as_u16 or_true = 3
as_u16 not_false = 4
as_u16 not_true = 5
as_u16 and_idempotent = 6
as_u16 or_idempotent = 7
as_u16 and_complement = 8
as_u16 or_complement = 9
as_u16 double_negation = 10
as_u16 commute_and = 11
as_u16 commute_or = 12
as_u16 associate_and_left = 13
as_u16 associate_and_right = 14
as_u16 associate_or_left = 15
as_u16 associate_or_right = 16
as_u16 absorb_or_and = 17
as_u16 absorb_and_or = 18
as_u16 de_morgan_not_and = 19
as_u16 de_morgan_not_or = 20
as_u16 de_morgan_or_nots = 21
as_u16 de_morgan_and_nots = 22
as_u16 distribute_or_factor = 23
as_u16 distribute_or_expand = 24
as_u16 distribute_and_factor = 25
as_u16 distribute_and_expand = 26
as_u16 consensus_or_add = 27
as_u16 consensus_or_remove = 28
as_u16 consensus_and_add = 29
as_u16 consensus_and_remove = 30
as_u16 and_false_inverse = 31
as_u16 and_true_inverse = 32
as_u16 or_false_inverse = 33
as_u16 or_true_inverse = 34
as_u16 not_false_inverse = 35
as_u16 not_true_inverse = 36
as_u16 and_idempotent_inverse = 37
as_u16 or_idempotent_inverse = 38
as_u16 and_complement_inverse = 39
as_u16 or_complement_inverse = 40
as_u16 double_negation_inverse = 41
as_u16 absorb_or_and_inverse = 42
as_u16 absorb_and_or_inverse = 43

-- The rule that undoes a rule.
unfoldable pub inverse : RuleId → RuleId
inverse and_false = and_false_inverse
inverse and_true = and_true_inverse
inverse or_false = or_false_inverse
inverse or_true = or_true_inverse
inverse not_false = not_false_inverse
inverse not_true = not_true_inverse
inverse and_idempotent = and_idempotent_inverse
inverse or_idempotent = or_idempotent_inverse
inverse and_complement = and_complement_inverse
inverse or_complement = or_complement_inverse
inverse double_negation = double_negation_inverse
inverse commute_and = commute_and
inverse commute_or = commute_or
inverse associate_and_left = associate_and_right
inverse associate_and_right = associate_and_left
inverse associate_or_left = associate_or_right
inverse associate_or_right = associate_or_left
inverse absorb_or_and = absorb_or_and_inverse
inverse absorb_and_or = absorb_and_or_inverse
inverse de_morgan_not_and = de_morgan_or_nots
inverse de_morgan_not_or = de_morgan_and_nots
inverse de_morgan_or_nots = de_morgan_not_and
inverse de_morgan_and_nots = de_morgan_not_or
inverse distribute_or_factor = distribute_or_expand
inverse distribute_or_expand = distribute_or_factor
inverse distribute_and_factor = distribute_and_expand
inverse distribute_and_expand = distribute_and_factor
inverse consensus_or_add = consensus_or_remove
inverse consensus_or_remove = consensus_or_add
inverse consensus_and_add = consensus_and_remove
inverse consensus_and_remove = consensus_and_add
inverse and_false_inverse = and_false
inverse and_true_inverse = and_true
inverse or_false_inverse = or_false
inverse or_true_inverse = or_true
inverse not_false_inverse = not_false
inverse not_true_inverse = not_true
inverse and_idempotent_inverse = and_idempotent
inverse or_idempotent_inverse = or_idempotent
inverse and_complement_inverse = and_complement
inverse or_complement_inverse = or_complement
inverse double_negation_inverse = double_negation
inverse absorb_or_and_inverse = absorb_or_and
inverse absorb_and_or_inverse = absorb_and_or

unfoldable pub inverse_rule_id : ℕ → Option ℕ
unfolding from_u16 inverse as_u16
inverse_rule_id rule_id = elim (from_u16 rule_id) [
  | err e ↦ none
  | ok rule ↦ some (as_u16 (inverse rule))
]

unfoldable pub reverse_constant_folding_rule : RuleId → Bool
reverse_constant_folding_rule and_false_inverse = true
reverse_constant_folding_rule and_true_inverse = true
reverse_constant_folding_rule or_false_inverse = true
reverse_constant_folding_rule or_true_inverse = true
reverse_constant_folding_rule not_false_inverse = true
reverse_constant_folding_rule not_true_inverse = true
reverse_constant_folding_rule _ = false

unfoldable pub replacement_extra_nodes : RuleId → ℕ
replacement_extra_nodes and_false = 0
replacement_extra_nodes and_true = 0
replacement_extra_nodes or_false = 0
replacement_extra_nodes or_true = 0
replacement_extra_nodes not_false = 1
replacement_extra_nodes not_true = 1
replacement_extra_nodes and_idempotent = 0
replacement_extra_nodes or_idempotent = 0
replacement_extra_nodes and_complement = 1
replacement_extra_nodes or_complement = 1
replacement_extra_nodes double_negation = 0
replacement_extra_nodes commute_and = 1
replacement_extra_nodes commute_or = 1
replacement_extra_nodes associate_and_left = 2
replacement_extra_nodes associate_and_right = 2
replacement_extra_nodes associate_or_left = 2
replacement_extra_nodes associate_or_right = 2
replacement_extra_nodes absorb_or_and = 0
replacement_extra_nodes absorb_and_or = 0
replacement_extra_nodes de_morgan_or_nots = 2
replacement_extra_nodes de_morgan_and_nots = 2
replacement_extra_nodes distribute_or_factor = 2
replacement_extra_nodes distribute_and_factor = 2
replacement_extra_nodes consensus_or_add = 2
replacement_extra_nodes consensus_or_remove = 0
replacement_extra_nodes consensus_and_add = 2
replacement_extra_nodes consensus_and_remove = 0
replacement_extra_nodes and_false_inverse = 1
replacement_extra_nodes and_true_inverse = 1
replacement_extra_nodes or_false_inverse = 1
replacement_extra_nodes or_true_inverse = 1
replacement_extra_nodes not_false_inverse = 1
replacement_extra_nodes not_true_inverse = 1
replacement_extra_nodes and_idempotent_inverse = 1
replacement_extra_nodes or_idempotent_inverse = 1
replacement_extra_nodes and_complement_inverse = 1
replacement_extra_nodes or_complement_inverse = 1
replacement_extra_nodes double_negation_inverse = 2
replacement_extra_nodes absorb_or_and_inverse = 2
replacement_extra_nodes absorb_and_or_inverse = 2
replacement_extra_nodes _ = 3
