-- ===== src/Whittle/Candidates/Laws.antt =====
-- The laws of Boolean algebra behind the rules of rules.rs: a rule whose matched nodes have the values
-- that its pattern asks for gives its root the value that it has. Both sides of each law, for And and
-- for Or, are one lemma.
use graphzero.Base.{ℕ, ◌≡◌, Bool, not, ◌&&◌, ◌||◌, arith}
use graphzero.Whittle.Rules.Meaning.{rule_value}
use graphzero.Whittle.Candidates.{
  Side, conj, disj, other, idempotent_rule, complement_rule, commute_rule, associate_left_rule,
  associate_right_rule, absorb_rule, expand_rule, nots_rule, factor_rule, consensus_add_rule,
  consensus_remove_rule,
}

unfoldable pub join : Side → Bool → Bool → Bool
join conj p q = p && q
join disj p q = p || q

pub idempotent_law :
    (s : Side) (b : Bool) (m : ℕ → Bool)
    → b ≡ join s (m 1) (m 1)
    → rule_value (idempotent_rule s) b m ≡ b
unfolding rule_value idempotent_rule join other
idempotent_law conj b m e = ground arith
idempotent_law disj b m e = ground arith

pub complement_law :
    (s : Side) (b : Bool) (m : ℕ → Bool)
    → b ≡ join s (m 1) (m 2)
    → m 2 ≡ not (m 1)
    → rule_value (complement_rule s) b m ≡ b
unfolding rule_value complement_rule join other
complement_law conj b m e f = ground arith
complement_law disj b m e f = ground arith

pub commute_law :
    (s : Side) (b : Bool) (m : ℕ → Bool)
    → b ≡ join s (m 1) (m 2)
    → rule_value (commute_rule s) b m ≡ b
unfolding rule_value commute_rule join other
commute_law conj b m e = ground arith
commute_law disj b m e = ground arith

pub associate_right_law :
    (s : Side) (b : Bool) (m : ℕ → Bool)
    → b ≡ join s (m 1) (m 4)
    → m 1 ≡ join s (m 2) (m 3)
    → rule_value (associate_right_rule s) b m ≡ b
unfolding rule_value associate_right_rule join other
associate_right_law conj b m e f = ground arith
associate_right_law disj b m e f = ground arith

pub associate_left_law :
    (s : Side) (b : Bool) (m : ℕ → Bool)
    → b ≡ join s (m 2) (m 1)
    → m 1 ≡ join s (m 3) (m 4)
    → rule_value (associate_left_rule s) b m ≡ b
unfolding rule_value associate_left_rule join other
associate_left_law conj b m e f = ground arith
associate_left_law disj b m e f = ground arith

pub absorb_law :
    (s : Side) (b : Bool) (m : ℕ → Bool)
    → b ≡ join s (m 1) (m 2)
    → m 2 ≡ join (other s) (m 1) (m 3)
    → rule_value (absorb_rule s) b m ≡ b
unfolding rule_value absorb_rule join other
absorb_law conj b m e f = ground arith
absorb_law disj b m e f = ground arith

pub expand_law :
    (s : Side) (b : Bool) (m : ℕ → Bool)
    → b ≡ join s (m 2) (m 1)
    → m 1 ≡ join (other s) (m 3) (m 4)
    → rule_value (expand_rule s) b m ≡ b
unfolding rule_value expand_rule join other
expand_law conj b m e f = ground arith
expand_law disj b m e f = ground arith

pub nots_law :
    (s : Side) (b : Bool) (m : ℕ → Bool)
    → b ≡ join s (m 1) (m 2)
    → m 1 ≡ not (m 3)
    → m 2 ≡ not (m 4)
    → rule_value (nots_rule s) b m ≡ b
unfolding rule_value nots_rule join other
nots_law conj b m e f g = ground arith
nots_law disj b m e f g = ground arith

pub factor_law :
    (s : Side) (b : Bool) (m : ℕ → Bool)
    → b ≡ join s (m 1) (m 2)
    → m 1 ≡ join (other s) (m 3) (m 4)
    → m 2 ≡ join (other s) (m 3) (m 5)
    → rule_value (factor_rule s) b m ≡ b
unfolding rule_value factor_rule join other
factor_law conj b m e f g = ground arith
factor_law disj b m e f g = ground arith

pub consensus_add_law :
    (s : Side) (b : Bool) (m : ℕ → Bool)
    → b ≡ join s (m 1) (m 2)
    → m 1 ≡ join (other s) (m 3) (m 4)
    → m 2 ≡ join (other s) (m 6) (m 5)
    → m 6 ≡ not (m 3)
    → rule_value (consensus_add_rule s) b m ≡ b
unfolding rule_value consensus_add_rule join other
consensus_add_law conj b m e f g h = ground arith
consensus_add_law disj b m e f g h = ground arith

pub consensus_remove_law :
    (s : Side) (b : Bool) (m : ℕ → Bool) (n : Bool)
    → b ≡ join s (m 1) (m 2)
    → m 1 ≡ join s (m 3) (m 4)
    → m 3 ≡ join (other s) (m 5) (m 6)
    → m 4 ≡ join (other s) n (m 7)
    → n ≡ not (m 5)
    → m 2 ≡ join (other s) (m 6) (m 7)
    → rule_value (consensus_remove_rule s) b m ≡ b
unfolding rule_value consensus_remove_rule join other
consensus_remove_law conj b m n e f g h k l = ground arith
consensus_remove_law disj b m n e f g h k l = ground arith

pub join_comm : (s : Side) (p q : Bool) → join s p q ≡ join s q p
unfolding join
join_comm conj p q = ground arith
join_comm disj p q = ground arith
