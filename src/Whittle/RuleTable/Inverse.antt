-- ===== src/Whittle/RuleTable/Inverse.antt =====
-- crates/gz-engine-whittle/src/rules.rs: the numbers of the rules and `inverse_rule_id`.
use graphzero.Base.{
  ℕ, zero, suc, ◌+◌, ◌≡◌, refl, subst, inl, inr, Bool, true, false, ◌&&◌, Option, none, some, List,
  [], ◌∷◌, ◌==◌, get_elem?, Option-cases, ==→eq, arith,
}
use graphzero.Whittle.RuleTable.{RuleId, rules, from_u16, as_u16, inverse, inverse_rule_id}

abbrev is_some_of : ℕ → Option ℕ → Bool
is_some_of n none = false
is_some_of n (some m) = m == n

is_some_of_lem : (n : ℕ) (o : Option ℕ) → is_some_of n o ≡ true → o ≡ some n
is_some_of_lem n none h = cc
is_some_of_lem n (some m) h = let same : m ≡ n = ==→eq m n h in cc

-- In a list of rules whose numbers run on from `k`, the inverse of each rule has its number as inverse.
undone : ℕ → List RuleId → Bool
unfolding inverse_rule_id inverse as_u16
undone k [] = true
undone k (r ∷ rs) = is_some_of k (inverse_rule_id (as_u16 (inverse r))) && undone (suc k) rs

undone_lem :
    (k : ℕ) (rs : List RuleId) (n m : ℕ) (r : RuleId)
    → undone k rs ≡ true
    → get_elem? rs n ≡ some r
    → k + n ≡ m
    → inverse_rule_id (as_u16 (inverse r)) ≡ some m
unfolding undone
undone_lem k [] n m r h e at = cc
undone_lem k (q ∷ rs) zero m r h e at =
    let same : q ≡ r = cc in
    let here : k ≡ m = omega (arith, at) in
    let found : inverse_rule_id (as_u16 (inverse q)) ≡ some k =
      is_some_of_lem k _ (ground (arith, h)) in
    subst (λ t. inverse_rule_id (as_u16 (inverse t)) ≡ some m) same (cc)
undone_lem k (q ∷ rs) (suc n) m r h e at =
    undone_lem (suc k) rs n m r (ground (arith, h)) e (omega (arith, at))

-- The number of a rule that is inverse to another has that other as its inverse.
pub inverse_rule_id-inverse_rule_id :
    (n m : ℕ) → inverse_rule_id n ≡ some m → inverse_rule_id m ≡ some n
inverse_rule_id-inverse_rule_id n m e = elim (Option-cases (get_elem? rules n)) [
  | inl missing ↦ absurd (unfold inverse_rule_id from_u16 in ground (arith, e, missing))
  | inr (r, at) ↦
      let same : as_u16 (inverse r) ≡ m =
        unfold inverse_rule_id from_u16 in ground (arith, e, at) in
      subst (λ i. inverse_rule_id i ≡ some n) same
        (undone_lem 0 rules n n r (unfold undone inverse_rule_id from_u16 inverse as_u16 in refl) at
          (omega arith))
]
