-- ===== src/Tests/Search.antt =====
-- crates/gz-search/src/gumbel/schedule.rs at concrete inputs.
use graphzero.Base.{ℕ, suc, ◌≤◌, ◌≡◌, refl, [], ◌∷◌, length, take, arith}
use graphzero.Search.Schedule.{ceil_log2, bump, repeat, halve, considered_visit_sequence}
use graphzero.Search.Schedule.Visits.{Follows, count, considered_visit_sequence_lem}

-- Four actions and ten simulations: each is visited twice but the last two, which are dropped.
four_ten : considered_visit_sequence 4 10 ≡ 0 ∷ 0 ∷ 0 ∷ 0 ∷ 1 ∷ 1 ∷ 2 ∷ 2 ∷ 3 ∷ 3 ∷ []
unfolding considered_visit_sequence halve repeat bump ceil_log2 take
four_ten = refl

considered_visit_sequence_lem_example :
    (length (considered_visit_sequence 4 10) ≡ 10)
    × ((k : ℕ) → Follows 4 (take k (considered_visit_sequence 4 10)))
    × ((v : ℕ)
        → count (suc v) (considered_visit_sequence 4 10) ≤ count v (considered_visit_sequence 4 10))
    × (count 0 (considered_visit_sequence 4 10) ≤ 4)
considered_visit_sequence_lem_example =
    considered_visit_sequence_lem 4 10 (omega arith) (omega arith)
