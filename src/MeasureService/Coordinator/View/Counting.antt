-- ===== src/MeasureService/Coordinator/View/Counting.antt =====
-- Counting in a queue of job ids.
use graphzero.Base.{ℕ, suc, ◌+◌, ◌-◌, ◌≡◌, List, [], ◌∷◌, ◌++◌, if◌then◌else◌, ◌==◌, ltb, arith}
use graphzero.MeasureService.Coordinator.{is_queued, unqueue}

-- How often a job stands in a queue.
abbrev pub count : ℕ → List ℕ → ℕ
count id [] = 0
count id (x ∷ xs) = if x == id then suc (count id xs) else count id xs

pub count-append :
    (id x : ℕ) (xs : List ℕ) → count id (xs ++ (x ∷ [])) ≡ count id xs + (if x == id then 1 else 0)
count-append id x [] = ground arith
count-append id x (y ∷ xs) = ground (arith, count-append id x xs)

pub count-unqueue :
    (id x : ℕ) (xs : List ℕ)
    → count id (unqueue x xs) ≡ (if x == id then count id xs - 1 else count id xs)
unfolding unqueue
count-unqueue id x [] = ground arith
count-unqueue id x (y ∷ xs) = ground (arith, count-unqueue id x xs)

pub is_queued-count : (id : ℕ) (xs : List ℕ) → is_queued id xs ≡ ltb 0 (count id xs)
unfolding is_queued
is_queued-count id [] = ground arith
is_queued-count id (y ∷ xs) = ground (arith, is_queued-count id xs)
