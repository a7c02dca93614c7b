-- ===== src/Search/Schedule.antt =====
-- crates/gz-search/src/gumbel/schedule.rs: the visit counts of sequential halving. Entry i of the
-- sequence is the number of visits that the root action of simulation i must have. Counts are u32 and
-- wrap, as in a release build; a debug build panics there.
pub mod Visits
use graphzero.Base.{
  ℕ, zero, suc, ◌+◌, ◌-◌, ◌*◌, ◌/◌, ◌%◌, ◌^◌, max, List, [], ◌∷◌, ◌++◌, if◌then◌else◌, ltb, leb,
  length, take, replicate, u32_mod,
}

-- `(max_considered as f64).log2().ceil()`: the least power of two that is no smaller. The fuel is the
-- number itself.
unfoldable pub ceil_log2 : ℕ → ℕ → ℕ → ℕ
ceil_log2 zero k n = k
ceil_log2 (suc fuel) k n = let more = ceil_log2 fuel (suc k) n in if leb n (2 ^ k) then k else more

-- `(0..end)`.
unfoldable pub range : ℕ → ℕ → List ℕ
range start zero = []
range start (suc n) = start ∷ range (suc start) n

-- `for visit in &mut visits[..considered] { *visit += 1 }`.
unfoldable pub bump : ℕ → List ℕ → List ℕ
bump zero visits = visits
bump (suc considered) [] = []
bump (suc considered) (v ∷ visits) = ((v + 1) % u32_mod) ∷ bump considered visits

-- The inner loop, `extra` times: the sequence and the visits after it.
unfoldable pub repeat : ℕ → ℕ → List ℕ → List ℕ → List ℕ × List ℕ
unfolding bump
repeat zero considered sequence visits = (sequence, visits)
repeat (suc extra) considered sequence visits =
    repeat extra considered (sequence ++ take considered visits) (bump considered visits)

-- The outer loop, on fuel.
unfoldable pub halve : ℕ → ℕ → ℕ → ℕ → List ℕ → List ℕ → List ℕ
unfolding repeat
halve zero simulations log2max considered sequence visits = sequence
halve (suc fuel) simulations log2max considered sequence visits =
    let (sequence', visits') =
      repeat (max (simulations / (log2max * considered)) 1) considered sequence visits in
    let rest = halve fuel simulations log2max (max (considered / 2) 2) sequence' visits' in
    if ltb (length sequence) simulations then rest else sequence

-- Every round adds an entry, so as many rounds as there are simulations are enough.
unfoldable pub considered_visit_sequence : ℕ → ℕ → List ℕ
unfolding halve range ceil_log2
considered_visit_sequence max_considered simulations =
    if leb max_considered 1
    then range 0 (simulations % u32_mod)
    else take simulations (
        halve simulations simulations (ceil_log2 max_considered 0 max_considered) max_considered []
          (replicate max_considered 0))
