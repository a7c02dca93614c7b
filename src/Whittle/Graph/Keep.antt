-- ===== src/Whittle/Graph/Keep.antt =====
-- Which nodes `compact_graph` of graph.rs keeps.
use graphzero.Base.{
  ℕ, zero, suc, ◌+◌, ◌<◌, ◌≤◌, ◌≡◌, ap, ◌⊎◌, inl, inr, Bool, true, false, ◌||◌, List, [], ◌∷◌, ltb,
  length, get_or, All, All-map, Bool-cases, arith,
}
use graphzero.Whittle.Graph.{collect}

-- Where a number stands in a list.
abbrev pub Has : List ℕ → ℕ → Type 0
Has xs c = (k : ℕ) × (k < length xs) × (get_or 0 xs k ≡ c)

-- A node is kept if it is an input or marked: `k` counts from the node where the flags start.
abbrev pub Kept : ℕ → ℕ → List Bool → ℕ → Type 0
Kept arity i flags k = (i + k < arity) ⊎ (get_or false flags k ≡ true)

kept_cases : (arity i : ℕ) (b : Bool) → (ltb i arity || b) ≡ true → (i < arity) ⊎ (b ≡ true)
kept_cases arity i b h = elim (Bool-cases b) [ inl e ↦ inr e | inr e ↦ inl (ground (arith, h, e)) ]

Has-suc : (x c : ℕ) (xs : List ℕ) → Has xs c → Has (x ∷ xs) c
Has-suc x c xs (k, l, e) = (suc k, omega (arith, l), e)

Has-shift : (i k : ℕ) (xs : List ℕ) → Has xs (suc i + k) → Has xs (i + suc k)
Has-shift i k xs (m, a, e) = (m, a, omega (arith, e))

module _ (arity : ℕ) where
  -- One round of the loop, by whether it keeps the node.
  collect_kept :
      (i count : ℕ) (b : Bool) (flags : List Bool)
      → (ltb i arity || b) ≡ true
      → (collect arity i count (b ∷ flags)).0 ≡ i ∷ (collect arity (suc i) (suc count) flags).0
  unfolding collect
  collect_kept i count b flags h = rw h

  collect_dropped :
      (i count : ℕ) (b : Bool) (flags : List Bool)
      → (ltb i arity || b) ≡ false
      → (collect arity i count (b ∷ flags)).0 ≡ (collect arity (suc i) count flags).0
  unfolding collect
  collect_dropped i count b flags h = rw h

  Kept-suc :
      (i k : ℕ) (b : Bool) (flags : List Bool)
      → Kept arity (suc i) flags k
      → Kept arity i (b ∷ flags) (suc k)
  Kept-suc i k b flags (inl l) = inl (omega (arith, l))
  Kept-suc i k b flags (inr m) = inr m

  Kept-pred :
      (i k : ℕ) (b : Bool) (flags : List Bool)
      → Kept arity i (b ∷ flags) (suc k)
      → Kept arity (suc i) flags k
  Kept-pred i k b flags (inl l) = inl (omega (arith, l))
  Kept-pred i k b flags (inr m) = inr m

  Kept-cons :
      (i k : ℕ) (b : Bool) (flags : List Bool)
      → (ltb i arity || b) ≡ true
      → ((p : ℕ) → p < length flags → Kept arity (suc i) flags p)
      → k < length (b ∷ flags)
      → Kept arity i (b ∷ flags) k
  Kept-cons i zero b flags c later l = ground (arith, kept_cases arity i b c)
  Kept-cons i (suc k) b flags c later l = Kept-suc i k b flags (later k (omega (arith, l)))

  abbrev Looked : ℕ → List Bool → ℕ → Type 0
  Looked i flags o = (k : ℕ) × (k < length flags) × (o ≡ i + k) × Kept arity i flags k

  Looked-suc :
      (i : ℕ) (b : Bool) (flags : List Bool) (o : ℕ)
      → Looked (suc i) flags o
      → Looked i (b ∷ flags) o
  Looked-suc i b flags o (k, l, e, h) =
      (suc k, omega (arith, l), omega (arith, e), Kept-suc i k b flags h)

  -- Each kept node is one of those looked at.
  pub collect_sound :
      (i count : ℕ) (flags : List Bool)
      → All
          (λ o. (k : ℕ) × (k < length flags) × (o ≡ i + k) × Kept arity i flags k)
          (collect arity i count flags).0
  unfolding collect
  collect_sound i count [] = tt
  collect_sound i count (b ∷ flags) = elim (Bool-cases (ltb i arity || b)) [
    | inl h ↦ rw (collect_kept i count b flags h) (
      (0, omega arith, omega arith, ground (arith, kept_cases arity i b h)),
      All-map (Looked (suc i) flags) (Looked i (b ∷ flags)) _ (Looked-suc i b flags)
          (collect_sound (suc i) (suc count) flags),
    )
    | inr h ↦ rw (collect_dropped i count b flags h) (
        All-map (Looked (suc i) flags) (Looked i (b ∷ flags)) _ (Looked-suc i b flags)
          (collect_sound (suc i) count flags))
  ]

  pub collect_complete :
      (i count : ℕ) (flags : List Bool) (k : ℕ)
      → k < length flags
      → Kept arity i flags k
      → Has (collect arity i count flags).0 (i + k)
  collect_complete i count [] k l h = absurd (omega (arith, l))
  collect_complete i count (b ∷ flags) zero l h =
      rw (collect_kept i count b flags (ground (arith, h))) (0, omega arith, omega arith)
  collect_complete i count (b ∷ flags) (suc k) l h = elim (Bool-cases (ltb i arity || b)) [
    | inl c ↦ rw (collect_kept i count b flags c) (
        Has-suc i (i + suc k) _ (
          Has-shift i k _ (
            collect_complete (suc i) (suc count) flags k (omega (arith, l))
              (Kept-pred i k b flags h))))
    | inr c ↦ rw (collect_dropped i count b flags c) (
        Has-shift i k _
          (collect_complete (suc i) count flags k (omega (arith, l)) (Kept-pred i k b flags h)))
  ]

  -- The inputs come first and keep their places.
  pub collect_inputs :
      (i count : ℕ) (flags : List Bool) (k : ℕ)
      → k < length flags
      → i + k < arity
      → get_or 0 (collect arity i count flags).0 k ≡ i + k
  collect_inputs i count [] k l h = absurd (omega (arith, l))
  collect_inputs i count (b ∷ flags) zero l h =
      rw (collect_kept i count b flags (ground (arith, h))) (omega arith)
  collect_inputs i count (b ∷ flags) (suc k) l h =
      rw (collect_kept i count b flags (ground (arith, h))) (
        omega
          (arith, collect_inputs (suc i) (suc count) flags k (omega (arith, l)) (omega (arith, h))))

  pub collect_inputs_within :
      (i count : ℕ) (flags : List Bool) (m : ℕ)
      → i + m ≤ arity
      → m ≤ length flags
      → m ≤ length (collect arity i count flags).0
  collect_inputs_within i count flags zero a l = omega arith
  collect_inputs_within i count [] (suc m) a l = absurd (omega (arith, l))
  collect_inputs_within i count (b ∷ flags) (suc m) a l =
      rw (collect_kept i count b flags (ground (arith, a))) (
        omega (
          arith,
          collect_inputs_within (suc i) (suc count) flags m (omega (arith, a)) (omega (arith, l)),
        ))

  pub length-collect :
      (i count : ℕ) (flags : List Bool) → length (collect arity i count flags).0 ≤ length flags
  unfolding collect
  length-collect i count [] = omega arith
  length-collect i count (b ∷ flags) =
      ground (arith, length-collect (suc i) count flags, length-collect (suc i) (suc count) flags)

  -- Where as many nodes are kept as there are, each is kept.
  pub collect_all :
      (i count : ℕ) (flags : List Bool)
      → length (collect arity i count flags).0 ≡ length flags
      → (k : ℕ) → k < length flags
      → Kept arity i flags k
  collect_all i count [] e k l = absurd (omega (arith, l))
  collect_all i count (b ∷ flags) e k l = elim (Bool-cases (ltb i arity || b)) [
    | inr c ↦ absurd (
        omega (
          arith,
          e,
          ap length (collect_dropped i count b flags c),
          length-collect (suc i) count flags,
        ))
    | inl c ↦
        Kept-cons i k b flags c
          (λ p.
            collect_all (suc i) (suc count) flags
              (omega (arith, e, ap length (collect_kept i count b flags c))) p)
          l
  ]
