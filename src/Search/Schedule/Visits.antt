-- ===== src/Search/Schedule/Visits.antt =====
-- The sequence can always be followed: crates/gz-search/src/gumbel/schedule.rs.
use native.Mathlib.Nat.{div-le_self}
use graphzero.Base.{
  ℕ, zero, suc, ◌+◌, ◌*◌, ◌/◌, ◌≤◌, ◌≡◌, refl, ap, ◌∙◌, sym, ◌⊎◌, inl, inr, max, List, [], ◌∷◌,
  ◌++◌, if◌then◌else◌, ◌==◌, ltb, length, take, replicate, arith, length-append, length-take_within,
  length-replicate, Bool-cases, All, All-map, u32_mod, ◌%◌, ◌<◌,
}
use graphzero.Search.Schedule.{ceil_log2, range, bump, repeat, halve, considered_visit_sequence}

-- How often a number stands in a list, and how many entries are above it.
unfoldable pub count : ℕ → List ℕ → ℕ
count v [] = 0
count v (x ∷ xs) = if x == v then suc (count v xs) else count v xs

unfoldable pub above : ℕ → List ℕ → ℕ
above v [] = 0
above v (x ∷ xs) = if ltb v x then suc (above v xs) else above v xs

-- The counts of the list are those of actions that were visited so often.
abbrev pub Follows : ℕ → List ℕ → Type 0
Follows actions xs =
    (visits : List ℕ) × (length visits ≡ actions) × ((v : ℕ) → count v xs ≡ above v visits)

count-append : (v : ℕ) (xs ys : List ℕ) → count v (xs ++ ys) ≡ count v xs + count v ys
unfolding count
count-append v [] ys = ground arith
count-append v (x ∷ xs) ys = ground (arith, count-append v xs ys)

length-bump : (n : ℕ) (visits : List ℕ) → length (bump n visits) ≡ length visits
unfolding bump
length-bump zero visits = refl
length-bump (suc n) [] = refl
length-bump (suc n) (x ∷ visits) = omega (arith, length-bump n visits)

-- No count is above a number.
abbrev AtMost : ℕ → List ℕ → Type 0
AtMost k visits = All (λ v. v ≤ k) visits

AtMost-more : (k m : ℕ) (visits : List ℕ) → k ≤ m → AtMost k visits → AtMost m visits
AtMost-more k m visits l h = All-map (λ v. v ≤ k) (λ v. v ≤ m) visits (λ v b. omega (arith, b, l)) h

AtMost-replicate : (n : ℕ) → AtMost 0 (replicate n 0)
AtMost-replicate zero = tt
AtMost-replicate (suc n) = (omega arith, AtMost-replicate n)

AtMost-bump :
    (k n : ℕ) (visits : List ℕ) → k + 1 < u32_mod → AtMost k visits → AtMost (k + 1) (bump n visits)
unfolding bump
AtMost-bump k zero visits l h = AtMost-more k (k + 1) visits (omega arith) h
AtMost-bump k (suc n) [] l h = tt
AtMost-bump k (suc n) (x ∷ visits) l h = (omega (arith, h.0, l), AtMost-bump k n visits l h.1)

-- Visiting the first actions once more adds their counts, where no count wraps.
above-bump :
    (v n k : ℕ) (visits : List ℕ)
    → k + 1 < u32_mod
    → AtMost k visits
    → above v (bump n visits) ≡ above v visits + count v (take n visits)
unfolding above bump count take
above-bump v zero k visits l h = ground arith
above-bump v (suc n) k [] l h = ground arith
above-bump v (suc n) k (x ∷ visits) l h =
    let next : (x + 1) % u32_mod ≡ suc x = omega (arith, h.0, l) in
    rw next (ground (arith, above-bump v n k visits l h.1))

above-suc : (v : ℕ) (visits : List ℕ) → above (suc v) visits ≤ above v visits
unfolding above
above-suc v [] = ground arith
above-suc v (x ∷ visits) = ground (arith, above-suc v visits)

above-length : (v : ℕ) (visits : List ℕ) → above v visits ≤ length visits
unfolding above
above-length v [] = ground arith
above-length v (x ∷ visits) = ground (arith, above-length v visits)

above-replicate : (v n : ℕ) → above v (replicate n 0) ≡ 0
unfolding above
above-replicate v zero = ground arith
above-replicate v (suc n) = ground (arith, above-replicate v n)

take-append_cases :
    (k : ℕ) (xs ys : List ℕ)
    → (take k (xs ++ ys) ≡ take k xs) ⊎ ((j : ℕ) × (take k (xs ++ ys) ≡ xs ++ take j ys))
unfolding take
take-append_cases k [] ys = inr (k, refl)
take-append_cases zero (x ∷ xs) ys = inl refl
take-append_cases (suc k) (x ∷ xs) ys = elim (take-append_cases k xs ys) [
  | inl e ↦ inl (ap (λ rest. x ∷ rest) e)
  | inr (j, e) ↦ inr (j, ap (λ rest. x ∷ rest) e)
]

take_nil : (k : ℕ) → take {A = ℕ} k [] ≡ []
unfolding take
take_nil zero = refl
take_nil (suc k) = refl

take-take : (j n : ℕ) (xs : List ℕ) → (i : ℕ) × (take j (take n xs) ≡ take i xs)
unfolding take
take-take zero n xs = (0, refl)
take-take (suc j) zero xs = (0, refl)
take-take (suc j) (suc n) [] = (0, refl)
take-take (suc j) (suc n) (x ∷ xs) =
    let (i, e) = take-take j n xs in (suc i, ap (λ rest. x ∷ rest) e)

-- Every prefix of the sequence can be followed, and the visits are those after all of it.
record Sound (actions : ℕ) (sequence visits : List ℕ) : Type 0 where
  size : length visits ≡ actions
  prefixes : (k : ℕ) → Follows actions (take k sequence)
  counted : (v : ℕ) → count v sequence ≡ above v visits

extend-Sound :
    (actions n m : ℕ) (sequence visits : List ℕ)
    → m + 1 < u32_mod
    → AtMost m visits
    → Sound actions sequence visits
    → Sound actions (sequence ++ take n visits) (bump n visits)
extend-Sound actions n m sequence visits l h s = record {
  size = length-bump n visits ∙ s.size;
  prefixes = λ k. elim (take-append_cases k sequence (take n visits)) [
    | inl e ↦ rw e (s.prefixes k)
    | inr (j, e) ↦
        let (i, f) = take-take j n visits in
        rw (e, f)
          (
            bump i visits,
            length-bump i visits ∙ s.size,
            λ v. omega (
              arith,
              count-append v sequence (take i visits),
              s.counted v,
              above-bump v i m visits l h,
            ),
          )
  ];
  counted = λ v.
      omega
        (arith, count-append v sequence (take n visits), s.counted v, above-bump v n m visits l h);
}

repeat-Sound :
    (extra actions n m : ℕ) (sequence visits : List ℕ)
    → m + extra < u32_mod
    → AtMost m visits
    → Sound actions sequence visits
    → let (sequence', visits') = repeat extra n sequence visits in
      Sound actions sequence' visits' × AtMost (m + extra) visits'
unfolding repeat
repeat-Sound zero actions n m sequence visits l h s =
    (s, AtMost-more m (m + 0) visits (omega arith) h)
repeat-Sound (suc extra) actions n m sequence visits l h s =
    let (sound, most) =
      repeat-Sound extra actions n (m + 1) (sequence ++ take n visits) (bump n visits)
        (omega (arith, l)) (AtMost-bump m n visits (omega (arith, l)) h)
        (extend-Sound actions n m sequence visits (omega (arith, l)) h s) in
    (sound, AtMost-more (m + 1 + extra) (m + suc extra) _ (omega arith) most)

repeat-length :
    (extra n : ℕ) (sequence visits : List ℕ)
    → 1 ≤ n
    → n ≤ length visits
    → let (sequence', visits') = repeat extra n sequence visits in
      (length sequence + extra ≤ length sequence') × (length visits' ≡ length visits)
unfolding repeat
repeat-length zero n sequence visits h k = (omega arith, refl)
repeat-length (suc extra) n sequence visits h k =
    let same = length-bump n visits in
    let (longer, kept) =
      repeat-length extra n (sequence ++ take n visits) (bump n visits) h
        (omega (arith, same, k)) in
    (
      omega
          (arith, longer, length-append sequence (take n visits), length-take_within n visits k, h),
      kept ∙ same,
    )

halve-Follows :
    (fuel simulations log2max considered actions : ℕ) (sequence visits : List ℕ)
    → 2 * simulations ≤ u32_mod
    → 2 ≤ considered
    → considered ≤ length visits
    → AtMost (length sequence) visits
    → Sound actions sequence visits
    → (k : ℕ) → Follows actions (take k (halve fuel simulations log2max considered sequence visits))
unfolding halve
halve-Follows zero simulations log2max considered actions sequence visits b c w h s k = s.prefixes k
halve-Follows (suc fuel) simulations log2max considered actions sequence visits b c w h s k =
    let extra = max (simulations / (log2max * considered)) 1 in
    elim (Bool-cases (ltb (length sequence) simulations)) [
      | inr e ↦ rw e (s.prefixes k)
      | inl e ↦
          let (longer, kept) =
            repeat-length extra considered sequence visits (omega (arith, c)) w in
          let (sound, most) =
            repeat-Sound extra actions considered (length sequence) sequence visits
              (ground (arith, e, b, div-le_self simulations (log2max * considered))) h s in
          rw e (
            halve-Follows fuel simulations log2max (max (considered / 2) 2) actions _ _ b
              (omega arith) (omega (arith, kept, c, w)) (AtMost-more _ _ _ longer most) sound k)
    ]

-- The outer loop ends with enough entries.
halve-length :
    (fuel simulations log2max considered : ℕ) (sequence visits : List ℕ)
    → 2 ≤ considered
    → considered ≤ length visits
    → simulations ≤ length sequence + fuel
    → simulations ≤ length (halve fuel simulations log2max considered sequence visits)
unfolding halve
halve-length zero simulations log2max considered sequence visits c w h = omega (arith, h)
halve-length (suc fuel) simulations log2max considered sequence visits c w h =
    let extra = max (simulations / (log2max * considered)) 1 in
    let (longer, kept) = repeat-length extra considered sequence visits (omega (arith, c)) w in
    elim (Bool-cases (ltb (length sequence) simulations)) [
      | inl e ↦ rw e (
          halve-length fuel simulations log2max (max (considered / 2) 2) _ _ (omega arith)
            (omega (arith, kept, c, w)) (omega (arith, longer, h)))
      | inr e ↦ rw e (ground (arith, e))
    ]

length-range : (start n : ℕ) → length (range start n) ≡ n
unfolding range
length-range start zero = refl
length-range start (suc n) = omega (arith, length-range (suc start) n)

module _ (actions simulations : ℕ) (h : 2 ≤ actions) (fits : 2 * simulations ≤ u32_mod) where
  abbrev whole : List ℕ
  whole =
      halve simulations simulations (ceil_log2 actions 0 actions) actions [] (replicate actions 0)

  many : considered_visit_sequence actions simulations ≡ take simulations whole
  unfolding considered_visit_sequence
  many = ground (arith, h)

  -- At first no action has a visit.
  start-Sound : Sound actions [] (replicate actions 0)
  unfolding count take
  start-Sound = record {
    size = length-replicate {A = ℕ} actions 0;
    prefixes = λ k. (
      replicate actions 0,
      length-replicate {A = ℕ} actions 0,
      λ v. ap (count v) (take_nil k) ∙ sym (above-replicate v actions),
    );
    counted = λ v. sym (above-replicate v actions);
  }

  prefix-Follows :
      (k : ℕ) → Follows actions (take k (considered_visit_sequence actions simulations))
  prefix-Follows k =
      let (i, e) = take-take k simulations whole in
      rw (many, e)
        (halve-Follows simulations simulations (ceil_log2 actions 0 actions) actions actions []
          (replicate actions 0) fits h (omega (arith, length-replicate {A = ℕ} actions 0))
          (AtMost-replicate actions) start-Sound i)

  sequence-Follows : Follows actions (considered_visit_sequence actions simulations)
  sequence-Follows = rw many (
      halve-Follows simulations simulations (ceil_log2 actions 0 actions) actions actions []
        (replicate actions 0) fits h (omega (arith, length-replicate {A = ℕ} actions 0))
        (AtMost-replicate actions) start-Sound simulations)

-- With at least two considered actions and at most 2^31 simulations: no count wraps, the sequence has an entry for each simulation, and it can be
-- followed from start to end: after any number k of simulations there are visit counts of the
-- considered actions under which, for each v, as many actions have more than v visits as entries v
-- were taken. So an entry v + 1 is taken at most as often as an entry v, and an entry 0 at most as
-- often as there are actions.
pub considered_visit_sequence_lem :
    (actions simulations : ℕ)
    → 2 ≤ actions
    → 2 * simulations ≤ u32_mod
    → (length (considered_visit_sequence actions simulations) ≡ simulations)
      × ((k : ℕ) → Follows actions (take k (considered_visit_sequence actions simulations)))
      × ((v : ℕ)
          → count (suc v) (considered_visit_sequence actions simulations)
            ≤ count v (considered_visit_sequence actions simulations))
      × (count 0 (considered_visit_sequence actions simulations) ≤ actions)
considered_visit_sequence_lem actions simulations h fits =
    let (visits, size, counted) = sequence-Follows actions simulations h fits in
    (
      ap length (many actions simulations h fits)
          ∙ length-take_within simulations (whole actions simulations h fits) (
              halve-length simulations simulations (ceil_log2 actions 0 actions) actions []
                (replicate actions 0) h (omega (arith, length-replicate {A = ℕ} actions 0))
                (omega arith)),
      prefix-Follows actions simulations h fits,
      λ v. omega (arith, counted v, counted (suc v), above-suc v visits),
      omega (arith, counted 0, above-length 0 visits, size),
    )
