-- ===== src/Base/Lists.antt =====
-- Lists over native numbers: length, reads and writes by index, and the laws between them.
use Prim.Native.Nat.{ℕ, zero, suc, ◌+◌, ◌≤◌, ◌<◌}
use mathlib.Core.Path.{◌≡◌, refl, ap, subst}
use mathlib.Core.Option.{Option, none, some}
use mathlib.Core.List.{List, [], ◌∷◌, ◌++◌}
use native.Mathlib.Omega.{arith}
use graphzero.Base.Tests.{◌==◌, if◌then◌else◌}

module _ {ℓ} {A : Type ℓ} where
  abbrev pub length : List A → ℕ
  length [] = 0
  length (x ∷ xs) = suc (length xs)

  abbrev pub get_elem? : List A → ℕ → Option A
  get_elem? [] i = none
  get_elem? (x ∷ xs) zero = some x
  get_elem? (x ∷ xs) (suc i) = get_elem? xs i

  -- A write out of bounds changes nothing.
  abbrev pub set : List A → ℕ → A → List A
  set [] i v = []
  set (x ∷ xs) zero v = v ∷ xs
  set (x ∷ xs) (suc i) v = x ∷ set xs i v

  abbrev pub get_or : A → List A → ℕ → A
  get_or d [] i = d
  get_or d (x ∷ xs) zero = x
  get_or d (x ∷ xs) (suc i) = get_or d xs i

  abbrev pub replicate : ℕ → A → List A
  replicate zero x = []
  replicate (suc n) x = x ∷ replicate n x

  pub length-append : (xs ys : List A) → length (xs ++ ys) ≡ length xs + length ys
  length-append [] ys = omega arith
  length-append (x ∷ xs) ys = omega (arith, length-append xs ys)

  pub length-set : (xs : List A) (i : ℕ) (v : A) → length (set xs i v) ≡ length xs
  length-set [] i v = refl
  length-set (x ∷ xs) zero v = refl
  length-set (x ∷ xs) (suc i) v = omega (arith, length-set xs i v)

  pub length-replicate : (n : ℕ) (x : A) → length (replicate n x) ≡ n
  length-replicate zero x = refl
  length-replicate (suc n) x = omega (arith, length-replicate n x)

  -- What is left after the first `n` elements, and those elements.
  unfoldable pub skip : ℕ → List A → List A
  skip zero xs = xs
  skip (suc n) [] = []
  skip (suc n) (x ∷ xs) = skip n xs

  unfoldable pub take : ℕ → List A → List A
  take zero xs = []
  take (suc n) [] = []
  take (suc n) (x ∷ xs) = x ∷ take n xs

  pub take-skip : (n : ℕ) (xs : List A) → take n xs ++ skip n xs ≡ xs
  unfolding take skip
  take-skip zero xs = refl
  take-skip (suc n) [] = refl
  take-skip (suc n) (x ∷ xs) = ap (λ rest. x ∷ rest) (take-skip n xs)

  pub length-skip : (n : ℕ) (xs : List A) → length (skip n xs) ≤ length xs
  unfolding skip
  length-skip zero xs = omega arith
  length-skip (suc n) [] = omega arith
  length-skip (suc n) (x ∷ xs) = omega (arith, length-skip n xs)

  pub length-take : (n : ℕ) (xs : List A) → length (take n xs) ≤ n
  unfolding take
  length-take zero xs = omega arith
  length-take (suc n) [] = omega arith
  length-take (suc n) (x ∷ xs) = omega (arith, length-take n xs)

  pub take-append : (n : ℕ) (xs ys : List A) → length xs ≡ n → take n (xs ++ ys) ≡ xs
  unfolding take
  take-append zero [] ys h = refl
  take-append zero (x ∷ xs) ys h = absurd (omega (arith, h))
  take-append (suc n) [] ys h = absurd (omega (arith, h))
  take-append (suc n) (x ∷ xs) ys h = ap (λ rest. x ∷ rest) (take-append n xs ys (omega (arith, h)))

  pub skip-append : (n : ℕ) (xs ys : List A) → length xs ≡ n → skip n (xs ++ ys) ≡ ys
  unfolding skip
  skip-append zero [] ys h = refl
  skip-append zero (x ∷ xs) ys h = absurd (omega (arith, h))
  skip-append (suc n) [] ys h = absurd (omega (arith, h))
  skip-append (suc n) (x ∷ xs) ys h = skip-append n xs ys (omega (arith, h))

  pub length-take_within : (n : ℕ) (xs : List A) → n ≤ length xs → length (take n xs) ≡ n
  unfolding take
  length-take_within zero xs h = refl
  length-take_within (suc n) [] h = absurd (omega (arith, h))
  length-take_within (suc n) (x ∷ xs) h = omega (arith, length-take_within n xs (omega (arith, h)))

  pub length-skip_within :
      (n : ℕ) (xs : List A) → n ≤ length xs → n + length (skip n xs) ≡ length xs
  unfolding skip
  length-skip_within zero xs h = omega arith
  length-skip_within (suc n) [] h = absurd (omega (arith, h))
  length-skip_within (suc n) (x ∷ xs) h = omega (arith, length-skip_within n xs (omega (arith, h)))

  pub get_or-append :
      (d : A) (xs ys : List A) (i : ℕ) → i < length xs → get_or d (xs ++ ys) i ≡ get_or d xs i
  get_or-append d [] ys i h = absurd (omega (arith, h))
  get_or-append d (x ∷ xs) ys zero h = refl
  get_or-append d (x ∷ xs) ys (suc i) h = get_or-append d xs ys i (omega (arith, h))

  pub get_or-append_last : (d : A) (xs : List A) (y : A) → get_or d (xs ++ (y ∷ [])) (length xs) ≡ y
  get_or-append_last d [] y = refl
  get_or-append_last d (x ∷ xs) y = get_or-append_last d xs y

  pub get_or-set :
      (d : A) (xs : List A) (i j : ℕ) (v : A)
      → i < length xs
      → get_or d (set xs i v) j ≡ (if i == j then v else get_or d xs j)
  get_or-set d [] i j v h = absurd (omega (arith, h))
  get_or-set d (x ∷ xs) zero zero v h = refl
  get_or-set d (x ∷ xs) zero (suc j) v h = ground arith
  get_or-set d (x ∷ xs) (suc i) zero v h = ground arith
  get_or-set d (x ∷ xs) (suc i) (suc j) v h =
      ground (arith, get_or-set d xs i j v (omega (arith, h)))

  pub get_or-replicate : (d : A) (n i : ℕ) → get_or d (replicate n d) i ≡ d
  get_or-replicate d zero i = refl
  get_or-replicate d (suc n) zero = refl
  get_or-replicate d (suc n) (suc i) = get_or-replicate d n i

  abbrev pub All {κ} : (A → Type κ) → List A → Type κ
  All P [] = Unit
  All P (x ∷ xs) = P x × All P xs

  pub All-append {κ} : (P : A → Type κ) (xs ys : List A) → All P xs → All P ys → All P (xs ++ ys)
  All-append P [] ys hx hy = hy
  All-append P (x ∷ xs) ys hx hy = (hx.0, All-append P xs ys hx.1 hy)

  pub All-map {κ μ} :
      (P : A → Type κ) (Q : A → Type μ) (xs : List A) → ((a : A) → P a → Q a) → All P xs → All Q xs
  All-map P Q [] f h = tt
  All-map P Q (x ∷ xs) f h = (f x h.0, All-map P Q xs f h.1)

  pub All-get_or {κ} :
      (P : A → Type κ) (d : A) (xs : List A) (i : ℕ) → i < length xs → All P xs → P (get_or d xs i)
  All-get_or P d [] i l h = absurd (omega (arith, l))
  All-get_or P d (x ∷ xs) zero l h = h.0
  All-get_or P d (x ∷ xs) (suc i) l h = All-get_or P d xs i (omega (arith, l)) h.1

  pub All-get_elem? {κ} :
      (P : A → Type κ) (xs : List A) (i : ℕ) (a : A) → get_elem? xs i ≡ some a → All P xs → P a
  All-get_elem? P [] i a e h = cc
  All-get_elem? P (x ∷ xs) zero a e h = subst P (cc) h.0
  All-get_elem? P (x ∷ xs) (suc i) a e h = All-get_elem? P xs i a e h.1
