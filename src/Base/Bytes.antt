-- ===== src/Base/Bytes.antt =====
-- Numbers as bytes, in both orders, and the byte order of keys.
use Prim.Native.Nat.{ℕ, zero, suc, ◌+◌, ◌*◌, ◌/◌, ◌%◌, ◌<◌}
use mathlib.Core.Path.{◌≡◌, refl}
use mathlib.Core.Bool.{Bool, true, false, ◌&&◌, ◌||◌}
use mathlib.Core.List.{List, [], ◌∷◌, ◌++◌}
use native.Mathlib.Omega.{arith}
use graphzero.Base.Tests.{◌==◌, ltb}
use graphzero.Base.Lists.{length, length-append}

-- How many numbers fit into so many bytes.
abbrev pub space : ℕ → ℕ
space zero = 1
space (suc width) = 256 * space width

-- `to_le_bytes` and `from_le_bytes`.
unfoldable pub to_le : ℕ → ℕ → List ℕ
to_le zero n = []
to_le (suc width) n = (n % 256) ∷ to_le width (n / 256)

unfoldable pub from_le : List ℕ → ℕ
from_le [] = 0
from_le (b ∷ bytes) = b + 256 * from_le bytes

-- `to_be_bytes` and `from_be_bytes`.
unfoldable pub to_be : ℕ → ℕ → List ℕ
to_be zero n = []
to_be (suc width) n = to_be width (n / 256) ++ ((n % 256) ∷ [])

unfoldable pub from_be : ℕ → List ℕ → ℕ
from_be high [] = high
from_be high (b ∷ bytes) = from_be (high * 256 + b) bytes

pub length-to_le : (width n : ℕ) → length (to_le width n) ≡ width
unfolding to_le
length-to_le zero n = refl
length-to_le (suc width) n = omega (arith, length-to_le width (n / 256))

pub length-to_be : (width n : ℕ) → length (to_be width n) ≡ width
unfolding to_be
length-to_be zero n = refl
length-to_be (suc width) n =
    omega
      (arith, length-to_be width (n / 256), length-append (to_be width (n / 256)) ((n % 256) ∷ []))

pub from_le-to_le : (width n : ℕ) → n < space width → from_le (to_le width n) ≡ n
unfolding to_le from_le
from_le-to_le zero n h = omega (arith, h)
from_le-to_le (suc width) n h = omega (arith, from_le-to_le width (n / 256) (omega (arith, h)), h)

from_be-append :
    (high : ℕ) (xs ys : List ℕ) → from_be high (xs ++ ys) ≡ from_be (from_be high xs) ys
unfolding from_be
from_be-append high [] ys = refl
from_be-append high (x ∷ xs) ys = from_be-append (high * 256 + x) xs ys

pub from_be-to_be : (width n : ℕ) → n < space width → from_be 0 (to_be width n) ≡ n
unfolding to_be from_be
from_be-to_be zero n h = omega (arith, h)
from_be-to_be (suc width) n h = omega (
  arith,
  from_be-append 0 (to_be width (n / 256)) ((n % 256) ∷ []),
  from_be-to_be width (n / 256) (omega (arith, h)),
  h,
)

-- Equality and strict lexicographic order of byte strings.
unfoldable pub same : List ℕ → List ℕ → Bool
same [] [] = true
same (x ∷ xs) (y ∷ ys) = x == y && same xs ys
same _ _ = false

unfoldable pub before : List ℕ → List ℕ → Bool
before [] [] = false
before [] (y ∷ ys) = true
before (x ∷ xs) [] = false
before (x ∷ xs) (y ∷ ys) = ltb x y || (x == y && before xs ys)

pub same-append :
    (xs ys us vs : List ℕ)
    → length xs ≡ length ys
    → same (xs ++ us) (ys ++ vs) ≡ (same xs ys && same us vs)
unfolding same
same-append [] [] us vs h = refl
same-append [] (y ∷ ys) us vs h = absurd (omega (arith, h))
same-append (x ∷ xs) [] us vs h = absurd (omega (arith, h))
same-append (x ∷ xs) (y ∷ ys) us vs h = ground (arith, same-append xs ys us vs (omega (arith, h)))

pub before-append :
    (xs ys us vs : List ℕ)
    → length xs ≡ length ys
    → before (xs ++ us) (ys ++ vs) ≡ (before xs ys || (same xs ys && before us vs))
unfolding same before
before-append [] [] us vs h = refl
before-append [] (y ∷ ys) us vs h = absurd (omega (arith, h))
before-append (x ∷ xs) [] us vs h = absurd (omega (arith, h))
before-append (x ∷ xs) (y ∷ ys) us vs h =
    ground (arith, before-append xs ys us vs (omega (arith, h)))

same_one : (a b : ℕ) → same (a ∷ []) (b ∷ []) ≡ (a == b)
unfolding same
same_one a b = ground arith

before_one : (a b : ℕ) → before (a ∷ []) (b ∷ []) ≡ ltb a b
unfolding before
before_one a b = ground arith

digits_same : (n m : ℕ) → ((n / 256) == (m / 256) && (n % 256) == (m % 256)) ≡ (n == m)
digits_same n m = ground arith

digits_before :
    (n m : ℕ)
    → (ltb (n / 256) (m / 256) || ((n / 256) == (m / 256) && ltb (n % 256) (m % 256))) ≡ ltb n m
digits_before n m = ground arith

same_lengths : (width n m : ℕ) → length (to_be width n) ≡ length (to_be width m)
same_lengths width n m = omega (arith, length-to_be width n, length-to_be width m)

-- Numbers of the same width, most significant byte first, are ordered as numbers.
pub same-to_be :
    (width n m : ℕ)
    → n < space width
    → m < space width
    → same (to_be width n) (to_be width m) ≡ (n == m)
unfolding to_be same
same-to_be zero n m h k = ground (arith, h, k)
same-to_be (suc width) n m h k = ground (
  arith,
  same-append (to_be width (n / 256)) (to_be width (m / 256)) ((n % 256) ∷ []) ((m % 256) ∷ [])
      (same_lengths width (n / 256) (m / 256)),
  same_one (n % 256) (m % 256),
  same-to_be width (n / 256) (m / 256) (omega (arith, h)) (omega (arith, k)),
  digits_same n m,
)

pub before-to_be :
    (width n m : ℕ)
    → n < space width
    → m < space width
    → before (to_be width n) (to_be width m) ≡ ltb n m
unfolding to_be before
before-to_be zero n m h k = ground (arith, h, k)
before-to_be (suc width) n m h k = ground (
  arith,
  before-append (to_be width (n / 256)) (to_be width (m / 256)) ((n % 256) ∷ []) ((m % 256) ∷ [])
      (same_lengths width (n / 256) (m / 256)),
  before_one (n % 256) (m % 256),
  same-to_be width (n / 256) (m / 256) (omega (arith, h)) (omega (arith, k)),
  before-to_be width (n / 256) (m / 256) (omega (arith, h)) (omega (arith, k)),
  digits_before n m,
)
