-- ===== src/Base/Sums.antt =====
-- Association lists with one entry to a key, and sums over their values.
use Prim.Native.Nat.{ℕ, suc, ◌+◌, ◌≤◌}
use mathlib.Core.Path.{◌≡◌, refl}
use mathlib.Core.Logic.{inl, inr}
use mathlib.Core.Option.{none, some}
use mathlib.Core.List.{List, [], ◌∷◌}
use native.Mathlib.Omega.{arith}
use graphzero.Base.Tests.{◌==◌, Bool-cases}
use graphzero.Base.Lists.{length}
use graphzero.Base.Assoc.{
  lookup, insert, remove, lookup-insert, insert_sorted, lookup-insert_sorted, lookup-remove,
}

module _ {ℓ} {V : Type ℓ} where
  -- No key has two entries.
  abbrev pub IsMap : List (ℕ × V) → Type ℓ
  IsMap [] = Unit
  IsMap ((k, v) ∷ m) = (lookup k m ≡ none) × IsMap m

  pub IsMap-insert : (k : ℕ) (v : V) (m : List (ℕ × V)) → IsMap m → IsMap (insert k v m)
  unfolding insert lookup
  IsMap-insert k v [] h = (refl, tt)
  IsMap-insert k v ((j, w) ∷ m) h = ground (arith, IsMap-insert k v m h.1, lookup-insert k j v m)

  pub IsMap-insert_sorted :
      (k : ℕ) (v : V) (m : List (ℕ × V)) → lookup k m ≡ none → IsMap m → IsMap (insert_sorted k v m)
  unfolding insert_sorted lookup
  IsMap-insert_sorted k v [] n h = (refl, tt)
  IsMap-insert_sorted k v ((j, w) ∷ m) n h =
      ground (arith, IsMap-insert_sorted k v m, lookup-insert_sorted k j v m)

  pub IsMap-remove : (k : ℕ) (m : List (ℕ × V)) → IsMap m → IsMap (remove k m)
  unfolding remove
  IsMap-remove k [] h = tt
  IsMap-remove k ((j, w) ∷ m) h = ground (arith, IsMap-remove k m h.1, lookup-remove k j m)

  pub remove-absent : (k : ℕ) (m : List (ℕ × V)) → lookup k m ≡ none → remove k m ≡ m
  unfolding remove lookup
  remove-absent k [] h = refl
  remove-absent k ((j, w) ∷ m) h = ground (arith, remove-absent k m)

  unfoldable pub sum_by : (V → ℕ) → List (ℕ × V) → ℕ
  sum_by f [] = 0
  sum_by f ((k, v) ∷ m) = f v + sum_by f m

  pub sum_by-insert_new :
      (f : V → ℕ) (k : ℕ) (v : V) (m : List (ℕ × V))
      → lookup k m ≡ none
      → sum_by f (insert k v m) ≡ sum_by f m + f v
  unfolding sum_by insert lookup
  sum_by-insert_new f k v [] h = omega arith
  sum_by-insert_new f k v ((j, w) ∷ m) h = ground (arith, sum_by-insert_new f k v m)

  pub sum_by-insert_old :
      (f : V → ℕ) (k : ℕ) (v w : V) (m : List (ℕ × V))
      → lookup k m ≡ some w
      → sum_by f (insert k v m) + f w ≡ sum_by f m + f v
  unfolding sum_by insert lookup
  sum_by-insert_old f k v w [] h = cc
  sum_by-insert_old f k v w ((j, u) ∷ m) h = ground (arith, sum_by-insert_old f k v w m)

  pub sum_by-remove :
      (f : V → ℕ) (k : ℕ) (v : V) (m : List (ℕ × V))
      → IsMap m
      → lookup k m ≡ some v
      → sum_by f (remove k m) + f v ≡ sum_by f m
  unfolding sum_by remove lookup
  sum_by-remove f k v [] i h = cc
  sum_by-remove f k v ((j, u) ∷ m) i h = elim (Bool-cases (j == k)) [
    | inl e ↦ ground (arith, remove-absent k m)
    | inr e ↦ ground (arith, sum_by-remove f k v m i.1)
  ]

  pub length-sum_by : (m : List (ℕ × V)) → sum_by (λ _. 1) m ≡ length m
  unfolding sum_by
  length-sum_by [] = refl
  length-sum_by ((k, v) ∷ m) = omega (arith, length-sum_by m)

  -- Every value counts at most in the sum.
  pub lookup-sum_by-le :
      (f : V → ℕ) (k : ℕ) (v : V) (m : List (ℕ × V)) → lookup k m ≡ some v → f v ≤ sum_by f m
  unfolding sum_by lookup
  lookup-sum_by-le f k v [] h = cc
  lookup-sum_by-le f k v ((j, u) ∷ m) h = ground (arith, lookup-sum_by-le f k v m)

  pub length-remove :
      (k : ℕ) (v : V) (m : List (ℕ × V))
      → IsMap m
      → lookup k m ≡ some v
      → suc (length (remove k m)) ≡ length m
  length-remove k v m i h =
      ground (arith, sum_by-remove (λ _. 1) k v m i h, length-sum_by m, length-sum_by (remove k m))
