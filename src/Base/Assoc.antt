-- ===== src/Base/Assoc.antt =====
-- A map with numeric keys as an association list: at most the first entry of a key counts.
use Prim.Native.Nat.{ℕ, suc}
use mathlib.Core.Path.{◌≡◌, refl}
use mathlib.Core.Bool.{Bool, true, false}
use mathlib.Core.Option.{Option, none, some}
use mathlib.Core.List.{List, [], ◌∷◌}
use native.Mathlib.Omega.{arith}
use graphzero.Base.Lists.{length}
use graphzero.Base.Tests.{◌==◌, ltb, if◌then◌else◌}

module _ {ℓ} {V : Type ℓ} where
  unfoldable pub lookup : ℕ → List (ℕ × V) → Option V
  lookup key [] = none
  lookup key (entry ∷ rest) =
      let later = lookup key rest in if entry.0 == key then some entry.1 else later

  -- Whether a key has an entry.
  abbrev pub has : ℕ → List (ℕ × V) → Bool
  has key map = elim (lookup key map) [ none ↦ false | some value ↦ true ]

  -- Replaces the entry of a key, or adds one at the end.
  unfoldable pub insert : ℕ → V → List (ℕ × V) → List (ℕ × V)
  insert key value [] = (key, value) ∷ []
  insert key value (entry ∷ rest) =
      let later = insert key value rest in
      if entry.0 == key then (key, value) ∷ rest else entry ∷ later

  unfoldable pub remove : ℕ → List (ℕ × V) → List (ℕ × V)
  remove key [] = []
  remove key (entry ∷ rest) =
      let later = remove key rest in if entry.0 == key then later else entry ∷ later

  -- Insertion into a map that is kept in key order, as a `BTreeMap` is iterated.
  unfoldable pub insert_sorted : ℕ → V → List (ℕ × V) → List (ℕ × V)
  insert_sorted key value [] = (key, value) ∷ []
  insert_sorted key value (entry ∷ rest) =
      let later = insert_sorted key value rest in
      if entry.0 == key
      then (key, value) ∷ rest
      else (if ltb key entry.0 then (key, value) ∷ entry ∷ rest else entry ∷ later)

  module _ (key probe : ℕ) where
    pub lookup-insert :
        (value : V) (map : List (ℕ × V))
        → lookup probe (insert key value map)
          ≡ (if key == probe then some value else lookup probe map)
    unfolding lookup insert
    lookup-insert value [] = refl
    lookup-insert value (entry ∷ rest) = ground (arith, lookup-insert value rest)

    pub lookup-insert_sorted :
        (value : V) (map : List (ℕ × V))
        → lookup probe (insert_sorted key value map)
          ≡ (if key == probe then some value else lookup probe map)
    unfolding lookup insert_sorted
    lookup-insert_sorted value [] = refl
    lookup-insert_sorted value (entry ∷ rest) = ground (arith, lookup-insert_sorted value rest)

    pub lookup-remove :
        (map : List (ℕ × V))
        → lookup probe (remove key map) ≡ (if key == probe then none else lookup probe map)
    unfolding lookup remove
    lookup-remove [] = ground arith
    lookup-remove (entry ∷ rest) = ground (arith, lookup-remove rest)

    pub has-insert :
        (old value : V) (map : List (ℕ × V))
        → lookup key map ≡ some old
        → has probe (insert key value map) ≡ has probe map
    has-insert old value map h = ground (arith, lookup-insert value map, h)

  pub length-insert_old :
      (key : ℕ) (old value : V) (map : List (ℕ × V))
      → lookup key map ≡ some old
      → length (insert key value map) ≡ length map
  unfolding insert lookup
  length-insert_old key old value [] h = absurd (ground (arith, h))
  length-insert_old key old value (entry ∷ rest) h =
      ground (arith, length-insert_old key old value rest, h)

  pub length-insert_new :
      (key : ℕ) (value : V) (map : List (ℕ × V))
      → lookup key map ≡ none
      → length (insert key value map) ≡ suc (length map)
  unfolding insert lookup
  length-insert_new key value [] h = ground arith
  length-insert_new key value (entry ∷ rest) h = ground (arith, length-insert_new key value rest, h)
