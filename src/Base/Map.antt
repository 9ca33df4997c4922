-- ===== src/Base/Map.antt =====
-- `BTreeMap<usize, V>`: an association list in the order of its keys.
pub mod Free
pub mod Pairs
use Prim.Native.Nat.{ℕ, ◌<◌, ◌≤◌}
use mathlib.Core.Path.{◌≡◌, refl}
use mathlib.Core.Bool.{Bool, true, false}
use mathlib.Core.Option.{Option, none, some}
use mathlib.Core.List.{List, [], ◌∷◌}
use native.Mathlib.Omega.{arith}
use origel.Base.Tests.{ltb, ◌==◌, if◌then◌else◌}

abbrev pub Map {ℓ} : Type ℓ → Type ℓ
Map V = List (ℕ × V)

module _ {ℓ} {V : Type ℓ} where
  unfoldable pub lookup : ℕ → Map V → Option V
  lookup k [] = none
  lookup k ((j, v) ∷ m) = if k == j then some v else lookup k m

  unfoldable pub insert : ℕ → V → Map V → Map V
  insert k v [] = (k, v) ∷ []
  insert k v ((j, w) ∷ m) =
      if k == j then (k, v) ∷ m else if ltb k j then (k, v) ∷ (j, w) ∷ m else (j, w) ∷ insert k v m

  unfoldable pub remove : ℕ → Map V → Map V
  remove k [] = []
  remove k ((j, v) ∷ m) = let rest = remove k m in if k == j then rest else (j, v) ∷ rest

  unfoldable pub contains_key : ℕ → Map V → Bool
  contains_key k m = elim (lookup k m) [ none ↦ false | some _ ↦ true ]

  pub lookup-insert :
      (k j : ℕ) (v : V) (m : Map V)
      → lookup j (insert k v m) ≡ (if j == k then some v else lookup j m)
  unfolding lookup insert
  lookup-insert k j v [] = refl
  lookup-insert k j v ((i, w) ∷ m) = ground (arith, lookup-insert k j v m)

  pub lookup-remove :
      (k j : ℕ) (m : Map V) → lookup j (remove k m) ≡ (if j == k then none else lookup j m)
  unfolding lookup remove
  lookup-remove k j [] = ground arith
  lookup-remove k j ((i, w) ∷ m) = ground (arith, lookup-remove k j m)

  -- Every key lies below a bound.
  abbrev pub Below : ℕ → Map V → Type 0
  Below n [] = Unit {0}
  Below n ((k, v) ∷ m) = (k < n) × Below n m

  pub lookup_above : (n k : ℕ) (m : Map V) → Below n m → n ≤ k → lookup k m ≡ none
  unfolding lookup
  lookup_above n k [] b h = refl
  lookup_above n k ((j, v) ∷ m) b h = ground (arith, lookup_above n k m b.1)

  pub Below-mono : (n l : ℕ) (m : Map V) → n ≤ l → Below n m → Below l m
  Below-mono n l [] h b = tt
  Below-mono n l ((k, v) ∷ m) h b = (omega arith, Below-mono n l m h b.1)

  pub insert-Below : (n k : ℕ) (v : V) (m : Map V) → k < n → Below n m → Below n (insert k v m)
  unfolding insert
  insert-Below n k v [] h b = (h, tt)
  insert-Below n k v ((j, w) ∷ m) h b = ground (arith, insert-Below n k v m h b.1)

  pub remove-Below : (n k : ℕ) (m : Map V) → Below n m → Below n (remove k m)
  unfolding remove
  remove-Below n k [] b = tt
  remove-Below n k ((j, w) ∷ m) b = ground (arith, remove-Below n k m b.1)
