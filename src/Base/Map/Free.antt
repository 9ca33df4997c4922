-- ===== src/Base/Map/Free.antt =====
-- The scan for the first key, from a given one on, that a map does not hold.
use Prim.Native.Nat.{ℕ, zero, suc, ◌+◌, ◌≤◌, ◌<◌}
use mathlib.Core.Path.{◌≡◌, refl}
use mathlib.Core.Bool.{true, false}
use mathlib.Core.Option.{none}
use mathlib.Core.List.{[], ◌∷◌}
use native.Mathlib.Omega.{arith}
use origel.Base.Tests.{if◌then◌else◌}
use origel.Base.Lists.{length}
use origel.Base.Map.{Map, lookup, remove, contains_key, lookup-remove}

module _ {ℓ} {V : Type ℓ} where
  -- `while map.contains_key(i) { i += 1 }`, on fuel.
  unfoldable pub free_key : ℕ → Map V → ℕ → ℕ
  free_key zero m i = i
  free_key (suc fuel) m i =
      let rest = free_key fuel m (i + 1) in if contains_key i m then rest else i

  contains-remove : (k j : ℕ) (m : Map V) → k < j → contains_key j (remove k m) ≡ contains_key j m
  unfolding contains_key
  contains-remove k j m h = ground (arith, lookup-remove k j m)

  length-remove-le : (k : ℕ) (m : Map V) → length (remove k m) ≤ length m
  unfolding remove
  length-remove-le k [] = omega arith
  length-remove-le k ((j, v) ∷ m) = ground (arith, length-remove-le k m)

  length-remove-lt : (k : ℕ) (m : Map V) → contains_key k m ≡ true → length (remove k m) < length m
  unfolding remove contains_key lookup
  length-remove-lt k [] h = cc
  length-remove-lt k ((j, v) ∷ m) h = ground (arith, length-remove-le k m, length-remove-lt k m)

  pub free_key-le : (fuel : ℕ) (m : Map V) (i : ℕ) → i ≤ free_key fuel m i
  unfolding free_key
  free_key-le zero m i = omega arith
  free_key-le (suc fuel) m i = ground (arith, free_key-le fuel m (i + 1))

  free_key-remove :
      (fuel : ℕ) (m : Map V) (k i : ℕ) → k < i → free_key fuel (remove k m) i ≡ free_key fuel m i
  unfolding free_key
  free_key-remove zero m k i h = refl
  free_key-remove (suc fuel) m k i h =
      rw (contains-remove k i m h, free_key-remove fuel m k (i + 1) (omega arith))

  -- With more fuel than the map has entries, the scan ends at a key that the map does not hold.
  pub free_key_lem :
      (fuel : ℕ) (m : Map V) (i : ℕ) → length m < fuel → contains_key (free_key fuel m i) m ≡ false
  unfolding free_key
  free_key_lem zero m i h = absurd (omega arith)
  free_key_lem (suc fuel) m i h = ground (
    arith,
    contains-remove i (free_key fuel m (i + 1)) m,
    free_key-le fuel m (i + 1),
    free_key-remove fuel m i (i + 1),
    free_key_lem fuel (remove i m) (i + 1),
    length-remove-lt i m,
  )

  pub lookup_of_not_contains : (k : ℕ) (m : Map V) → contains_key k m ≡ false → lookup k m ≡ none
  unfolding contains_key
  lookup_of_not_contains k m h = ground arith
