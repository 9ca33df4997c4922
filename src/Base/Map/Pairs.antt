-- ===== src/Base/Map/Pairs.antt =====
-- A `BTreeMap` whose keys are pairs of numbers: an association list in the order of the keys.
use Prim.Native.Nat.{ℕ}
use mathlib.Core.Path.{◌≡◌, refl}
use mathlib.Core.Bool.{Bool, ◌&&◌, ◌||◌}
use mathlib.Core.Option.{Option, none, some}
use mathlib.Core.List.{List, [], ◌∷◌}
use native.Mathlib.Omega.{arith}
use origel.Base.Tests.{ltb, ◌==◌, if◌then◌else◌}

abbrev pub PairMap {ℓ} : Type ℓ → Type ℓ
PairMap V = List ((ℕ × ℕ) × V)

abbrev pub same_pair : ℕ × ℕ → ℕ × ℕ → Bool
same_pair a b = a.0 == b.0 && a.1 == b.1

abbrev pub pair_before : ℕ × ℕ → ℕ × ℕ → Bool
pair_before a b = ltb a.0 b.0 || (a.0 == b.0 && ltb a.1 b.1)

module _ {ℓ} {V : Type ℓ} where
  unfoldable pub lookup : ℕ × ℕ → PairMap V → Option V
  lookup k [] = none
  lookup k ((j, v) ∷ m) = if same_pair k j then some v else lookup k m

  unfoldable pub insert : ℕ × ℕ → V → PairMap V → PairMap V
  insert k v [] = (k, v) ∷ []
  insert k v ((j, w) ∷ m) =
      let rest = insert k v m in
      if same_pair k j
      then (k, v) ∷ m
      else if pair_before k j
      then (k, v) ∷ (j, w) ∷ m
      else (j, w) ∷ rest

  unfoldable pub remove : ℕ × ℕ → PairMap V → PairMap V
  remove k [] = []
  remove k ((j, v) ∷ m) = let rest = remove k m in if same_pair k j then rest else (j, v) ∷ rest

  pub lookup-insert :
      (k j : ℕ × ℕ) (v : V) (m : PairMap V)
      → lookup j (insert k v m) ≡ (if same_pair j k then some v else lookup j m)
  unfolding lookup insert
  lookup-insert k j v [] = refl
  lookup-insert k j v ((i, w) ∷ m) = ground (arith, lookup-insert k j v m)

  pub lookup-remove :
      (k j : ℕ × ℕ) (m : PairMap V)
      → lookup j (remove k m) ≡ (if same_pair j k then none else lookup j m)
  unfolding lookup remove
  lookup-remove k j [] = ground arith
  lookup-remove k j ((i, w) ∷ m) = ground (arith, lookup-remove k j m)
