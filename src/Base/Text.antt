-- ===== src/Base/Text.antt =====
-- Texts as bytes: what the sources use of the standard library's strings.
use Prim.Native.Nat.{ℕ}
use mathlib.Core.List.{List, [], ◌∷◌}
use origel.Base.Tests.{◌==◌, if◌then◌else◌}

-- `str::split` by one character.
abbrev pub put_front : ℕ → List (List ℕ) → List (List ℕ)
put_front c [] = (c ∷ []) ∷ []
put_front c (part ∷ parts) = (c ∷ part) ∷ parts

unfoldable pub split : ℕ → List ℕ → List (List ℕ)
split sep [] = [] ∷ []
split sep (c ∷ cs) = let rest = split sep cs in if c == sep then [] ∷ rest else put_front c rest

-- `trim_matches('/')`
unfoldable pub trim_front : List ℕ → List ℕ
trim_front [] = []
trim_front (b ∷ path) = let rest = trim_front path in if b == b'/' then rest else b ∷ path

unfoldable pub trim_back : List ℕ → List ℕ
trim_back [] = []
trim_back (b ∷ path) = elim (trim_back path) [
  | [] ↦ if b == b'/' then [] else b ∷ []
  | c ∷ rest ↦ b ∷ c ∷ rest
]
