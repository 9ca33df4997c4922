-- ===== src/Context/Directory.antt =====
-- kernel/context/context.rs: where the paths that `canonicalize` makes can lead.
use origel.Base.{
  if◌then◌else◌, Bool-cases, Option-cases, length, take, drop, All, length-append, eq_bytes, ℕ,
  zero, suc, ◌+◌, ◌-◌, ◌≡◌, refl, ap, ◌≢◌, inl, inr, Bool, true, false, Option, none, some, List,
  [], ◌∷◌, ◌++◌, arith,
}
use mathlib.Core.List.{append_assoc}
use origel.Context.{
  Context, position, rposition, is_colon, is_separator, starts_with, ends_with_slash, parent,
  scheme_part, with_slash, append_to, canonicalize,
}

-- A scheme's name has neither `:` nor `/`.
abbrev pub IsName : List ℕ → Type 0
IsName = All (λ b. is_separator b ≡ false)

rposition_name : (name : List ℕ) → IsName name → rposition is_separator name ≡ none
unfolding rposition
rposition_name [] h = refl
rposition_name (b ∷ name) h = rw (rposition_name name h.1, rposition, h.0)

rposition_after :
    (p : ℕ → Bool) (name : List ℕ) (x : ℕ) (rest : List ℕ)
    → p x ≡ true
    → (k : ℕ) × (rposition p (name ++ (x ∷ rest)) ≡ some (length name + k))
unfolding rposition
rposition_after p [] x rest h = elim (Option-cases (rposition p rest)) [
  | inl e ↦ (0, rw (e, h))
  | inr (i, e) ↦ (suc i, rw e (ap some (omega arith)))
]
rposition_after p (b ∷ name) x rest h =
    let (k, e) = rposition_after p name x rest h in (k, rw e (ap some (omega arith)))

take_past_name :
    (name : List ℕ) (x k n : ℕ) (rest : List ℕ)
    → n ≡ length name + suc k
    → take n (name ++ (x ∷ rest)) ≡ name ++ (x ∷ take k rest)
take_past_name [] x k n rest e = rw (let e' : n ≡ suc k = omega arith in e')
take_past_name (b ∷ name) x k zero rest e = absurd (omega arith)
take_past_name (b ∷ name) x k (suc n) rest e =
    ap (◌∷◌ b) (take_past_name name x k n rest (omega arith))

-- `cwd[..cwd.len() - 1]`
take_init :
    (name : List ℕ) (x y : ℕ) (rest : List ℕ)
    → take (length (name ++ (x ∷ y ∷ rest)) - 1) (name ++ (x ∷ y ∷ rest))
      ≡ name ++ (x ∷ take (length rest) (y ∷ rest))
take_init name x y rest =
    take_past_name name x (length rest) _ (y ∷ rest)
      (omega (arith, length-append name (x ∷ y ∷ rest)))

take_all {ℓ} : {A : Type ℓ} (xs : List A) → take (length xs) xs ≡ xs
take_all [] = refl
take_all (x ∷ xs) = ap (◌∷◌ x) (take_all xs)

take_exact :
    (name : List ℕ) (n : ℕ) (rest : List ℕ) → n ≡ length name → take n (name ++ rest) ≡ name
take_exact [] n rest e = rw (let e' : n ≡ 0 = e in e')
take_exact (b ∷ name) zero rest e = absurd (omega arith)
take_exact (b ∷ name) (suc n) rest e = ap (◌∷◌ b) (take_exact name n rest (omega arith))

-- A directory within the scheme `name`.
abbrev pub Within : List ℕ → List ℕ → Type 0
Within name cwd = (rest : List ℕ) × (cwd ≡ name ++ (b':' ∷ rest))

-- The part of the working directory that `parent` keeps, at a list that is not empty.
kept : List ℕ → List ℕ
kept cwd = elim (rposition is_separator (take (length cwd - 1) cwd)) [
  | none ↦ take (length cwd) cwd
  | some i ↦ take (i + 1) cwd
]

parent-kept : (cwd : List ℕ) → cwd ≢ [] → parent cwd ≡ some (kept cwd)
unfolding parent kept
parent-kept [] h = absurd (h refl)
parent-kept (x ∷ xs) h = refl

kept-Within : (name rest : List ℕ) → IsName name → Within name (kept (name ++ (b':' ∷ rest)))
unfolding kept
kept-Within name [] h =
    let e =
      take_exact name (length (name ++ (b':' ∷ [])) - 1) (b':' ∷ [])
        (omega (arith, length-append name (b':' ∷ []))) in
    ([], rw (kept, e, rposition_name name h, take_all))
kept-Within name (y ∷ rest) h =
    let (k, e) = rposition_after is_separator name b':' (take (length rest) (y ∷ rest)) refl in
    (
      take k (y ∷ rest),
      rw (kept, take_init name b':' y rest, e)
          (take_past_name name b':' k (length name + k + 1) (y ∷ rest) (omega arith)),
    )

append_ne_nil : (name : List ℕ) (x : ℕ) (rest : List ℕ) → name ++ (x ∷ rest) ≢ []
append_ne_nil [] x rest e = cc
append_ne_nil (b ∷ name) x rest e = cc

parent-Within :
    (name cwd : List ℕ)
    → IsName name
    → Within name cwd
    → (dir : List ℕ) × (parent cwd ≡ some dir) × Within name dir
parent-Within name cwd h (rest, e) = rw e (
  kept (name ++ (b':' ∷ rest)),
  parent-kept _ (append_ne_nil name b':' rest),
  kept-Within name rest h,
)

position_colon :
    (name rest : List ℕ)
    → IsName name
    → position is_colon (name ++ (b':' ∷ rest)) ≡ some (length name)
unfolding position
position_colon [] rest h = refl
position_colon (b ∷ name) rest h = ground (arith, position_colon name rest h.1)

scheme_part_lem :
    (name rest : List ℕ)
    → IsName name
    → scheme_part (name ++ (b':' ∷ rest)) ≡ some (name ++ (b':' ∷ []))
unfolding scheme_part
scheme_part_lem name rest h =
    rw (position_colon name rest h, scheme_part)
      (ap some (take_past_name name b':' 0 (length name + 1) rest (omega arith)))

with_slash-Within : (name cwd : List ℕ) → Within name cwd → Within name (with_slash cwd)
with_slash-Within name cwd (rest, e) = elim (Bool-cases (ends_with_slash cwd)) [
  | inl s ↦ rw s (rest, e)
  | inr s ↦ rw (s, e) (rest ++ (b'/' ∷ []), append_assoc name (b':' ∷ rest) (b'/' ∷ []))
]

append-Within : (name cwd path : List ℕ) → Within name cwd → Within name (cwd ++ path)
append-Within name cwd path (rest, e) = rw e (rest ++ path, append_assoc name (b':' ∷ rest) path)

-- A path that a `..` or a `/` builds from a kept part.
append_to-Within :
    (name path : List ℕ) (o : Option (List ℕ))
    → (dir : List ℕ) × (o ≡ some dir) × Within name dir
    → (dir : List ℕ) × (append_to o path ≡ some dir) × Within name dir
append_to-Within name path o (dir, e, w) = (dir ++ path, rw e, append-Within name dir path w)

-- A path with no scheme of its own, taken from a directory in a scheme whose name has neither `:`
-- nor `/`, is resolved with no panic, and to a path in that same scheme.
pub canonicalize-Within :
    (c : Context) (name path : List ℕ)
    → IsName name
    → Within name c.cwd
    → position is_colon path ≡ none
    → (canon : List ℕ) × (canonicalize c path ≡ some canon) × Within name canon
unfolding canonicalize
canonicalize-Within c name path h w e = rw e (
    split (eq_bytes path (b'.' ∷ [])) (c.cwd, refl, w)
      (split (eq_bytes path (b'.' ∷ b'.' ∷ [])) (parent-Within name c.cwd h w) (
        split (starts_with path (b'.' ∷ b'/' ∷ []))
          (_, refl, append-Within name _ (drop 2 path) (with_slash-Within name c.cwd w))
          (split (starts_with path (b'.' ∷ b'.' ∷ b'/' ∷ []))
            (append_to-Within name _ _ (parent-Within name c.cwd h w))
            (split (starts_with path (b'/' ∷ []))
              (append_to-Within name path _
                (name ++ (b':' ∷ []), rw w.1 (scheme_part_lem name w.0 h), ([], refl)))
              (_, refl, append-Within name _ path (with_slash-Within name c.cwd w)))))))
  where
    split :
        (b : Bool) {x y : Option (List ℕ)}
        → (dir : List ℕ) × (x ≡ some dir) × Within name dir
        → (dir : List ℕ) × (y ≡ some dir) × Within name dir
        → (dir : List ℕ) × ((if b then x else y) ≡ some dir) × Within name dir
    split true p q = p
    split false p q = q
