-- ===== src/RedoxFs/Extents/Cover.antt =====
-- schemes/redoxfs/src/filesystem.rs: which blocks the loops over extents take, add and remove.
use origel.Base.{
  ltb, leb, ◌==◌, if◌then◌else◌, leb→le, Bool-cases, length, All, ℕ, ◌+◌, ◌-◌, ◌*◌, ◌/◌, ◌%◌, ◌^◌,
  ◌≤◌, ◌<◌, ◌≡◌, ◌≢◌, ◌⊎◌, inl, inr, Bool, ◌&&◌, Option, none, some, List, [], ◌∷◌, arith,
}
use origel.RedoxFs.Extents.{
  Extent, add64, full_blocks, take_blocks, insert_range, cut, remove_range,
}

-- Whether the block `x` lies in the `n` blocks from `block` on, as a number.
abbrev pub in_range : ℕ → ℕ → ℕ → ℕ
in_range block n x = if leb block x && ltb x (block + n) then 1 else 0

-- How many of the extents hold the block `x`: the extents as a multiset of blocks.
unfoldable pub times : ℕ → List Extent → ℕ
times x [] = 0
times x (e ∷ es) = in_range e.block (full_blocks e) x + times x es

-- An extent that ends within the numbers of a `u64`.
abbrev pub IsExtent : Extent → Type 0
IsExtent e = (e.length < 2 ^ 63) × (e.block + full_blocks e < 2 ^ 63)

-- One of the extents holds all of the `n` blocks from `b` on.
abbrev pub OneHolds : (b n : ℕ) → List Extent → Type 0
OneHolds b n [] = ⊥
OneHolds b n (e ∷ es) = ((e.block ≤ b) × (b + n ≤ e.block + full_blocks e)) ⊎ OneHolds b n es

abbrev pub Taken : ℕ → ℕ → List Extent → Option (ℕ × List Extent) → Type 0
Taken x n es none = All (λ e. full_blocks e < n) es
Taken x n es (some (b, es')) = OneHolds b n es × (times x es ≡ in_range b n x + times x es')

Taken-step :
    (x n : ℕ) (e : Extent) (es : List Extent) (r : Option (ℕ × List Extent))
    → full_blocks e < n
    → Taken x n es r
    → Taken x n (e ∷ es) (elim r [ none ↦ none | some (b, es') ↦ some (b, e ∷ es') ])
unfolding times
Taken-step x n e es none k h = (k, h)
Taken-step x n e es (some (b, es')) k h = (inr h.0, omega (arith, h.1))

taken_here :
    (x n : ℕ) (e : Extent)
    → IsExtent e
    → n ≤ full_blocks e
    → in_range e.block (full_blocks e) x
      ≡ in_range e.block n x + in_range (add64 e.block n) ((e.length - n * 512) / 512) x
taken_here x n e v h = ground arith

-- If the loop of `allocate` finds a range, one of the extents holds all of it, and the blocks of the
-- extents are those of the range and those that it leaves, each as often as before: none is lost, and none
-- is handed out and kept. If it finds none, every extent has fewer whole blocks than are asked for.
pub take_blocks-times :
    (x n : ℕ) (es : List Extent) → All IsExtent es → Taken x n es (take_blocks n es)
unfolding take_blocks times
take_blocks-times x n [] v = tt
take_blocks-times x n (e ∷ es) v = elim (Bool-cases (leb n (full_blocks e))) [
  | inl h ↦
      let fits = leb→le n (full_blocks e) h in
      rw h (inl (omega arith, omega (arith, fits)), omega (arith, taken_here x n e v.0 fits))
  | inr h ↦
      rw h (Taken-step x n e es (take_blocks n es) (ground arith) (take_blocks-times x n es v.1))
]

abbrev pub Grown : ℕ → ℕ → ℕ → List Extent → Option (List Extent) → Type 0
Grown x block n es none = All (λ e. e.length ≢ 0) es
Grown x block n es (some es') = times x es' ≡ in_range block n x + times x es

Grown-step :
    (x block n : ℕ) (e : Extent) (es : List Extent) (r : Option (List Extent))
    → e.length ≢ 0
    → Grown x block n es r
    → Grown x block n (e ∷ es) (elim r [ none ↦ none | some es' ↦ some (e ∷ es') ])
unfolding times
Grown-step x block n e es none k h = (k, h)
Grown-step x block n e es (some es') k h = omega (arith, h)

grown_before :
    (x block n : ℕ) (e : Extent)
    → IsExtent e
    → n < 2 ^ 32
    → block < 2 ^ 63
    → e.block ≡ add64 block n
    → in_range block (add64 e.length (n * 512) / 512) x
      ≡ in_range block n x + in_range e.block (full_blocks e) x
grown_before x block n e v k b h = ground arith

grown_after :
    (x block n : ℕ) (e : Extent)
    → IsExtent e
    → n < 2 ^ 32
    → e.length % 512 ≡ 0
    → add64 e.block (full_blocks e) ≡ block
    → in_range e.block (add64 e.length (n * 512) / 512) x
      ≡ in_range block n x + in_range e.block (full_blocks e) x
grown_after x block n e v k m h = ground arith

abbrev joins_before : ℕ → ℕ → Extent → Bool
joins_before block length e = length % 512 == 0 && e.block == add64 block (length / 512)

abbrev joins_after : ℕ → Extent → Bool
joins_after block e = e.length % 512 == 0 && add64 e.block (full_blocks e) == block

-- If the loop of `insert_blocks` finds a place for `n` blocks, the extents hold these blocks and
-- those that they held, each as often as both together. Otherwise no extent was empty.
pub insert_range-times :
    (x block n : ℕ) (es : List Extent)
    → All IsExtent es
    → n < 2 ^ 32
    → block < 2 ^ 63
    → Grown x block n es (insert_range block (n * 512) es)
unfolding insert_range times
insert_range-times x block n [] v k b = tt
insert_range-times x block n (e ∷ es) v k b = elim (Bool-cases (e.length == 0)) [
  | inl h ↦ rw h (ground arith)
  | inr h ↦ elim (Bool-cases (joins_before block (n * 512) e)) [
    | inl j ↦ rw (h, j) (ground (arith, grown_before x block n e v.0))
    | inr j ↦ elim (Bool-cases (joins_after block e)) [
      | inl l ↦ rw (h, j, l) (ground (arith, grown_after x block n e v.0))
      | inr l ↦
          rw (h, j, l)
            (Grown-step x block n e es (insert_range block (n * 512) es) (ground arith)
              (insert_range-times x block n es v.1 k b))
    ]
  ]
]

-- How often the extent that `remove_blocks` inserts afterwards holds the block `x`.
abbrev pub replaced : ℕ → Option Extent → ℕ
replaced x none = 0
replaced x (some e) = in_range e.block (full_blocks e) x

cut_lem :
    (x block n : ℕ) (e : Extent)
    → IsExtent e
    → e.block ≤ block
    → add64 block n ≤ add64 e.block (full_blocks e)
    → block < 2 ^ 63
    → n < 2 ^ 63
    → let (e', replace) = cut block n e in
      in_range e.block (full_blocks e) x
      ≡ in_range block n x + (in_range e'.block (full_blocks e') x + replaced x replace)
unfolding cut
cut_lem x block n e v h k b c = ground arith

abbrev pub Shrunk : ℕ → ℕ → ℕ → List Extent → Option (List Extent × Option Extent) → Type 0
Shrunk x block n es none =
    All (λ e. ¬ ((e.block ≤ block) × (block + n ≤ e.block + full_blocks e))) es
Shrunk x block n es (some (es', replace)) =
    OneHolds block n es × (times x es ≡ in_range block n x + (times x es' + replaced x replace))

Shrunk-step :
    (x block n : ℕ) (e : Extent) (es : List Extent) (r : Option (List Extent × Option Extent))
    → ¬ ((e.block ≤ block) × (block + n ≤ e.block + full_blocks e))
    → Shrunk x block n es r
    → Shrunk x block n
        (e ∷ es)
        (elim r [ none ↦ none | some (es', replace) ↦ some (e ∷ es', replace) ])
unfolding times
Shrunk-step x block n e es none k h = (k, h)
Shrunk-step x block n e es (some (es', replace)) k h = (inr h.0, omega (arith, h.1))

abbrev holds : ℕ → ℕ → Extent → Bool
holds block n e = leb e.block block && leb (add64 block n) (add64 e.block (full_blocks e))

-- If the loop of `remove_blocks` finds an extent that holds the `n` blocks, what the extents held is
-- these blocks, what the extents hold then, and the part that is inserted again, each block as often
-- as in these together. If it finds none, no extent holds all of the blocks.
pub remove_range-times :
    (x block n : ℕ) (es : List Extent)
    → All IsExtent es
    → block < 2 ^ 62
    → n < 2 ^ 62
    → Shrunk x block n es (remove_range block n es)
unfolding remove_range times
remove_range-times x block n [] v b c = tt
remove_range-times x block n (e ∷ es) v b c = elim (Bool-cases (holds block n e)) [
  | inl h ↦ rw h (
      let low : e.block ≤ block = ground arith in
      let high : block + n ≤ e.block + full_blocks e = ground (arith, v) in
      (inl (low, high), ground (arith, cut_lem x block n e v.0)))
  | inr h ↦ rw h (
      Shrunk-step x block n e es (remove_range block n es) (λ k. ground arith)
        (remove_range-times x block n es v.1 b c))
]
