-- ===== src/RedoxFs/Extents/Size.antt =====
-- schemes/redoxfs/src/extent.rs and filesystem.rs: the bytes that extents hold.
use origel.Base.{
  ltb, ltb→lt, Bool-cases, length, All, ℕ, zero, suc, ◌+◌, ◌-◌, ◌*◌, ◌/◌, ◌^◌, ◌≤◌, ◌<◌, min, ◌≡◌,
  refl, ◌↔◌, inl, inr, true, List, [], ◌∷◌, arith,
}
use origel.RedoxFs.Extents.{Extent, add64, blocks_from, blocks, set_len, ensure_len, size_from}

-- The bytes of the extents, with no wrap.
abbrev pub total : List Extent → ℕ
total [] = 0
total (e ∷ es) = e.length + total es

-- As long as the extents hold fewer than `2 ^ 64` bytes, the folds of `size` and `node_len` count
-- them.
pub size_from-total :
    (n : ℕ) (es : List Extent) → n + total es < 2 ^ 64 → size_from n es ≡ n + total es
unfolding size_from
size_from-total n [] h = omega arith
size_from-total n (e ∷ es) h = omega (arith, size_from-total (add64 n e.length) es (omega arith))

-- `node_set_len` shortens the extents to the length wanted, if they hold more, and leaves to the next
-- node what they do not reach; it never lengthens them, and it reports a change exactly if the
-- size changed.
pub set_len_lem :
    (length : ℕ) (es : List Extent)
    → let (es', left, changed) = set_len length es in
      (total es' ≡ min (total es) length)
      × (left ≡ length - total es)
      × ((changed ≡ true) ↔ (total es' < total es))
unfolding set_len
set_len_lem length [] = (omega arith, omega arith, (λ h. cc, λ h. absurd (omega arith)))
set_len_lem length (e ∷ es) = elim (Bool-cases (ltb length e.length)) [
  | inl h ↦
      let (t, l, _) = set_len_lem 0 es in
      let lt = ltb→lt length e.length h in
      rw h (omega (arith, t), omega (arith, l), (λ _. omega (arith, t), λ _. refl))
  | inr h ↦
      let (t, l, (c, d)) = set_len_lem (length - e.length) es in
      let ge : e.length ≤ length = ground arith in
      rw h (omega (arith, t), omega (arith, l), (λ k. omega (arith, c k), λ k. d (omega arith)))
]

-- `node_ensure_len` never takes bytes away, and what the extents hold then, with what it says is
-- still missing, makes up the length wanted.
pub ensure_len_lem :
    (length : ℕ) (es : List Extent)
    → All (λ e. e.length < 2 ^ 63) es
    → let (es', left, changed) = ensure_len length es in
      (total es ≤ total es') × (length ≤ total es' + left)
unfolding ensure_len
ensure_len_lem length [] v = (omega arith, omega arith)
ensure_len_lem length (e ∷ es) v =
    let (grows, enough) = ensure_len_lem (length - add64 e.length 511 / 512 * 512) es v.1 in
    (ground arith, ground arith)

-- The sizes that `BlockIter` gives.
abbrev pub sizes : List (ℕ × ℕ) → ℕ
sizes [] = 0
sizes ((b, n) ∷ l) = n + sizes l

blocks_from-sizes :
    (e : Extent) (i n : ℕ) → sizes (blocks_from e i n) ≡ min (n * 512) (e.length - i * 512)
unfolding blocks_from
blocks_from-sizes e i zero = omega arith
blocks_from-sizes e i (suc n) = omega (arith, blocks_from-sizes e (i + 1) n)

-- A block of an extent that ends at the block `top`, with some of its bytes.
abbrev pub IsBlock : Extent → ℕ → ℕ × ℕ → Type 0
IsBlock e top b = (e.block ≤ b.0) × (b.0 < top) × (0 < b.1) × (b.1 ≤ 512)

blocks_from-IsBlock :
    (e : Extent) (top i n : ℕ)
    → top ≤ 2 ^ 64
    → e.block + (i + n) ≤ top
    → (i + n) * 512 ≤ e.length + 511
    → All (IsBlock e top) (blocks_from e i n)
unfolding blocks_from
blocks_from-IsBlock e top i zero t h k = tt
blocks_from-IsBlock e top i (suc n) t h k = (
  (omega arith, omega arith, omega arith, omega arith),
  blocks_from-IsBlock e top (i + 1) n t (omega arith) (omega arith),
)

-- The blocks of an extent hold all its bytes; each lies within the extent, and holds at least one
-- byte and at most 512.
pub blocks_lem :
    (e : Extent)
    → e.length < 2 ^ 63
    → e.block + (e.length + 511) / 512 ≤ 2 ^ 64
    → (sizes (blocks e) ≡ e.length) × All (IsBlock e (e.block + (e.length + 511) / 512)) (blocks e)
unfolding blocks
blocks_lem e h k =
    let n = add64 e.length 511 / 512 in
    (
      omega (arith, blocks_from-sizes e 0 n),
      blocks_from-IsBlock e (e.block + (e.length + 511) / 512) 0 n k (omega arith) (omega arith),
    )
