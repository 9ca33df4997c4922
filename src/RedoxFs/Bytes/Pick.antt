-- ===== src/RedoxFs/Bytes/Pick.antt =====
-- schemes/redoxfs/src/filesystem.rs: the loop of `node_extents`, which picks the parts of the extents of
-- a node that a read or a write is about.
use origel.Base.{
  ltb, leb, ◌==◌, if◌then◌else◌, ltb→lt, leb→le, Bool-cases, length, ℕ, zero, suc, ◌+◌, ◌-◌, ◌*◌,
  ◌/◌, ◌^◌, ◌≤◌, ◌<◌, min, ◌≡◌, refl, ap, ◌∙◌, ◌≢◌, inl, inr, false, arith,
}
use origel.RedoxFs.Extents.{Extent, empty, add64, blocks, blocks_from}
use origel.RedoxFs.Bytes.{part_blocks}
use origel.RedoxFs.Bytes.Content.{blocks_for}
use origel.RedoxFs.Bytes.Reads.{IsExtent}

-- What is left of the blocks to skip and of the bytes to read, with the part between.
abbrev pub Picked : Type 0
Picked = ℕ × Extent × ℕ

picked_same :
    (o o' b b' l l' n n' : ℕ)
    → o ≡ o'
    → b ≡ b'
    → l ≡ l'
    → n ≡ n'
    → Path Picked
        (o, record { block = b; length = l }, n)
        (o', record { block = b'; length = l' }, n')
picked_same o o' b b' l l' n n' e f g h = cc

-- The blocks from `i` on, behind a part that has begun.
part_blocks-on :
    (e : Extent) (i k block length n : ℕ)
    → block ≢ 0
    → length + (e.length - i * 512) < 2 ^ 64
    → e.length ≤ (i + k) * 512
    → let more = min n (e.length - i * 512) in
      part_blocks (blocks_from e i k) 0 (record { block = block; length = length }) n
      ≡ (0, record { block = block; length = length + more }, n - more)
unfolding part_blocks blocks_from
part_blocks-on e i zero block length n ne w h =
    picked_same 0 0 block block length (length + min n (e.length - i * 512)) n
      (n - min n (e.length - i * 512)) refl refl (omega arith) (omega arith)
part_blocks-on e i (suc k) block length n ne w h =
    let size = min 512 (e.length - i * 512) in
    let begun : (block == 0) ≡ false = ground arith in
    elim (Bool-cases (leb size n)) [
      | inl fits ↦
          let le = leb→le size n fits in
          let rest =
            part_blocks-on e (i + 1) k block (add64 length size) (n - size) ne (omega (arith, w))
              (omega (arith, h)) in
          rw (part_blocks, begun, fits)
            (rest ∙ picked_same 0 0 block block _ _ _ _ refl refl (omega (arith, w)) (omega arith))
      | inr fails ↦
          let lt : n < size = ground arith in
          elim (Bool-cases (ltb 0 n)) [
            | inl some_left ↦
                let pos = ltb→lt 0 n some_left in
                rw (part_blocks, begun, fails, some_left)
                  (picked_same 0 0 block block _ _ _ _ refl refl (omega (arith, w)) (omega arith))
            | inr none_left ↦
                let zero_left : n ≡ 0 = ground arith in
                rw (part_blocks, begun, fails, none_left)
                  (picked_same 0 0 block block _ _ _ _ refl refl (omega (arith, zero_left))
                    (omega (arith, zero_left)))
          ]
    ]

-- The part of an extent from its block `i` on, for `n` bytes.
abbrev pub part_from : Extent → (i n : ℕ) → Extent
part_from e i n = record { block = e.block + i; length = min n (e.length - i * 512) }

part_blocks-skip :
    (e : Extent) (i k offset n : ℕ)
    → part_blocks (blocks_from e i (suc k)) (suc offset) empty n
      ≡ part_blocks (blocks_from e (i + 1) k) offset empty n
unfolding part_blocks blocks_from
part_blocks-skip e i k offset n =
    let nonzero : (suc offset == 0) ≡ false = ground arith in
    let less : suc offset - 1 ≡ offset = omega arith in
    rw (part_blocks, nonzero) (ap (λ o. part_blocks (blocks_from e (i + 1) k) o empty n) less)

-- Where blocks are left behind those to skip, the part begins there.
part_blocks-within :
    (e : Extent) (i k offset n : ℕ)
    → IsExtent e
    → e.block ≢ 0
    → offset < k
    → i + k ≡ blocks_for e.length
    → part_blocks (blocks_from e i k) offset empty n
      ≡ (0, part_from e (i + offset) n, n - min n (e.length - (i + offset) * 512))
unfolding part_blocks blocks_from
part_blocks-within e i zero offset n v ne h s = absurd (omega arith)
part_blocks-within e i (suc k) zero n v ne h s =
    let block = add64 e.block i in
    let begun : (block == 0) ≡ false = ground (arith, v) in
    let first : part_blocks (blocks_from e i (suc k)) 0 empty n
        ≡ part_blocks (blocks_from e i (suc k)) 0 (record { block = block; length = 0 }) n =
      rw (part_blocks, begun) refl in
    first
    ∙ part_blocks-on e i (suc k) block 0 n (omega (arith, v, ne)) (omega (arith, v))
        (omega (arith, s))
    ∙ picked_same 0 0 block (e.block + (i + 0)) _ _ _ _ refl (omega (arith, v)) (omega arith)
        (omega arith)
part_blocks-within e i (suc k) (suc offset) n v ne h s =
    part_blocks-skip e i k offset n
    ∙ part_blocks-within e (i + 1) k offset n v ne (omega arith) (omega (arith, s))
    ∙ picked_same 0 0 (e.block + (i + 1 + offset)) (e.block + (i + suc offset)) _ _ _ _ refl
        (omega arith) (omega arith) (omega arith)

-- Otherwise all the blocks are skipped.
part_blocks-behind :
    (e : Extent) (i k offset n : ℕ)
    → k ≤ offset
    → part_blocks (blocks_from e i k) offset empty n ≡ (offset - k, empty, n)
unfolding part_blocks blocks_from
part_blocks-behind e i zero offset n h =
    picked_same offset (offset - 0) 0 0 0 0 n n (omega arith) refl refl refl
part_blocks-behind e i (suc k) zero n h = absurd (omega arith)
part_blocks-behind e i (suc k) (suc offset) n h =
    part_blocks-skip e i k offset n
    ∙ part_blocks-behind e (i + 1) k offset n (omega arith)
    ∙ picked_same (offset - k) (suc offset - suc k) 0 0 0 0 n n (omega arith) refl refl refl

-- The loop of `node_extents` over the blocks of an extent comes to this. If there are more blocks than
-- are to be skipped, it picks the range from the first one that is not, as long as what is wanted and what
-- the extent has; else it picks nothing, and leaves the other blocks to skip to the next extents.
pub part_blocks_lem :
    (e : Extent) (offset n : ℕ)
    → IsExtent e
    → (0 < e.length → e.block ≢ 0)
    → part_blocks (blocks e) offset empty n ≡ (
        if ltb offset (blocks_for e.length)
        then (0, part_from e offset n, n - min n (e.length - offset * 512))
        else (offset - blocks_for e.length, empty, n))
unfolding blocks
part_blocks_lem e offset n v ne =
    let count : add64 e.length 511 / 512 ≡ blocks_for e.length = omega (arith, v) in
    ap (λ k. part_blocks (blocks_from e 0 k) offset empty n) count
    ∙ elim (Bool-cases (ltb offset (blocks_for e.length))) [
      | inl b ↦ rw b (
          part_blocks-within e 0 (blocks_for e.length) offset n v
            (ne (omega (arith, ltb→lt offset (blocks_for e.length) b)))
            (ltb→lt offset (blocks_for e.length) b) (omega arith)
          ∙ picked_same 0 0 (e.block + (0 + offset)) (e.block + offset) _ _ _ _ refl (omega arith)
              (omega arith) (omega arith))
      | inr b ↦ rw b (part_blocks-behind e 0 (blocks_for e.length) offset n (ground arith))
    ]
