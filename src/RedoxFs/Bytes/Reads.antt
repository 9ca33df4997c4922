-- ===== src/RedoxFs/Bytes/Reads.antt =====
-- schemes/redoxfs/src/filesystem.rs: `read_node` reads the bytes that the extents hold.
use origel.Base.{
  ltb, ◌==◌, length, take, drop, All, length-take, length-drop, ℕ, zero, suc, ◌+◌, ◌-◌, ◌^◌, ◌≤◌,
  ◌<◌, min, ◌≡◌, refl, sym, ap, ◌∙◌, true, false, ◌&&◌, none, some, List, [], ◌∷◌, ◌++◌, arith,
}
use origel.RedoxFs.Extents.{Extent, add64}
use origel.RedoxFs.Extents.Size.{total}
use origel.RedoxFs.Bytes.{Disk, read_first, asserted, after_first, read_extent, read_extents}
use origel.RedoxFs.Bytes.Content.{
  IsDisk, bytes_of, blocks_for, content, contents, take_all, drop-append, bytes_of-same,
  length-bytes_of, read_rest-bytes_of,
}

-- An extent whose blocks have numbers; and one with some bytes.
abbrev pub IsExtent : Extent → Type 0
IsExtent e = (e.length < 2 ^ 63) × (e.block + blocks_for e.length < 2 ^ 64)

abbrev pub IsRange : Extent → Type 0
IsRange e = (0 < e.length) × IsExtent e

drop_nil : (n : ℕ) → drop {A = ℕ} n [] ≡ []
drop_nil zero = refl
drop_nil (suc n) = refl

asserted-some :
    (e : Extent) (first bytes : List ℕ) (block : ℕ)
    → IsRange e
    → block ≡ e.block + blocks_for e.length
    → asserted e first (bytes, block, 0) ≡ some (first ++ bytes)
asserted-some e first bytes block v h = ground arith

-- The offset does not lie behind the bytes of the first extent.
abbrev pub Reaches : ℕ → List Extent → Type 0
Reaches offset [] = Unit
Reaches offset (e ∷ es) = offset ≤ e.length

module _ (disk : Disk) (is_disk : IsDisk disk) where
  read_extent-start :
      (room : ℕ) (e : Extent)
      → IsRange e
      → e.length ≤ room
      → read_extent disk room 0 e ≡ some (content disk e)
  unfolding read_extent read_first
  read_extent-start room e v h =
      ap (asserted e []) (
        read_rest-bytes_of disk is_disk (room - 0) e.block e.length (omega arith)
          (omega (arith, v)))
      ∙ asserted-some e [] (content disk e) (e.block + blocks_for e.length) v refl

  read_extent-behind :
      (room offset : ℕ) (e : Extent)
      → IsRange e
      → 0 < offset
      → offset ≤ min 512 e.length
      → e.length ≤ offset + room
      → read_extent disk room offset e ≡ some (drop offset (content disk e))
  unfolding read_extent read_first bytes_of
  read_extent-behind room offset e v pos h k =
      let size = min 512 e.length in
      let left = e.length - size in
      let block = add64 e.block 1 in
      let sector = take size (disk e.block) in
      let piece = drop offset sector in
      let first = take room piece in
      let tests : (ltb 0 offset && ltb 0 e.length) ≡ true = ground (arith, v) in
      let in_sector : ltb size offset ≡ false = ground (arith, h) in
      let sector_length : length sector ≡ size =
        omega (arith, length-take size (disk e.block), is_disk e.block) in
      let piece_length : length piece ≡ size - offset =
        omega (arith, length-drop offset sector, sector_length) in
      let whole : first ≡ piece = take_all room piece (omega arith) in
      let first_length : length first ≡ size - offset = ap length whole ∙ piece_length in
      let here : read_first disk room offset e ≡ some (first, block, left) =
        rw (read_first, tests, in_sector) refl in
      let rest =
        read_rest-bytes_of disk is_disk (room - length first) block left (omega (arith, v))
          (omega (arith, v)) in
      let tail = bytes_of disk (blocks_for left) block left in
      let more : suc (blocks_for left) ≡ blocks_for e.length = omega (arith, v) in
      ap (after_first disk room e) here
      ∙ ap (asserted e first) rest
      ∙ asserted-some e first tail (block + blocks_for left) v (omega (arith, v))
      ∙ ap (λ l. some (l ++ tail)) whole
      ∙ ap some (
          sym (drop-append offset sector tail (omega (arith, sector_length)))
          ∙ ap (λ l. drop offset (sector ++ l))
              (bytes_of-same disk is_disk (blocks_for left) (blocks_for left) block block left
                (e.length - 512) refl refl (omega arith))
          ∙ ap (λ n. drop offset (bytes_of disk n e.block e.length)) more)

  read_extent-panics :
      (room offset : ℕ) (e : Extent)
      → IsRange e
      → e.length < offset
      → read_extent disk room offset e ≡ none
  unfolding read_extent read_first
  read_extent-panics room offset e v h =
      let tests : (ltb 0 offset && ltb 0 e.length) ≡ true = ground (arith, v) in
      let out : ltb (min 512 e.length) offset ≡ true = ground (arith, h) in
      let here : read_first disk room offset e ≡ none = rw (read_first, tests, out) refl in
      ap (after_first disk room e) here

  read_extent-content :
      (room offset : ℕ) (e : Extent)
      → IsRange e
      → offset ≤ min 512 e.length
      → e.length ≤ offset + room
      → read_extent disk room offset e ≡ some (drop offset (content disk e))
  read_extent-content room zero e v h k = read_extent-start room e v (omega arith)
  read_extent-content room (suc offset) e v h k =
      read_extent-behind room (suc offset) e v (omega arith) h k

  Reaches-zero : (es : List Extent) → Reaches 0 es
  Reaches-zero [] = tt
  Reaches-zero (e ∷ es) = omega arith

  -- The loop of `read_node`, from an offset within the first sector: if there is a byte at the offset or
  -- the extents end there, and the buffer has room for what they hold from there on, then the call does
  -- not panic, and reads just these bytes, in their order.
  pub read_extents-contents :
      (room offset : ℕ) (es : List Extent)
      → All IsRange es
      → offset ≤ 512
      → Reaches offset es
      → total es ≤ offset + room
      → read_extents disk room offset es ≡ some (drop offset (contents disk es))
  unfolding read_extents contents
  read_extents-contents room offset [] v small h k = ap some (sym (drop_nil offset))
  read_extents-contents room offset (e ∷ es) (v, vs) small h k =
      let first = content disk e in
      let bytes = drop offset first in
      let one : read_extent disk room offset e ≡ some bytes =
        read_extent-content room offset e v (omega (arith, h)) (omega (arith, k)) in
      let nonzero : (e.length == 0) ≡ false = ground (arith, v) in
      let size : length first ≡ e.length =
        length-bytes_of disk is_disk (blocks_for e.length) e.block e.length (omega arith) in
      let rest =
        read_extents-contents (room - length bytes) 0 es vs (omega arith) (Reaches-zero es)
          (omega (arith, length-drop offset first, size, k)) in
      rw (read_extents, one, nonzero, rest)
        (ap some (sym (drop-append offset first (contents disk es) (omega (arith, size, h)))))

  -- A read from behind the bytes of the first extent, but within its last sector, panics: the code takes
  -- the bytes from the offset to the end of this extent, which is below the offset.
  pub read_extents-panics :
      (room offset : ℕ) (e : Extent) (es : List Extent)
      → IsRange e
      → e.length < offset
      → read_extents disk room offset (e ∷ es) ≡ none
  unfolding read_extents
  read_extents-panics room offset e es v h =
      rw (read_extents, read_extent-panics room offset e v h) refl
