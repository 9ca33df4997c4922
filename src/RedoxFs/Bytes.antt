-- ===== src/RedoxFs/Bytes.antt =====
-- schemes/redoxfs/src/filesystem.rs: the bytes of a file, as `read_node` reads them from the extents
-- that `node_extents` has picked. The disk gives the 512 bytes of each block; a slice that is out of range
-- and an assertion that fails are a panic, `none`.
pub mod Content
pub mod Reads
pub mod Pick
pub mod Slices
pub mod Picked
pub mod ReadNode
mod Tests
use origel.Base.{
  ltb, leb, ◌==◌, if◌then◌else◌, length, take, drop, ℕ, zero, suc, ◌+◌, ◌-◌, ◌*◌, ◌/◌, ◌%◌, min,
  ◌&&◌, Option, none, some, List, [], ◌∷◌, ◌++◌,
}
use origel.RedoxFs.Extents.{Extent, empty, add64, blocks}
use origel.RedoxFs.FileSystem.{FileSystem, Fs, ok, err, fault, loops, pure, no_fuel, node, ◌>>=◌}

abbrev pub Disk : Type 0
Disk = ℕ → List ℕ

-- `read_at` of whole sectors.
pub sectors : Disk → ℕ → ℕ → List ℕ
sectors disk zero b = []
sectors disk (suc n) b = disk b ++ sectors disk n (add64 b 1)

-- A part of the read of an extent: the bytes, the next block, and the length left.
abbrev pub Part : Type 0
Part = List ℕ × ℕ × ℕ

-- The first sector, from the byte `offset` on, into a buffer with room for `room` bytes.
pub read_first : Disk → (room offset : ℕ) → Extent → Option Part
read_first disk room offset e =
    let size = min 512 e.length in
    if ltb 0 offset && ltb 0 e.length
    then if ltb size offset
      then none
      else some
          (take room (drop offset (take size (disk e.block))), add64 e.block 1, e.length - size)
    else some ([], e.block, e.length)

-- The sectors that are read straight into the buffer.
pub read_whole : Disk → (room block length : ℕ) → Part
unfolding sectors
read_whole disk room block length =
    let n = min length room / 512 in (sectors disk n block, add64 block n, length - n * 512)

-- The last sector.
pub read_last : Disk → (room block length : ℕ) → Part
read_last disk room block length =
    let size = min 512 length in
    if ltb 0 length
    then (take room (take size (disk block)), add64 block 1, length - size)
    else ([], block, length)

-- The whole sectors and the last one.
pub read_rest : Disk → (room block length : ℕ) → Part
unfolding read_whole read_last
read_rest disk room block len =
    let (whole, block', len') = read_whole disk room block len in
    let (last, block'', len'') = read_last disk (room - length whole) block' len' in
    (whole ++ last, block'', len'')

-- The two assertions at the end of a round.
abbrev pub asserted : Extent → List ℕ → Part → Option (List ℕ)
asserted e first (bytes, block, left) =
    if left == 0 && block == add64 e.block (add64 e.length 511 / 512)
    then some (first ++ bytes)
    else none

abbrev pub after_first : Disk → ℕ → Extent → Option Part → Option (List ℕ)
after_first disk room e none = none
after_first disk room e (some (first, block, left)) =
    asserted e first (read_rest disk (room - length first) block left)

-- One round of the loop of `read_node`.
pub read_extent : Disk → (room offset : ℕ) → Extent → Option (List ℕ)
unfolding read_first read_rest
read_extent disk room offset e = after_first disk room e (read_first disk room offset e)

-- The loop of `read_node`.
pub read_extents : Disk → (room offset : ℕ) → List Extent → Option (List ℕ)
unfolding read_extent
read_extents disk room offset [] = some []
read_extents disk room offset (e ∷ es) = elim (read_extent disk room offset e) [
  | none ↦ none
  | some bytes ↦
      elim (read_extents disk (room - length bytes) (if e.length == 0 then offset else 0) es) [
        | none ↦ none
        | some rest ↦ some (bytes ++ rest)
      ]
]

-- `push_extent`, which begins with the first block that is not skipped.
abbrev pub with_block : ℕ → Extent → Extent
with_block b p = if p.block == 0 then record p { block = b } else p

-- The loop of `node_extents` over the blocks of an extent, with `offset` blocks to skip, the part so far
-- and `len` bytes still wanted.
pub part_blocks : List (ℕ × ℕ) → ℕ → Extent → ℕ → ℕ × Extent × ℕ
part_blocks [] offset p len = (offset, p, len)
part_blocks ((b, size) ∷ bs) offset p len =
    let p' = with_block b p in
    let skipped = part_blocks bs (offset - 1) p len in
    let more = part_blocks bs 0 (record p' { length = add64 p'.length size }) (len - size) in
    if offset == 0
    then (if leb size len
        then more
        else if ltb 0 len
        then (0, record p' { length = add64 p'.length len }, 0)
        else (0, p', len))
    else skipped

abbrev pub pushed : Extent → List Extent
pushed p = if ltb 0 p.length then p ∷ [] else []

-- One extent of the loop, and the rest of the extents if bytes are still wanted.
abbrev pub then_pick : ℕ × Extent × ℕ → List Extent × ℕ × ℕ → List Extent × ℕ × ℕ
then_pick (offset, p, len) (rest, offset', len') =
    if len == 0 then (pushed p, offset, len) else (pushed p ++ rest, offset', len')

-- The loop of `node_extents` over the extents of a node: the parts, and what is left to skip and to read.
pub pick_extents : List Extent → (offset len : ℕ) → List Extent × ℕ × ℕ
unfolding part_blocks
pick_extents [] offset len = ([], offset, len)
pick_extents (e ∷ es) offset len =
    let (offset', p, len') = part_blocks (blocks e) offset empty len in
    then_pick (offset', p, len') (pick_extents es offset' len')

-- `node_extents`, on fuel for the chain of nodes.
pub node_extents : (fuel block offset len : ℕ) → Fs (List Extent)
unfolding pick_extents
node_extents zero block offset len = no_fuel
node_extents (suc fuel) block offset len =
    if block == 0
    then pure []
    else (node block >>= λ n.
        let (es, offset', len') = pick_extents n.extents offset len in
        (if ltb 0 len'
          then (node_extents fuel n.next offset' len' >>= λ rest. pure (es ++ rest))
          else pure es))

-- `read_node` into a buffer of `n` bytes: the bytes that it stores.
pub read_node : (fuel : ℕ) → Disk → (block offset n : ℕ) → Fs (Option (List ℕ))
unfolding node_extents read_extents
read_node fuel disk block offset n =
    node_extents fuel block (offset / 512) (offset % 512 + n) >>= λ es.
    pure (read_extents disk n (offset % 512) es)
