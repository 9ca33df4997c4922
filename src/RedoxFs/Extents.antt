-- ===== src/RedoxFs/Extents.antt =====
-- schemes/redoxfs/src/extent.rs, and the loops of filesystem.rs over the extents of one node. Blocks
-- and lengths are `u64`: a sum wraps.
pub mod Cover
pub mod Size
mod Tests
use origel.Base.{
  ltb, leb, ◌==◌, if◌then◌else◌, ℕ, zero, suc, ◌+◌, ◌-◌, ◌*◌, ◌/◌, ◌%◌, ◌^◌, min, Bool, true, false,
  ◌&&◌, Option, none, some, List, [], ◌∷◌,
}

pub record Extent : Type 0 where
  pub block : ℕ
  pub length : ℕ

-- `Extent::default`
abbrev pub empty : Extent
empty = record { block = 0; length = 0 }

abbrev pub add64 : ℕ → ℕ → ℕ
add64 a b = (a + b) % 2 ^ 64

-- The blocks that an extent holds whole.
abbrev pub full_blocks : Extent → ℕ
full_blocks e = e.length / 512

-- The rounds of `BlockIter` from the block `i` on: each block with the number of its bytes in use.
unfoldable pub blocks_from : Extent → ℕ → ℕ → List (ℕ × ℕ)
blocks_from e i zero = []
blocks_from e i (suc n) = (add64 e.block i, min 512 (e.length - i * 512)) ∷ blocks_from e (i + 1) n

-- `Extent::blocks`
unfoldable pub blocks : Extent → List (ℕ × ℕ)
unfolding blocks_from
blocks e = blocks_from e 0 (add64 e.length 511 / 512)

-- The loop of `allocate`: the first block of the range taken, and the extents left.
unfoldable pub take_blocks : ℕ → List Extent → Option (ℕ × List Extent)
take_blocks length [] = none
take_blocks length (e ∷ es) =
    let rest = take_blocks length es in
    if leb length (full_blocks e)
    then some
        (e.block, record { block = add64 e.block length; length = e.length - length * 512 } ∷ es)
    else elim rest [ none ↦ none | some (b, es') ↦ some (b, e ∷ es') ]

-- The loop of `insert_blocks`: the extents with the range added, if there is a place for it.
unfoldable pub insert_range : ℕ → ℕ → List Extent → Option (List Extent)
insert_range block length [] = none
insert_range block length (e ∷ es) =
    let rest = insert_range block length es in
    if e.length == 0
    then some (record { block = block; length = length } ∷ es)
    else if length % 512 == 0 && e.block == add64 block (length / 512)
    then some (record { block = block; length = add64 e.length length } ∷ es)
    else if e.length % 512 == 0 && add64 e.block (full_blocks e) == block
    then some (record { block = e.block; length = add64 e.length length } ∷ es)
    else elim rest [ none ↦ none | some es' ↦ some (e ∷ es') ]

-- What `remove_blocks` leaves of an extent around a range: the part before it, and the part after.
abbrev pub left_part : ℕ → Extent → Extent
left_part block e = record { block = e.block; length = (block - e.block) * 512 }

abbrev pub right_part : ℕ → ℕ → Extent → Extent
right_part block length e = record {
  block = add64 block length;
  length = (add64 e.block (full_blocks e) - add64 block length) * 512;
}

-- What stands in the extent's place, and what is still to be inserted.
unfoldable pub cut : ℕ → ℕ → Extent → Extent × Option Extent
cut block length e =
    let left = left_part block e in
    let right = right_part block length e in
    if ltb 0 left.length
    then (left, if ltb 0 right.length then some right else none)
    else if ltb 0 right.length
    then (right, none)
    else (empty, none)

-- The loop of `remove_blocks`.
unfoldable pub remove_range : ℕ → ℕ → List Extent → Option (List Extent × Option Extent)
unfolding cut
remove_range block length [] = none
remove_range block length (e ∷ es) =
    let rest = remove_range block length es in
    if leb e.block block && leb (add64 block length) (add64 e.block (full_blocks e))
    then (let (e', replace) = cut block length e in some (e' ∷ es, replace))
    else elim rest [ none ↦ none | some (es', replace) ↦ some (e ∷ es', replace) ]

-- The loop of `node_set_len`: the extents, the length left for the next node, and `changed`.
unfoldable pub set_len : ℕ → List Extent → List Extent × ℕ × Bool
set_len length [] = ([], length, false)
set_len length (e ∷ es) =
    let shorter = ltb length e.length in
    let (es', left, changed) = set_len (if shorter then 0 else length - e.length) es in
    if shorter
    then (record { block = e.block; length = length } ∷ es', left, true)
    else (e ∷ es', left, changed)

-- The loop of `node_ensure_len`: the extents, the length that is still missing, and `changed`.
unfoldable pub ensure_len : ℕ → List Extent → List Extent × ℕ × Bool
ensure_len length [] = ([], length, false)
ensure_len length (e ∷ es) =
    let allocated = add64 e.length 511 / 512 * 512 in
    let rest = ensure_len (length - allocated) es in
    if leb length e.length
    then (e ∷ es, 0, false)
    else if leb length allocated
    then (record { block = e.block; length = length } ∷ es, 0, true)
    else (record { block = e.block; length = allocated } ∷ rest.0, rest.1, true)

-- The fold of `Node::size` and `ExNode::size`, and of `node_len`, from the size `n` on.
unfoldable pub size_from : ℕ → List Extent → ℕ
size_from n [] = n
size_from n (e ∷ es) = size_from (add64 n e.length) es
