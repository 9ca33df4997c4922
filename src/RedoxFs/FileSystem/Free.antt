-- ===== src/RedoxFs/FileSystem/Free.antt =====
-- schemes/redoxfs/src/filesystem.rs: how ranges come back to the free blocks, and the blocks of a new
-- file system.
use origel.Base.{
  leb, Bool-cases, length, replicate, All, ℕ, suc, ◌+◌, ◌-◌, ◌*◌, ◌/◌, ◌^◌, ◌<◌, ◌≡◌, refl, ◌∙◌,
  ◌≢◌, ◌⊎◌, inl, inr, Option, none, some, List, [], ◌∷◌, arith,
}
use origel.Base.Map.{lookup, insert, lookup-insert}
use origel.RedoxFs.Extents.{Extent, empty, add64, take_blocks, insert_range}
use origel.RedoxFs.Extents.Cover.{times, in_range, IsExtent, Grown, insert_range-times}
use origel.RedoxFs.Node.{Node, default_node}
use origel.RedoxFs.FileSystem.{
  FileSystem, ok, node, write_at, fresh_free, fresh_root, create, allocate, insert_blocks,
  deallocate,
}
use origel.RedoxFs.FileSystem.Allocate.{at, written}

deallocate_in :
    (fuel block n : ℕ) (f : Node) (s : FileSystem) (es : List Extent)
    → s.header.free ≢ 0
    → at s.header.free s ≡ some f
    → insert_range block (n * 512) f.extents ≡ some es
    → deallocate (suc fuel) block (n * 512) s
      ≡ ok tt (written s.header.free (record f { extents = es }) s)
unfolding deallocate insert_blocks node write_at
deallocate_in fuel block n f s es z e q = ground arith

-- If the free node has an empty extent, `deallocate` of `n` blocks adds just these to the free ones, and
-- changes nothing else.
pub deallocate_lem :
    (fuel block n : ℕ) (f : Node) (s : FileSystem) (x : ℕ)
    → s.header.free ≢ 0
    → at s.header.free s ≡ some f
    → All IsExtent f.extents
    → n < 2 ^ 32
    → block < 2 ^ 63
    → ¬ All (λ e. e.length ≢ 0) f.extents
    → (es : List Extent) × (deallocate (suc fuel) block (n * 512) s
        ≡ ok tt (written s.header.free (record f { extents = es }) s))
      × (times x es ≡ in_range block n x + times x f.extents)
deallocate_lem fuel block n f s x z e v k b room =
    place (insert_range block (n * 512) f.extents) refl
      (insert_range-times x block n f.extents v k b)
  where
    place :
        (o : Option (List Extent))
        → insert_range block (n * 512) f.extents ≡ o
        → Grown x block n f.extents o
        → (es : List Extent) × (deallocate (suc fuel) block (n * 512) s
            ≡ ok tt (written s.header.free (record f { extents = es }) s))
          × (times x es ≡ in_range block n x + times x f.extents)
    place none q g = absurd (room g)
    place (some es) q g = (es, deallocate_in fuel block n f s es z e q, g)

abbrev pub fresh : ℕ → FileSystem
fresh bytes = record {
  disk = insert 1 fresh_root (insert 2 (fresh_free bytes) []);
  block = 0;
  header = record { size = bytes; root = 1; free = 2 };
}

fresh_times : (bytes x : ℕ) → times x (fresh_free bytes).extents ≡ in_range 4 (bytes / 512 - 4) x
unfolding fresh_free times
fresh_times bytes x = ground arith

-- A new file system has free exactly the blocks from 4 to the end of the disk, each once; a disk with
-- fewer than four blocks is refused.
pub create_lem :
    (bytes x : ℕ)
    → bytes < 2 ^ 63
    → ((bytes < 2048) × (create bytes ≡ none))
      ⊎ ((s : FileSystem) × (f : Node) × (create bytes ≡ some s)
          × (at s.header.free s ≡ some f)
          × (times x f.extents ≡ in_range 4 (bytes / 512 - 4) x))
unfolding create lookup insert
create_lem bytes x h = elim (Bool-cases (leb (4 * 512) bytes)) [
  | inl e ↦ inr (fresh bytes, fresh_free bytes, rw e, refl, fresh_times bytes x)
  | inr e ↦ inl (ground arith, rw e)
]

-- A new node that holds one range.
abbrev holding : ℕ → ℕ → Node
holding block length = record default_node {
  extents = record { block = block; length = length } ∷ replicate 14 empty;
}

allocate_again :
    (b : ℕ) (f : Node) (es : List Extent) (s : FileSystem)
    → at s.header.free s ≡ some f
    → take_blocks 1 f.extents ≡ some (b, es)
    → allocate 1 s ≡ ok b (written s.header.free (record f { extents = es }) s)
unfolding allocate node write_at
allocate_again b f es s e q = ground arith

overwritten :
    (b : ℕ) (f : Node) (es : List Extent) (s : FileSystem) (h : Node)
    → add64 s.block b ≢ add64 s.block s.header.free
    → let free = s.header.free in
      at free (
        written b h (
          written b default_node
            (written free (record f { next = b }) (written free (record f { extents = es }) s))))
      ≡ some (record f { next = b })
overwritten b f es s h d =
    let own = add64 s.block b in
    let free = add64 s.block s.header.free in
    let m1 = insert free (record f { extents = es }) s.disk in
    let m2 = insert free (record f { next = b }) m1 in
    ground (
      arith,
      lookup-insert own free h (insert own default_node m2),
      lookup-insert own free default_node m2,
      lookup-insert free free (record f { next = b }) m1,
    )

insert_new :
    (fuel block length b : ℕ) (s : FileSystem)
    → b ≢ 0
    → at b s ≡ some default_node
    → insert_blocks (suc fuel) block length b s ≡ ok tt (written b (holding block length) s)
unfolding insert_blocks node write_at insert_range default_node
insert_new fuel block length b s y e = ground arith

insert_full :
    (fuel block length parent b : ℕ) (p : Node) (s s1 : FileSystem)
    → parent ≢ 0
    → at parent s ≡ some p
    → p.next ≡ 0
    → insert_range block length p.extents ≡ none
    → allocate 1 s ≡ ok b s1
    → insert_blocks (suc fuel) block length parent s
      ≡ insert_blocks fuel block length b
          (written b default_node (written parent (record p { next = b }) s1))
unfolding insert_blocks node write_at
insert_full fuel block length parent b p s s1 z e n full q = ground arith

deallocate-insert :
    (fuel block length : ℕ) (s : FileSystem)
    → deallocate fuel block length s ≡ insert_blocks fuel block length s.header.free s
unfolding deallocate
deallocate-insert fuel block length s = refl

-- A range is given back to a free node with no place for it and no next node. `allocate` takes the
-- block `b` for a new node from the free node, but the free node as it was before is then written
-- over it: `b` is both the next free node and free, and the next `allocate` hands it out again.
pub free_node_overwritten :
    (fuel block length b : ℕ) (f : Node) (es : List Extent) (s : FileSystem)
    → s.header.free ≢ 0
    → b ≢ 0
    → at s.header.free s ≡ some f
    → f.next ≡ 0
    → insert_range block length f.extents ≡ none
    → take_blocks 1 f.extents ≡ some (b, es)
    → add64 s.block b ≢ add64 s.block s.header.free
    → (s' s'' : FileSystem) × (deallocate (suc (suc fuel)) block length s ≡ ok tt s')
      × (at s.header.free s' ≡ some (record f { next = b }))
      × (allocate 1 s' ≡ ok b s'')
free_node_overwritten fuel block length b f es s z y e n full q d =
    let free = s.header.free in
    let s1 = written free (record f { extents = es }) s in
    let s2 = written free (record f { next = b }) s1 in
    let s3 = written b default_node s2 in
    let s' = written b (holding block length) s3 in
    let kept = overwritten b f es s (holding block length) d in
    (
      s',
      written free (record f { next = b; extents = es }) s',
      deallocate-insert (suc (suc fuel)) block length s
          ∙ insert_full (suc fuel) block length free b f s s1 z e n full
              (allocate_again b f es s e q)
          ∙ insert_new fuel block length b s3 y (
              ground
                (arith, lookup-insert (add64 s.block b) (add64 s.block b) default_node s2.disk)),
      kept,
      allocate_again b (record f { next = b }) es s' kept q,
    )
