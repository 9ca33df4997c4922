-- ===== src/RedoxFs/Bytes/ReadNode.antt =====
-- schemes/redoxfs/src/filesystem.rs: `read_node` against the plain bytes of a file.
use mathlib.Core.List.{append-nil}
use origel.Base.{
  ltb, ◌==◌, Bool-cases, length, take, drop, All, length-take, length-drop, ℕ, suc, ◌+◌, ◌-◌, ◌*◌,
  ◌/◌, ◌%◌, ◌≤◌, ◌<◌, min, ◌≡◌, refl, sym, ap, ◌∙◌, ◌≢◌, inl, inr, true, false, Option, none, some,
  List, [], ◌∷◌, arith, drop-drop,
}
use origel.RedoxFs.Extents.{Extent}
use origel.RedoxFs.Extents.Size.{total}
use origel.RedoxFs.Node.{Node}
use origel.RedoxFs.FileSystem.{FileSystem, Run, ok, err, fault, loops, node}
use origel.RedoxFs.Bytes.{Disk, pick_extents, node_extents, read_extents, read_node}
use origel.RedoxFs.Bytes.Content.{IsDisk, contents}
use origel.RedoxFs.Bytes.Reads.{IsRange, read_extents-contents, read_extents-panics}
use origel.RedoxFs.Bytes.Slices.{drop-take}
use origel.RedoxFs.Bytes.Picked.{IsPlaced, IsPacked, pick_extents-Picks, length-contents}

-- A read from behind the bytes of all the extents panics at the first one.
short_panics :
    (disk : Disk) (is_disk : IsDisk disk) (room offset : ℕ) (es : List Extent)
    → All IsRange es
    → 0 < total es
    → total es < offset
    → read_extents disk room offset es ≡ none
short_panics disk is_disk room offset [] v some_bytes behind = absurd (omega (arith, some_bytes))
short_panics disk is_disk room offset (e ∷ es) v some_bytes behind =
    read_extents-panics disk is_disk room offset e es v.0 (omega (arith, behind))

module _ (disk : Disk) (is_disk : IsDisk disk) (block : ℕ) (n : Node) (s : FileSystem)
    (some_block : block ≢ 0) (read : node block s ≡ ok n s) (last : n.next ≡ 0)
    (placed : All IsPlaced n.extents) (packed : IsPacked n.extents) where
  node_extents-picks :
      (fuel offset len : ℕ)
      → node_extents (suc (suc fuel)) block offset len s
        ≡ ok (pick_extents n.extents offset len).0 s
  unfolding node_extents
  node_extents-picks fuel offset len =
      let (es, offset', len') = pick_extents n.extents offset len in
      let begins : (block == 0) ≡ false = ground (arith, some_block) in
      let ends : (n.next == 0) ≡ true = ground (arith, last) in
      elim (Bool-cases (ltb 0 len')) [
        | inl more ↦ ground (arith, begins, read, more, ends, append-nil es)
        | inr no_more ↦ ground (arith, begins, read, no_more)
      ]

  -- The second half of `read_node`.
  abbrev then_read : (room a : ℕ) → Run (List Extent) → Run (Option (List ℕ))
  then_read room a (ok es s') = ok (read_extents disk room a es) s'
  then_read room a (err e s') = err e s'
  then_read room a fault = fault
  then_read room a loops = loops

  -- `read_node` on a file of one node, at an offset that is not behind the end, does not panic and reads
  -- what a slice of the file's bytes would give: those from the offset on, up to the length of the buffer
  -- or the end of the file. The bytes of the file are those of its blocks in the order of the extents;
  -- each extent is full to the end of a sector, or no byte follows it.
  pub read_node-contents :
      (fuel offset room : ℕ)
      → offset ≤ total n.extents
      → read_node (suc (suc fuel)) disk block offset room s
        ≡ ok (some (take room (drop offset (contents disk n.extents)))) s
  unfolding read_node
  read_node-contents fuel offset room in_file =
      let a = offset % 512 in
      let o = offset / 512 in
      let r = pick_extents n.extents o (a + room) in
      let p = pick_extents-Picks disk is_disk n.extents o (a + room) placed packed in
      let bytes : read_extents disk room a r.0 ≡ some (drop a (contents disk r.0)) =
        read_extents-contents disk is_disk room a r.0 p.ranges (omega arith)
          (p.reach a (omega arith) (omega arith) (omega (arith, in_file))) p.few in
      let same : drop a (contents disk r.0) ≡ take room (drop offset (contents disk n.extents)) =
        ap (drop a) p.bytes
        ∙ drop-take a room (a + room) (drop (o * 512) (contents disk n.extents)) refl
        ∙ ap (take room) (drop-drop (o * 512) a offset (contents disk n.extents) (omega arith)) in
      ap (λ m. then_read room a m) (node_extents-picks fuel o (a + room))
      ∙ ap (λ x. ok x s) (bytes ∙ ap some same)

  -- `read_node` on a file of one node, at an offset behind the end of the file but in the sector where it ends,
  -- panics: the code takes the bytes of this sector from the offset to the end of the file, which is below
  -- the offset. Each extent of the file is full to the end of a sector, or no byte follows it.
  pub read_node-panics :
      (fuel offset room : ℕ)
      → total n.extents < offset
      → offset / 512 * 512 < total n.extents
      → read_node (suc (suc fuel)) disk block offset room s ≡ ok none s
  unfolding read_node
  read_node-panics fuel offset room behind in_sector =
      let a = offset % 512 in
      let o = offset / 512 in
      let r = pick_extents n.extents o (a + room) in
      let p = pick_extents-Picks disk is_disk n.extents o (a + room) placed packed in
      let rest = drop (o * 512) (contents disk n.extents) in
      let picked : total r.0 ≡ min (a + room) (total n.extents - o * 512) =
        sym (length-contents disk is_disk r.0)
        ∙ ap length p.bytes
        ∙ length-take (a + room) rest
        ∙ ap (min (a + room)) (
            length-drop (o * 512) (contents disk n.extents)
            ∙ ap (λ k. k - o * 512) (length-contents disk is_disk n.extents)) in
      let panics : read_extents disk room a r.0 ≡ none =
        short_panics disk is_disk room a r.0 p.ranges (omega (arith, picked, in_sector))
          (omega (arith, picked, behind)) in
      ap (λ m. then_read room a m) (node_extents-picks fuel o (a + room)) ∙ ap (λ x. ok x s) panics
