-- ===== src/RedoxFs/Bytes/Tests.antt =====
-- Runs of `read_node`, and the theorems about it on a concrete disk.
use origel.Base.{take, drop, replicate, All, ◌≡◌, refl, inl, inr, none, some, List, [], ◌∷◌, arith}
use origel.Base.Map.{lookup}
use origel.RedoxFs.Extents.{Extent, empty, blocks, blocks_from}
use origel.RedoxFs.Node.{Node, default_node}
use origel.RedoxFs.FileSystem.{FileSystem, ok, node}
use origel.RedoxFs.Bytes.{
  Disk, sectors, read_first, read_whole, read_last, read_rest, read_extent, read_extents,
  part_blocks, pick_extents, node_extents, read_node,
}
use origel.RedoxFs.Bytes.Content.{IsDisk, contents}
use origel.RedoxFs.Bytes.Pick.{part_from, part_blocks_lem}
use origel.RedoxFs.Bytes.Picked.{IsPlaced, IsPacked}
use origel.RedoxFs.Bytes.ReadNode.{read_node-contents, read_node-panics}

-- Each byte of a block is the block's number.
abbrev disk : Disk
disk b = replicate 512 b

disk-IsDisk : IsDisk disk
disk-IsDisk b = refl

-- A file of two sectors and three bytes.
abbrev extents : List Extent
extents = record { block = 7; length = 512 } ∷ record { block = 9; length = 515 } ∷ empty ∷ []

abbrev file : Node
file = record default_node { extents = extents; next = 0 }

abbrev file_system : FileSystem
file_system = record {
  disk = (5, file) ∷ [];
  block = 0;
  header = record { size = 8192; root = 1; free = 2 };
}

is_read : node 5 file_system ≡ ok file file_system
unfolding node lookup
is_read = refl

extents-IsPlaced : All IsPlaced extents
extents-IsPlaced = ground arith

extents-IsPacked : IsPacked extents
extents-IsPacked = (inl refl, (inr refl, (inl refl, tt)))

picks : pick_extents extents 1 100 ≡ (record { block = 9; length = 100 } ∷ [], 0, 0)
unfolding pick_extents part_blocks blocks blocks_from
picks = refl

reads_first : read_first disk 5 510 (record { block = 7; length = 512 }) ≡ some (7 ∷ 7 ∷ [], 8, 0)
unfolding read_first
reads_first = refl

reads_nothing : sectors disk 0 7 ≡ []
unfolding sectors
reads_nothing = refl

reads_end : read_last disk 5 7 2 ≡ (7 ∷ 7 ∷ [], 8, 0)
unfolding read_last
reads_end = refl

reads_rest : read_rest disk 5 7 2 ≡ (7 ∷ 7 ∷ [], 8, 0)
unfolding read_rest read_whole read_last sectors
reads_rest = refl

reads_extent : read_extent disk 5 1 (record { block = 7; length = 2 }) ≡ some (7 ∷ [])
unfolding read_extent read_first read_rest read_whole read_last sectors
reads_extent = refl

reads_extents : read_extents disk 5 0 [] ≡ some []
unfolding read_extents
reads_extents = refl

no_node : node_extents 1 0 0 9 file_system ≡ ok [] file_system
unfolding node_extents
no_node = refl

read_node-contents_example :
    read_node 2 disk 5 510 4 file_system
    ≡ ok (some (take 4 (drop 510 (contents disk extents)))) file_system
read_node-contents_example =
    read_node-contents disk disk-IsDisk 5 file file_system (omega arith) is_read refl
      extents-IsPlaced extents-IsPacked 0 510 4 (omega arith)

read_node-panics_example : read_node 2 disk 5 1030 4 file_system ≡ ok none file_system
read_node-panics_example =
    read_node-panics disk disk-IsDisk 5 file file_system (omega arith) is_read refl extents-IsPlaced
      extents-IsPacked 0 1030 4 (omega arith) (omega arith)

part_blocks_lem_example :
    part_blocks (blocks (record { block = 9; length = 515 })) 1 empty 100
    ≡ (0, part_from (record { block = 9; length = 515 }) 1 100, 97)
part_blocks_lem_example =
    part_blocks_lem (record { block = 9; length = 515 }) 1 100 (omega arith, omega arith)
      (λ h. omega arith)
