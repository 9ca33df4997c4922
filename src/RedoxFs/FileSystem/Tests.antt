-- ===== src/RedoxFs/FileSystem/Tests.antt =====
-- Runs of the file system, and the theorems about it at concrete states.
use origel.Base.{replicate, All, ℕ, ◌+◌, ◌≡◌, refl, ◌≢◌, some, List, [], ◌∷◌, arith}
use origel.Base.Map.{lookup, insert}
use origel.RedoxFs.Extents.{
  Extent, take_blocks, insert_range, remove_range, set_len, ensure_len, size_from, blocks,
  blocks_from, cut,
}
use origel.RedoxFs.Extents.Cover.{times, in_range, IsExtent}
use origel.RedoxFs.Node.{Node, default_node, new_node, copy_name, name_of, is_dir, mode_file}
use origel.RedoxFs.FileSystem.{
  pure, FileSystem, Run, ok, err, fault, loops, Fs, ◌>>=◌, node, write_at, fresh_free, fresh_root,
  allocate, insert_blocks, deallocate, child_blocks, all_blocks, find_child, find_node,
  read_children, child_nodes, create_node, remove_blocks, remove_node, node_ensure_len,
  node_set_len, node_len,
}
use origel.RedoxFs.FileSystem.Allocate.{at, written, Allocates, allocate_lem}
use origel.RedoxFs.FileSystem.Free.{fresh, deallocate_lem, free_node_overwritten}

abbrev file_name : List ℕ
file_name = b'a' ∷ b'b' ∷ []

-- What a call on a new file system of 16 blocks returns, an error as 1000 more; 0 stands for a call
-- that does not return.
abbrev value : Run ℕ → ℕ
value (ok n _) = n
value (err e _) = 1000 + e
value fault = 0
value loops = 0

abbrev number : Fs (ℕ × Node) → Fs ℕ
number m = m >>= λ found. pure found.0

abbrev make : Fs ℕ
unfolding create_node
make = number (create_node 4 0x81FF file_name 1)

abbrev find : Fs ℕ
unfolding find_node
find = number (find_node 4 file_name 1)

-- A file is made in the root directory; it is found there; it is refused a second time; it is removed
-- and not found; it gets a length.
runs : List ℕ
unfolding make find remove_node node_ensure_len node_set_len node_len
runs =
    value (make (fresh 8192))
    ∷ value ((make >>= λ _. find) (fresh 8192))
    ∷ value ((make >>= λ _. make) (fresh 8192))
    ∷ value ((make >>= λ _. remove_node 4 mode_file file_name 1 >>= λ _. find) (fresh 8192))
    ∷ value (
        (make >>= λ b. node_ensure_len 4 b 1000 >>= λ _. node_set_len 4 b 700 >>= λ _. node_len 4 b)
          (fresh 8192))
    ∷ []

runs_result : runs ≡ 4 ∷ 4 ∷ 1017 ∷ 1002 ∷ 700 ∷ []
unfolding runs find_child read_children child_nodes remove_blocks insert_blocks deallocate allocate
    node write_at fresh_free fresh_root default_node new_node copy_name name_of is_dir blocks
    blocks_from child_blocks all_blocks take_blocks insert_range remove_range cut lookup insert
    set_len ensure_len size_from
runs_result = refl

fresh-at : at 2 (fresh 8192) ≡ some (fresh_free 8192)
unfolding lookup insert
fresh-at = refl

fresh-IsExtent : All IsExtent (fresh_free 8192).extents
unfolding fresh_free
fresh-IsExtent = ground arith

allocate_lem_example : Allocates 3 (fresh_free 8192) (fresh 8192) (allocate 3 (fresh 8192))
allocate_lem_example = allocate_lem 3 (fresh_free 8192) (fresh 8192) fresh-at fresh-IsExtent

fresh_room : ¬ All (λ e. e.length ≢ 0) (fresh_free 8192).extents
unfolding fresh_free
fresh_room h = h.1.0 refl

deallocate_lem_example :
    (es : List Extent) × (deallocate 1 20 1024 (fresh 8192)
      ≡ ok tt (written 2 (record (fresh_free 8192) { extents = es }) (fresh 8192)))
    × (times 21 es ≡ in_range 20 2 21 + times 21 (fresh_free 8192).extents)
deallocate_lem_example =
    deallocate_lem 0 20 2 (fresh_free 8192) (fresh 8192) 21 (omega arith) fresh-at fresh-IsExtent
      (omega arith) (omega arith) fresh_room

-- Each of the fifteen extents of the free node holds some bytes past its last whole block.
abbrev crowded : Node
crowded = record (new_node 0x8000 [] 0) {
  extents = replicate 15 (record { block = 10; length = 1600 });
}

abbrev crowded_fs : FileSystem
crowded_fs = record (fresh 8192) { disk = (2, crowded) ∷ [] }

free_node_overwritten_example :
    (s' s'' : FileSystem) × (deallocate 2 40 512 crowded_fs ≡ ok tt s')
    × (at 2 s' ≡ some (record crowded { next = 10 }))
    × (allocate 1 s' ≡ ok 10 s'')
unfolding lookup new_node insert_range take_blocks
free_node_overwritten_example =
    free_node_overwritten 0 40 512 10 crowded
      (record { block = 11; length = 1088 } ∷ replicate 14 (record { block = 10; length = 1600 }))
      crowded_fs (omega arith) (omega arith) refl refl refl refl (omega arith)
