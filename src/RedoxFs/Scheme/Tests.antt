-- ===== src/RedoxFs/Scheme/Tests.antt =====
-- Runs of the file system as a scheme, and the theorems about it at concrete states.
use origel.Base.{ℕ, ◌+◌, bit_and, bit_or, ◌≡◌, refl, ◌⊎◌, Bool, true, List, [], ◌∷◌}
use origel.Base.Text.{split, trim_front, trim_back}
use origel.Base.Map.{lookup, insert}
use origel.Syscall.Flag.{o_creat, o_directory, o_rdonly, o_rdwr, mode_perm}
use origel.RedoxFs.Extents.{take_blocks, insert_range, remove_range, blocks, blocks_from, cut}
use origel.RedoxFs.Node.{
  Node, new_node, default_node, copy_name, name_of, is_dir, permission, mode_file,
}
use origel.RedoxFs.FileSystem.{
  FileSystem, Run, ok, err, fault, loops, Fs, ◌>>=◌, node, find_node, find_child, write_at,
  allocate, child_blocks, all_blocks, child_nodes, read_children, create_node, insert_blocks,
  remove_node, remove_blocks, deallocate, fresh_free, fresh_root,
}
use origel.RedoxFs.FileSystem.Allocate.{written}
use origel.RedoxFs.FileSystem.Free.{fresh}
use origel.RedoxFs.Resource.{new_dir, new_file}
use origel.RedoxFs.Scheme.Paths.{walk, path_nodes, check_nodes}
use origel.RedoxFs.Scheme.{
  lacks, trimmed, last_part, last, add_line, list_names, open_dir, open_file, open_node,
  create_part, create_in, open_walked, open_resource, checked, chmod, remove_child, rmdir, unlink,
}
use origel.RedoxFs.Scheme.Parents.{opened_at, open-misplaces}
use origel.RedoxFs.Scheme.Rights.{Passes, Opens, open_resource-Opens, chmod_lem}

abbrev all_utf8 : List ℕ → Bool
all_utf8 bytes = true

-- What a call returns, an error as 1000 more; 0 stands for a call that does not return.
abbrev value : Run ℕ → ℕ
value (ok n _) = n
value (err e _) = 1000 + e
value fault = 0
value loops = 0

abbrev opens : List ℕ → ℕ → ℕ → Fs ℕ
unfolding open_resource
opens url flags uid s = opened_at (open_resource all_utf8 4 url flags uid uid s)

abbrev make : ℕ
make = bit_or o_creat (bit_or o_rdwr 0o644)

abbrev make_dir : ℕ
make_dir = bit_or (bit_or o_creat o_directory) (bit_or o_rdonly 0o755)

abbrev dir_d : List ℕ
dir_d = b'd' ∷ []

abbrev file_y : List ℕ
file_y = b'y' ∷ []

abbrev path_y : List ℕ
path_y = b'/' ∷ b'd' ∷ b'/' ∷ b'y' ∷ []

-- User 0 makes a directory and a file in it; another user may read the file but not make one there.
runs : List ℕ
unfolding opens rmdir unlink
runs =
    value (opens dir_d make_dir 0 (fresh 8192))
    ∷ value ((opens dir_d make_dir 0 >>= λ _. opens path_y make 0) (fresh 8192))
    ∷ value (
        (opens dir_d make_dir 0 >>= λ _. opens path_y make 0 >>= λ _. opens path_y o_rdonly 7)
          (fresh 8192))
    ∷ value (
        (opens dir_d make_dir 0 >>= λ _. opens path_y make 0 >>= λ _. opens path_y o_rdwr 7)
          (fresh 8192))
    ∷ value ((opens dir_d make_dir 0 >>= λ _. opens path_y make 7) (fresh 8192))
    ∷ value (
        (opens dir_d make_dir 0 >>= λ _. opens path_y make 0 >>= λ _. rmdir all_utf8 4 dir_d 0 0)
          (fresh 8192))
    ∷ value (
        (opens dir_d make_dir 0 >>= λ _. opens path_y make 0 >>= λ _.
        unlink all_utf8 4 path_y 0 0 >>= λ _.
        rmdir all_utf8 4 dir_d 0 0 >>= λ _. opens dir_d o_rdonly 0)
          (fresh 8192))
    ∷ []

runs_result : runs ≡ 4 ∷ 5 ∷ 5 ∷ 1013 ∷ 1013 ∷ 1039 ∷ 1002 ∷ []
unfolding runs split trimmed trim_front trim_back walk path_nodes check_nodes node write_at
    find_node find_child fresh_root fresh_free lookup insert blocks blocks_from child_blocks
    all_blocks new_node default_node copy_name name_of is_dir permission open_walked open_node
    open_file open_dir create_in create_part last last_part lacks list_names add_line child_nodes
    read_children create_node insert_blocks remove_node remove_blocks deallocate allocate
    take_blocks insert_range remove_range cut remove_child new_dir new_file checked chmod
runs_result = refl

-- A file system with one file, `y`, of user 7.
abbrev node_y : Node
unfolding new_node
node_y = record (new_node (bit_or mode_file 0o644) file_y 1) { uid = 7 }

abbrev with_y : FileSystem
unfolding fresh_root
with_y = record (fresh 8192) {
  disk =
      (1, record fresh_root { extents = record { block = 5; length = 512 } ∷ [] })
      ∷ (5, node_y)
      ∷ [];
}

open-misplaces_example :
    opened_at (open_resource all_utf8 4 path_y make 0 0 (fresh 8192))
    ≡ opened_at (open_resource all_utf8 4 file_y make 0 0 (fresh 8192))
unfolding split trimmed trim_front trim_back walk node find_node find_child fresh_root lookup insert
    blocks blocks_from child_blocks all_blocks new_node
open-misplaces_example =
    open-misplaces all_utf8 4 path_y file_y make 0 0 [] (b'd') (b'y') [] [] fresh_root []
      (1, fresh_root) (fresh 8192) (fresh 8192) refl refl refl refl refl refl refl

open_resource-Opens_example :
    Passes 7 7 ((1, record fresh_root { extents = record { block = 5; length = 512 } ∷ [] }) ∷ [])
    × (o_rdwr ≡ o_rdwr)
    × Opens 7 7 o_rdwr
        ((1, record fresh_root { extents = record { block = 5; length = 512 } ∷ [] }) ∷ [])
        (new_file file_y 5 o_rdwr)
        (ok (5, node_y) with_y)
unfolding open_resource split trimmed trim_front trim_back walk path_nodes check_nodes node write_at
    find_node find_child fresh_root fresh_free lookup insert blocks blocks_from child_blocks
    all_blocks new_node default_node copy_name name_of is_dir permission open_walked open_node
    open_file open_dir create_in create_part last last_part lacks list_names add_line child_nodes
    read_children create_node insert_blocks remove_node remove_blocks deallocate allocate
    take_blocks insert_range remove_range cut remove_child new_dir new_file checked chmod
open_resource-Opens_example =
    open_resource-Opens all_utf8 4 file_y o_rdwr 7 7 (new_file file_y 5 o_rdwr) with_y with_y refl

chmod_lem_example :
    (b : ℕ) × (n : Node) × (t : FileSystem) × ((path_nodes 4 (trimmed true file_y) with_y).1
      ≡ ok (b, n) t)
    × (◌≡◌ {A = ℕ} 0 0)
    × Passes 7 7 (path_nodes 4 (trimmed true file_y) with_y).0
    × ((n.uid ≡ 7) ⊎ (◌≡◌ {A = ℕ} 7 0))
    × (written 5 (record node_y { mode = bit_or mode_file 0o600 }) with_y
        ≡ written b
            (record n { mode = bit_or (bit_and n.mode 0xF000) (bit_and 0o600 mode_perm) })
            t)
unfolding split trimmed trim_front trim_back walk path_nodes check_nodes node write_at find_node
    find_child fresh_root fresh_free lookup insert blocks blocks_from child_blocks all_blocks
    new_node default_node copy_name name_of is_dir permission open_walked open_node open_file
    open_dir create_in create_part last last_part lacks list_names add_line child_nodes
    read_children create_node insert_blocks remove_node remove_blocks deallocate allocate
    take_blocks insert_range remove_range cut remove_child new_dir new_file checked chmod
chmod_lem_example =
    chmod_lem all_utf8 4 file_y 0o600 7 7 0 with_y
      (written 5 (record node_y { mode = bit_or mode_file 0o600 }) with_y) refl
