-- ===== src/RedoxFs/Scheme/Table/Tests.antt =====
-- Runs of the calls on open resources, in a file system whose nodes all hold the same bytes.
use origel.Base.{
  length, take, drop, ℕ, ◌+◌, bit_or, ◌≡◌, refl, Bool, true, Option, none, some, List, [], ◌∷◌,
  ◌++◌,
}
use origel.Base.Map.{lookup, insert, remove}
use origel.Syscall.Error.{Result, ok, err}
use origel.Syscall.Flag.{o_rdonly, seek_end, o_creat, o_directory}
use origel.RedoxFs.Node.{default_node, new_node, copy_name, name_of, is_dir, permission}
use origel.RedoxFs.FileSystem.{
  FileSystem, node, find_node, find_child, write_at, allocate, child_blocks, all_blocks,
  child_nodes, read_children, create_node, insert_blocks, remove_node, remove_blocks, deallocate,
  fresh_free, fresh_root,
}
use origel.RedoxFs.FileSystem.Free.{fresh}
use origel.RedoxFs.Resource.{
  NodeCalls, new_dir, new_file, read_file, read_dir, dup_file, write_file, truncate_file,
}
use origel.RedoxFs.Scheme.{
  dir, file, lacks, trimmed, last_part, last, add_line, list_names, open_dir, open_file, open_node,
  create_part, create_in, open_walked, open_resource, checked, chmod, remove_child, rmdir, unlink,
}
use origel.RedoxFs.Scheme.Table.{
  Called, FileScheme, new_scheme, keep, dup_call, read_call, write_call, seek_call, ftruncate_call,
  fcntl_call, fpath_call, fstat_call, fstatvfs_call, fsync_call, close_call, stat_resource,
  open_call, chmod_call, rmdir_call, unlink_call,
}
use origel.Base.Text.{split, trim_front, trim_back}
use origel.RedoxFs.Extents.{take_blocks, insert_range, remove_range, blocks, blocks_from, cut}
use origel.RedoxFs.Scheme.Paths.{walk, path_nodes, check_nodes}

abbrev bytes : List ℕ
bytes = 7 ∷ 8 ∷ 9 ∷ []

abbrev calls : NodeCalls FileSystem
calls = record {
  node = λ block fs. (ok default_node, fs);
  node_len = λ block fs. (ok 1024, fs);
  node_set_len = λ block n fs. (ok tt, fs);
  read_node = λ block offset n fs. (ok (take n (drop offset bytes)), fs);
  write_node = λ block offset buf fs. (ok (length buf), fs);
}

abbrev path_y : List ℕ
path_y = b'd' ∷ b'/' ∷ b'y' ∷ []

-- A scheme with a file open for reading under 1, and a directory under 2.
abbrev opened_two : FileScheme
unfolding keep new_scheme
opened_two =
    (keep (dir (new_dir [] 1 path_y))
      (keep (file (new_file path_y 5 o_rdonly)) (new_scheme (b'f' ∷ []) (fresh 8192))).1).1

abbrev number : Result ℕ → ℕ
number (ok n) = n
number (err e) = 1000 + e

abbrev stored : Result (List ℕ) → List ℕ
stored (ok bs) = bs
stored (err e) = (1000 + e) ∷ []

-- What the copy of a file reads, when the first one has read two bytes before and the copy is made then.
read_on : List ℕ
unfolding read_call dup_call
read_on =
    let (r, s) = read_call calls 1 2 opened_two in
    let (id, s') = dup_call 1 [] s in
    stored r
    ++ (number id ∷ stored (read_call calls 3 2 s').0)
    ++ stored (read_call calls 1 2 s').0
    ++ stored (read_call calls 2 2 s').0

read_on_result : read_on ≡ 7 ∷ 8 ∷ 3 ∷ 9 ∷ 9 ∷ b'd' ∷ b'/' ∷ []
unfolding read_on opened_two read_file read_dir dup_file keep new_scheme lookup insert new_dir
    new_file
read_on_result = refl

-- A file that is not open for writing; a directory; a number that is closed.
refused : List ℕ
unfolding write_call ftruncate_call fcntl_call fsync_call close_call seek_call
refused =
    number (write_call calls 1 bytes opened_two).0
    ∷ number (write_call calls 2 bytes opened_two).0
    ∷ number (ftruncate_call calls 1 4 opened_two).0
    ∷ number (fcntl_call 2 0 0 opened_two).0
    ∷ number (fsync_call 2 opened_two).0
    ∷ number (fsync_call 1 opened_two).0
    ∷ number (close_call 1 opened_two).0
    ∷ number (seek_call calls 1 0 seek_end (close_call 1 opened_two).1).0
    ∷ []

refused_result : refused ≡ 1009 ∷ 1009 ∷ 1009 ∷ 1009 ∷ 1009 ∷ 0 ∷ 0 ∷ 1009 ∷ []
unfolding refused opened_two write_file truncate_file keep new_scheme lookup insert remove new_dir
    new_file
refused_result = refl

path_result : (fpath_call 1 5 opened_two).0 ≡ ok (b'f' ∷ b':' ∷ b'/' ∷ b'd' ∷ b'/' ∷ [])
unfolding fpath_call opened_two keep new_scheme lookup insert new_file new_dir
path_result = refl

stat_result : (fstat_call calls 2 opened_two).0 ≡ ok (0, 0, 0, 1024)
unfolding fstat_call stat_resource opened_two keep new_scheme lookup insert new_file new_dir
    default_node
stat_result = refl

free_result : (fstatvfs_call calls 2 opened_two).0 ≡ ok (512, 16, 2, 2)
unfolding fstatvfs_call opened_two keep new_scheme lookup insert new_file new_dir
free_result = refl

abbrev utf8 : List ℕ → Bool
utf8 bs = true

-- The calls one after another, as long as they have a result: what each returns.
abbrev sequence : List (FileScheme → Option (Called ℕ)) → FileScheme → List ℕ
sequence [] s = []
sequence (call ∷ rest) s = elim (call s) [ none ↦ [] | some (r, s') ↦ number r ∷ sequence rest s' ]

abbrev flags : ℕ
flags = bit_or o_creat (bit_or o_rdonly 0o755)

-- User 0 makes a directory and a file; user 7 may neither remove the file nor change its mode.
on_paths : List ℕ
unfolding open_call chmod_call rmdir_call unlink_call
on_paths =
    sequence
      (open_call utf8 4 (b'd' ∷ []) (bit_or flags o_directory) 0 0
        ∷ open_call utf8 4 path_y flags 0 0
        ∷ unlink_call utf8 4 path_y 7 7
        ∷ chmod_call utf8 4 path_y 0o600 7 7
        ∷ chmod_call utf8 4 path_y 0o600 0 0
        ∷ open_call utf8 4 path_y o_rdonly 7 7
        ∷ unlink_call utf8 4 path_y 0 0
        ∷ rmdir_call utf8 4 (b'd' ∷ []) 0 0
        ∷ [])
      (new_scheme (b'f' ∷ []) (fresh 8192))

on_paths_result : on_paths ≡ 1 ∷ 2 ∷ 1013 ∷ 1001 ∷ 0 ∷ 1013 ∷ 0 ∷ 0 ∷ []
unfolding on_paths keep new_scheme open_resource rmdir unlink split trimmed trim_front trim_back
    walk path_nodes check_nodes node write_at find_node find_child fresh_root fresh_free lookup
    insert blocks blocks_from child_blocks all_blocks new_node default_node copy_name name_of is_dir
    permission open_walked open_node open_file open_dir create_in create_part last last_part lacks
    list_names add_line child_nodes read_children create_node insert_blocks remove_node
    remove_blocks deallocate allocate take_blocks insert_range remove_range cut remove_child new_dir
    new_file checked chmod
on_paths_result = refl
