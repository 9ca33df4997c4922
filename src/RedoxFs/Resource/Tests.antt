-- ===== src/RedoxFs/Resource/Tests.antt =====
-- Runs of the calls on open files and directories, and the theorem about their positions.
use origel.Base.{
  length, take, drop, ℕ, ◌+◌, bit_or, ◌≡◌, refl, inr, none, List, [], ◌∷◌, ◌++◌, arith,
}
use origel.Syscall.Error.{ok, err, ebadf}
use origel.Syscall.Flag.{o_rdwr, o_nonblock, f_setfl, f_getfl, seek_end}
use origel.RedoxFs.Node.{default_node}
use origel.RedoxFs.Resource.{
  NodeCalls, DirResource, FileResource, new_dir, new_file, new_position, read_dir, seek_dir,
  dup_file, fcntl_file, read_file, write_file, seek_file, truncate_file,
}
use origel.RedoxFs.Resource.Position.{seek_lem}

-- A file system of one file: its bytes.
abbrev one_file : NodeCalls (List ℕ)
one_file = record {
  node = λ block s. (ok default_node, s);
  node_len = λ block s. (ok (length s), s);
  node_set_len = λ block n s. (ok tt, take n s);
  read_node = λ block offset n s. (ok (take n (drop offset s)), s);
  write_node =
      λ block offset buf s. (ok (length buf), take offset s ++ buf ++ drop (offset + length buf) s);
}

abbrev bytes : List ℕ
bytes = 7 ∷ 8 ∷ 9 ∷ []

abbrev opened : FileResource
opened = record { path = []; block = 5; flags = o_rdwr; position = 1 }

abbrev directory : DirResource
directory = record { path = []; block = 5; data_bytes = bytes; position = 1 }

starts_at_zero : (new_file [] 5 o_rdwr).position ≡ 0
unfolding new_file
starts_at_zero = refl

starts_directory : (new_dir [] 5 bytes).position ≡ 0
unfolding new_dir
starts_directory = refl

reads_on : read_file one_file 1 opened bytes ≡ (ok (8 ∷ []), record opened { position = 2 }, bytes)
unfolding read_file
reads_on = refl

writes_on :
    write_file one_file (1 ∷ []) opened bytes
    ≡ (ok 1, record opened { position = 2 }, 7 ∷ 1 ∷ 9 ∷ [])
unfolding write_file
writes_on = refl

truncates : truncate_file one_file 2 opened bytes ≡ (ok 0, 7 ∷ 8 ∷ [])
unfolding truncate_file
truncates = refl

reads_names : read_dir 5 directory ≡ (8 ∷ 9 ∷ [], record directory { position = 3 })
unfolding read_dir
reads_names = refl

dups : dup_file [] opened ≡ ok opened
unfolding dup_file
dups = ground arith

gets_flags : fcntl_file f_getfl 0 opened ≡ (ok o_rdwr, opened)
unfolding fcntl_file
gets_flags = refl

-- `F_SETFL` takes the access mode away, and no call is allowed any more.
sets_flags :
    read_file one_file 1 (fcntl_file f_setfl (bit_or o_rdwr o_nonblock) opened).1 bytes
    ≡ (err ebadf, record opened { flags = o_nonblock }, bytes)
unfolding fcntl_file read_file
sets_flags = refl

seek_lem_example :
    (seek_file one_file 2 seek_end opened bytes ≡ (ok 0, record opened { position = 0 }, bytes))
    × (seek_dir 2 seek_end directory ≡ (ok 0, record directory { position = 0 }))
seek_lem_example =
    seek_lem one_file 2 seek_end 3 opened directory bytes bytes (omega arith) (inr (inr refl))
      (omega arith) (omega arith) refl

finds_no_place : new_position 3 1 2 7 ≡ none
unfolding new_position
finds_no_place = refl
