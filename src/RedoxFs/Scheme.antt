-- ===== src/RedoxFs/Scheme.antt =====
-- schemes/redoxfs/scheme/scheme.rs: the file system as a scheme. A path is looked up and opened as a
-- resource; the open resources stand in a table. Whether bytes are UTF-8 (`str::from_utf8`) is an
-- argument.
pub mod Paths
pub mod Table
pub mod Parents
pub mod Rights
mod Tests
use origel.Base.{
  ◌==◌, if◌then◌else◌, ℕ, ◌%◌, ◌^◌, bit_and, bit_or, Bool, true, false, ◌&&◌, ◌||◌, not, Option,
  none, some, List, [], ◌∷◌, ◌++◌,
}
use origel.Base.Text.{split, trim_front, trim_back}
use origel.Syscall.Error.{eacces, eexist, eisdir, enotdir, eperm, enoent}
use origel.Syscall.Flag.{
  o_accmode, o_creat, o_directory, o_excl, o_rdonly, o_rdwr, o_stat, o_trunc, o_wronly, mode_perm,
}
use origel.RedoxFs.Node.{Node, is_dir, name_of, permission, mode_dir, mode_file}
use origel.RedoxFs.FileSystem.{
  FileSystem, Run, ok, err, fault, loops, Fs, ◌>>=◌, ◌>>◌, pure, fail, write_at, child_nodes,
  create_node, remove_node, node_set_len,
}
use origel.RedoxFs.Scheme.Paths.{Found, Walked, path_nodes, check_nodes}
use origel.RedoxFs.Resource.{DirResource, FileResource, new_dir, new_file, may_read, may_write}

-- `Box<Resource>`
pub data Resource : Type 0 where
  dir : DirResource → Resource
  file : FileResource → Resource

abbrev pub has : (flag flags : ℕ) → Bool
has flag flags = bit_and flags flag == flag

-- The bytes of a path without `/` at its ends; a path that is not UTF-8 is the empty one.
pub trimmed : Bool → List ℕ → List ℕ
trimmed is_utf8 url = if is_utf8 then trim_back (trim_front url) else []

-- The last part of a path that is not empty.
pub last_part : List (List ℕ) → Option (List ℕ)
last_part [] = none
last_part ([] ∷ parts) = last_part parts
last_part ((c ∷ cs) ∷ parts) = elim (last_part parts) [
  | none ↦ some (c ∷ cs)
  | some part ↦ some part
]

pub last : List Found → Option Found
last [] = none
last (n ∷ nodes) = elim (last nodes) [ none ↦ some n | some m ↦ some m ]

-- The error of a check in place of the result of the walk.
abbrev pub refused : {A B : Type 0} → ℕ → Run A → Run B
refused e (ok a s) = err e s
refused e (err _ s) = err e s
refused e fault = fault
refused e loops = loops

abbrev pub unless {ℓ} : {A : Type ℓ} → Bool → ℕ → Fs A → Fs A
unless failing e m = if failing then fail e else m

-- The rights that an open with `flags` needs of a file.
pub lacks : (uid gid flags : ℕ) → Node → Bool
lacks uid gid flags n =
    (may_read flags && not (permission n uid gid 4))
    || (may_write flags && not (permission n uid gid 2))

-- A line behind those before it.
pub add_line : List ℕ → List ℕ → List ℕ
add_line [] name = name
add_line (b ∷ bytes) name = b ∷ bytes ++ (b'\n' ∷ name)

module _ (is_utf8 : List ℕ → Bool) (fuel : ℕ) where
  -- The listing of a directory.
  pub list_names : List ℕ → List Found → List ℕ
  list_names bytes [] = bytes
  list_names bytes ((_, child) ∷ children) =
      let name = name_of child.name in
      let bytes' = if is_utf8 name then add_line bytes name else bytes in list_names bytes' children

  -- `open` of a directory, and of a file, that exists.
  pub open_dir : (path : List ℕ) (flags uid gid : ℕ) → Found → Fs Resource
  open_dir path flags uid gid (b, n) =
      unless (not (has o_stat flags) && not (has o_directory flags)) eisdir (
        if bit_and flags o_accmode == o_rdonly
        then (unless (not (permission n uid gid 4)) eacces (
            child_nodes fuel [] b >>= λ children.
            pure (dir (new_dir path b (list_names [] children)))))
        else if has o_stat flags
        then pure (dir (new_dir path b []))
        else fail eacces)

  unfoldable pub open_file : (path : List ℕ) (flags uid gid : ℕ) → Found → Fs Resource
  open_file path flags uid gid (b, n) = unless (has o_directory flags) enotdir (
      unless (lacks uid gid flags n) eacces (
        (if has o_trunc flags
          then (unless (not (permission n uid gid 2)) eacces (node_set_len fuel b 0))
          else pure tt)
        >> pure (file (new_file path b flags))))

  pub open_node : (path : List ℕ) (flags uid gid : ℕ) → Found → Fs Resource
  open_node path flags uid gid (b, n) =
      unless (has (bit_or o_creat o_excl) flags) eexist (
        if is_dir n
        then open_dir path flags uid gid (b, n)
        else open_file path flags uid gid (b, n))

  -- `open` that makes the last part of the path in the last of the nodes.
  pub create_part : (path : List ℕ) (flags uid gid : ℕ) → Found → List ℕ → Fs Resource
  create_part path flags uid gid (p, parent) part =
      unless (not (permission parent uid gid 2)) eacces (
        create_node fuel
          (bit_or (if has o_directory flags then mode_dir else mode_file)
            (bit_and (flags % 2 ^ 16) mode_perm))
          part p
        >>= λ (b, n).
            let n' = record n { uid = uid; gid = gid } in
            write_at b n'
            >> unless (lacks uid gid flags n') eacces (
                pure (
                  if has o_directory flags
                  then dir (new_dir path b [])
                  else file (new_file path b flags))))

  pub create_in : (path : List ℕ) (flags uid gid : ℕ) → List Found → Fs Resource
  create_in path flags uid gid nodes = elim (last_part (split b'/' path)) [
    | none ↦ fail eperm
    | some part ↦ elim (last nodes) [
      | none ↦ fail eperm
      | some parent ↦ create_part path flags uid gid parent part
    ]
  ]

  -- The result of the walk in `open`.
  pub open_walked : (path : List ℕ) (flags uid gid : ℕ) → List Found → Run Found → Run Resource
  open_walked path flags uid gid nodes (ok n s) = open_node path flags uid gid n s
  open_walked path flags uid gid nodes (err e s) =
      if e == enoent && has o_creat flags then create_in path flags uid gid nodes s else err e s
  open_walked path flags uid gid nodes fault = fault
  open_walked path flags uid gid nodes loops = loops

  -- `open`, up to the table of resources.
  pub open_resource : (url : List ℕ) (flags uid gid : ℕ) → Fs Resource
  open_resource url flags uid gid s =
      let path = trimmed (is_utf8 url) url in
      let (nodes, r) = path_nodes fuel path s in
      elim (check_nodes uid gid nodes) [
        | none ↦ open_walked path flags uid gid nodes r
        | some e ↦ refused e r
      ]

  -- The walk and the checks of `chmod`, and of `rmdir` and `unlink`, which look at its error first.
  pub checked : (path : List ℕ) (uid gid : ℕ) → Fs (Found)
  checked path uid gid s =
      let (nodes, r) = path_nodes fuel path s in
      elim (check_nodes uid gid nodes) [ none ↦ r | some e ↦ refused e r ]

  -- `chmod`
  unfoldable pub chmod : (url : List ℕ) (mode uid gid : ℕ) → Fs ℕ
  chmod url mode uid gid = checked (trimmed (is_utf8 url) url) uid gid >>= λ (b, n).
      if n.uid == uid || uid == 0
      then (write_at b (record n { mode = bit_or (bit_and n.mode 0xF000) (bit_and mode mode_perm) })
          >> pure 0)
      else fail eperm

  -- What `rmdir` and `unlink` do with a child and the nodes before it.
  pub remove_child : (is_rmdir : Bool) (uid gid : ℕ) → Found → Option Found → Fs ℕ
  remove_child is_rmdir uid gid child none = fail eperm
  remove_child is_rmdir uid gid (b, n) (some (p, parent)) =
      unless (not (permission parent uid gid 2)) eacces (
        if (if is_rmdir then is_dir n else not (is_dir n))
        then (unless (not (permission n uid gid 2)) eacces (
            if is_utf8 (name_of n.name)
            then (remove_node fuel (if is_rmdir then mode_dir else mode_file) (name_of n.name) p
                >> pure 0)
            else fail enoent))
        else fail (if is_rmdir then enotdir else eisdir))

  abbrev pub remove_walked : (is_rmdir : Bool) (uid gid : ℕ) → List Found → Run Found → Run ℕ
  remove_walked is_rmdir uid gid nodes (ok child s) = elim (check_nodes uid gid nodes) [
    | none ↦ remove_child is_rmdir uid gid child (last nodes) s
    | some e ↦ err e s
  ]
  remove_walked is_rmdir uid gid nodes (err e s) = err e s
  remove_walked is_rmdir uid gid nodes fault = fault
  remove_walked is_rmdir uid gid nodes loops = loops

  abbrev remove_at : (is_rmdir : Bool) (url : List ℕ) (uid gid : ℕ) → Fs ℕ
  remove_at is_rmdir url uid gid s =
      let (nodes, r) = path_nodes fuel (trimmed (is_utf8 url) url) s in
      remove_walked is_rmdir uid gid nodes r

  -- `rmdir`
  unfoldable pub rmdir : (url : List ℕ) (uid gid : ℕ) → Fs ℕ
  rmdir = remove_at true

  -- `unlink`
  unfoldable pub unlink : (url : List ℕ) (uid gid : ℕ) → Fs ℕ
  unlink = remove_at false
