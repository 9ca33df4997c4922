-- ===== src/RedoxFs/Scheme/Table.antt =====
-- schemes/redoxfs/scheme/scheme.rs: the table of the open resources, and the calls on them. The calls
-- that a resource makes of the file system are the interface of the resources. A call of the walk
-- that returns no result has no result here either.
mod Tests
use origel.Base.{take, ℕ, ◌+◌, ◌/◌, ◌%◌, ◌^◌, Bool, Option, none, some, List, [], ◌∷◌, ◌++◌}
use origel.Base.Map.{Map, lookup, insert, remove}
use origel.Syscall.Error.{Result, ok, err, ebadf}
use origel.RedoxFs.Node.{Node}
use origel.RedoxFs.FileSystem.{FileSystem, Run}
use origel.RedoxFs.Resource.{
  NodeCalls, read_dir, seek_dir, dup_file, fcntl_file, read_file, write_file, seek_file,
  truncate_file,
}
use origel.RedoxFs.Scheme.{Resource, dir, file, open_resource, chmod, rmdir, unlink}

-- `FileScheme`
pub record FileScheme : Type 0 where
  pub name : List ℕ
  pub fs : FileSystem
  pub next_id : ℕ
  pub files : Map Resource

-- `FileScheme::new`
pub new_scheme : List ℕ → FileSystem → FileScheme
new_scheme name fs = record { name = name; fs = fs; next_id = 1; files = [] }

-- What a call returns, and the scheme as it leaves it.
abbrev pub Called : Type 0 → Type 0
Called A = Result A × FileScheme

-- A resource takes its place in the table.
pub keep : Resource → FileScheme → Called ℕ
keep r s = (
  ok s.next_id,
  record s { next_id = (s.next_id + 1) % 2 ^ 64; files = insert s.next_id r s.files },
)

abbrev pub opened : FileScheme → Run Resource → Option (Called ℕ)
opened s (Run.ok r fs) = some (keep r (record s { fs = fs }))
opened s (Run.err e fs) = some (err e, record s { fs = fs })
opened s Run.fault = none
opened s Run.loops = none

abbrev pub changed : FileScheme → Run ℕ → Option (Called ℕ)
changed s (Run.ok n fs) = some (ok n, record s { fs = fs })
changed s (Run.err e fs) = some (err e, record s { fs = fs })
changed s Run.fault = none
changed s Run.loops = none

module _ (is_utf8 : List ℕ → Bool) (fuel : ℕ) where
  -- The calls on paths.
  pub open_call : (url : List ℕ) (flags uid gid : ℕ) → FileScheme → Option (Called ℕ)
  open_call url flags uid gid s = opened s (open_resource is_utf8 fuel url flags uid gid s.fs)

  pub chmod_call : (url : List ℕ) (mode uid gid : ℕ) → FileScheme → Option (Called ℕ)
  chmod_call url mode uid gid s = changed s (chmod is_utf8 fuel url mode uid gid s.fs)

  pub rmdir_call : (url : List ℕ) (uid gid : ℕ) → FileScheme → Option (Called ℕ)
  rmdir_call url uid gid s = changed s (rmdir is_utf8 fuel url uid gid s.fs)

  pub unlink_call : (url : List ℕ) (uid gid : ℕ) → FileScheme → Option (Called ℕ)
  unlink_call url uid gid s = changed s (unlink is_utf8 fuel url uid gid s.fs)

-- A call on the resource `id`.
abbrev pub on_resource :
    {A : Type 0} → ℕ → (Resource → FileScheme → Called A) → FileScheme → Called A
on_resource id call s = elim (lookup id s.files) [ none ↦ (err ebadf, s) | some r ↦ call r s ]

-- The resource `id` as a call leaves it.
abbrev pub place : ℕ → Resource → FileSystem → FileScheme → FileScheme
place id r fs s = record s { fs = fs; files = insert id r s.files }

abbrev pub duplicate : Resource → List ℕ → Result Resource
duplicate (dir d) buf = ok (dir d)
duplicate (file f) buf = elim (dup_file buf f) [ ok f' ↦ ok (file f') | err e ↦ err e ]

abbrev pub keep_duplicate : FileScheme → Result Resource → Called ℕ
keep_duplicate s (ok r) = keep r s
keep_duplicate s (err e) = (err e, s)

-- `dup`
pub dup_call : ℕ → List ℕ → FileScheme → Called ℕ
dup_call id buf = on_resource id (λ r s. keep_duplicate s (duplicate r buf))

module _ (calls : NodeCalls FileSystem) where
  abbrev pub read_resource : (id n : ℕ) → Resource → FileScheme → Called (List ℕ)
  read_resource id n (dir d) s =
      let (bytes, d') = read_dir n d in (ok bytes, place id (dir d') s.fs s)
  read_resource id n (file f) s =
      let (r, f', fs) = read_file calls n f s.fs in (r, place id (file f') fs s)

  -- `read` into a buffer of `n` bytes.
  pub read_call : (id n : ℕ) → FileScheme → Called (List ℕ)
  read_call id n = on_resource id (read_resource id n)

  abbrev pub write_resource : ℕ → List ℕ → Resource → FileScheme → Called ℕ
  write_resource id buf (dir d) s = (err ebadf, s)
  write_resource id buf (file f) s =
      let (r, f', fs) = write_file calls buf f s.fs in (r, place id (file f') fs s)

  -- `write`
  pub write_call : ℕ → List ℕ → FileScheme → Called ℕ
  write_call id buf = on_resource id (write_resource id buf)

  abbrev pub seek_resource : (id offset whence : ℕ) → Resource → FileScheme → Called ℕ
  seek_resource id offset whence (dir d) s =
      let (r, d') = seek_dir offset whence d in (r, place id (dir d') s.fs s)
  seek_resource id offset whence (file f) s =
      let (r, f', fs) = seek_file calls offset whence f s.fs in (r, place id (file f') fs s)

  -- `seek`
  pub seek_call : (id offset whence : ℕ) → FileScheme → Called ℕ
  seek_call id offset whence = on_resource id (seek_resource id offset whence)

  abbrev pub truncate_resource : ℕ → Resource → FileScheme → Called ℕ
  truncate_resource len (dir d) s = (err ebadf, s)
  truncate_resource len (file f) s =
      let (r, fs) = truncate_file calls len f s.fs in (r, record s { fs = fs })

  -- `ftruncate`
  pub ftruncate_call : (id len : ℕ) → FileScheme → Called ℕ
  ftruncate_call id len = on_resource id (truncate_resource len)

  abbrev pub sized : Node → Result ℕ → Result (ℕ × ℕ × ℕ × ℕ)
  sized n (ok len) = ok (n.mode, n.uid, n.gid, len)
  sized n (err e) = err e

  abbrev pub block_of : Resource → ℕ
  block_of (dir d) = d.block
  block_of (file f) = f.block

  -- `stat` of a resource: the mode, the user, the group and the size.
  pub stat_resource : Resource → FileSystem → Result (ℕ × ℕ × ℕ × ℕ) × FileSystem
  stat_resource r fs =
      let (n, fs') = calls.node (block_of r) fs in
      elim n [
        | err e ↦ (err e, fs')
        | ok n ↦ let (len, fs'') = calls.node_len (block_of r) fs' in (sized n len, fs'')
      ]

  -- `fstat`
  pub fstat_call : ℕ → FileScheme → Called (ℕ × ℕ × ℕ × ℕ)
  fstat_call id =
      on_resource id (λ r s. let (stat, fs) = stat_resource r s.fs in (stat, record s { fs = fs }))

  abbrev pub counted : ℕ → Result ℕ → Result (ℕ × ℕ × ℕ × ℕ)
  counted size (ok free) = ok (512, size / 512, free / 512, free / 512)
  counted size (err e) = err e

  -- `fstatvfs`: the size of a block, and the numbers of all, of free and of available blocks.
  pub fstatvfs_call : ℕ → FileScheme → Called (ℕ × ℕ × ℕ × ℕ)
  fstatvfs_call id = on_resource id (λ r s.
      let (free, fs) = calls.node_len s.fs.header.free s.fs in
      (counted s.fs.header.size free, record s { fs = fs }))

abbrev pub control_resource : (id cmd arg : ℕ) → Resource → FileScheme → Called ℕ
control_resource id cmd arg (dir d) s = (err ebadf, s)
control_resource id cmd arg (file f) s =
    let (r, f') = fcntl_file cmd arg f in (r, place id (file f') s.fs s)

-- `fcntl`
pub fcntl_call : (id cmd arg : ℕ) → FileScheme → Called ℕ
fcntl_call id cmd arg = on_resource id (control_resource id cmd arg)

abbrev pub path_of : Resource → List ℕ
path_of (dir d) = d.path
path_of (file f) = f.path

-- `fpath` into a buffer of `n` bytes: the name of the scheme, `:/` and the path, cut to the buffer.
pub fpath_call : (id n : ℕ) → FileScheme → Called (List ℕ)
fpath_call id n = on_resource id (λ r s. (ok (take n (s.name ++ (b':' ∷ b'/' ∷ path_of r))), s))

-- `sync` of a resource.
abbrev pub sync_resource : Resource → Result ℕ
sync_resource (dir d) = err ebadf
sync_resource (file f) = ok 0

-- `fsync`
pub fsync_call : ℕ → FileScheme → Called ℕ
fsync_call id = on_resource id (λ r s. (sync_resource r, s))

-- `close`
pub close_call : ℕ → FileScheme → Called ℕ
close_call id = on_resource id (λ r s. (ok 0, record s { files = remove id s.files }))
