-- ===== src/Syscall/Scheme.antt =====
-- syscall/src/scheme.rs and data.rs: how a packet becomes a call of a scheme, and its result the answer.
-- The slices and structures that a packet points to stay addresses with their lengths.
pub mod Answer
mod Tests
use origel.Base.{leb, ◌==◌, if◌then◌else◌, length, ℕ, ◌%◌, ◌^◌}
use origel.Syscall.Error.{Result, ok, err, mux, enoent, ebadf, efault, enosys}
use origel.Syscall.Number.{
  sys_open, sys_chmod, sys_rmdir, sys_unlink, sys_close, sys_dup, sys_read, sys_write, sys_lseek,
  sys_fcntl, sys_fevent, sys_fmap, sys_fpath, sys_fstat, sys_fstatvfs, sys_fsync, sys_ftruncate,
}

pub record Packet : Type 0 where
  pub id : ℕ
  pub pid : ℕ
  pub uid : ℕ
  pub gid : ℕ
  pub a : ℕ
  pub b : ℕ
  pub c : ℕ
  pub d : ℕ

-- `size_of` of the packed `Stat` and `StatVfs`.
abbrev pub stat_size : ℕ
stat_size = 86

abbrev pub stat_vfs_size : ℕ
stat_vfs_size = 28

-- The calls of `Scheme`, with their arguments in the order of the source; a slice is two arguments.
pub data Call : Type 0 where
  open_path : (address length flags uid gid : ℕ) → Call
  chmod : (address length mode uid gid : ℕ) → Call
  rmdir unlink : (address length uid gid : ℕ) → Call
  dup read write : (id address length : ℕ) → Call
  seek : (id pos whence : ℕ) → Call
  fcntl : (id cmd arg : ℕ) → Call
  fevent : (id flags : ℕ) → Call
  fmap : (id offset size : ℕ) → Call
  fpath : (id address length : ℕ) → Call
  fstat fstatvfs : (id address : ℕ) → Call
  fsync : (id : ℕ) → Call
  ftruncate : (id len : ℕ) → Call
  close : (id : ℕ) → Call

-- The arms of `Scheme::handle` for an open file.
unfoldable pub decode_file : Packet → Result Call
decode_file p =
    if p.a == sys_dup
    then ok (dup p.b p.c p.d)
    else if p.a == sys_read
    then ok (read p.b p.c p.d)
    else if p.a == sys_write
    then ok (write p.b p.c p.d)
    else if p.a == sys_lseek
    then ok (seek p.b p.c p.d)
    else if p.a == sys_fcntl
    then ok (fcntl p.b p.c p.d)
    else if p.a == sys_fevent
    then ok (fevent p.b p.c)
    else if p.a == sys_fmap
    then ok (fmap p.b p.c p.d)
    else if p.a == sys_fpath
    then ok (fpath p.b p.c p.d)
    else if p.a == sys_fstat
    then if leb stat_size p.d then ok (fstat p.b p.c) else err efault
    else if p.a == sys_fstatvfs
    then if leb stat_vfs_size p.d then ok (fstatvfs p.b p.c) else err efault
    else if p.a == sys_fsync
    then ok (fsync p.b)
    else if p.a == sys_ftruncate
    then ok (ftruncate p.b p.c)
    else if p.a == sys_close
    then ok (close p.b)
    else err enosys

-- All arms; `packet.d as u16` keeps 16 bits.
unfoldable pub decode : Packet → Result Call
unfolding decode_file
decode p =
    if p.a == sys_open
    then ok (open_path p.b p.c p.d p.uid p.gid)
    else if p.a == sys_chmod
    then ok (chmod p.b p.c (p.d % 2 ^ 16) p.uid p.gid)
    else if p.a == sys_rmdir
    then ok (rmdir p.b p.c p.uid p.gid)
    else if p.a == sys_unlink
    then ok (unlink p.b p.c p.uid p.gid)
    else decode_file p

-- `handle`, for a scheme with the calls `scheme` on its state.
unfoldable pub handle {ℓ} : {S : Type ℓ} → (Call → S → Result ℕ × S) → Packet → S → Packet × S
handle scheme p s = elim (decode p) [
  | err e ↦ (record p { a = mux (err e) }, s)
  | ok call ↦ (record p { a = mux (scheme call s).0 }, (scheme call s).1)
]

-- The calls that a scheme does not define.
unfoldable pub default_call : Call → Result ℕ
default_call (open_path address length flags uid gid) = err enoent
default_call (chmod address length mode uid gid) = err enoent
default_call (rmdir address length uid gid) = err enoent
default_call (unlink address length uid gid) = err enoent
default_call _ = err ebadf
