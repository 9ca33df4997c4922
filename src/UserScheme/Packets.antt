-- ===== src/UserScheme/Packets.antt =====
-- kernel/scheme/user.rs and syscall/src/scheme.rs: what a scheme reads is what its caller asked for.
use origel.Base.{length, ℕ, ◌^◌, ◌<◌, ◌≡◌, refl, ap, arith}
use origel.Syscall.Error.{ok}
use origel.Syscall.Scheme.{
  Call, decode, decode_file, open_path, chmod, rmdir, unlink, dup, read, write, seek, fcntl, fevent,
  fmap, fpath, fstat, fstatvfs, fsync, ftruncate, close,
}
use origel.UserScheme.{request_of, packet_of}

-- The same call for a caller with a user and a group, with its buffer at another address.
abbrev pub relocated : (uid gid to : ℕ) → Call → Call
relocated uid gid to (open_path address length flags _ _) = open_path to length flags uid gid
relocated uid gid to (chmod address length mode _ _) = chmod to length mode uid gid
relocated uid gid to (rmdir address length _ _) = rmdir to length uid gid
relocated uid gid to (unlink address length _ _) = unlink to length uid gid
relocated uid gid to (dup id address length) = dup id to length
relocated uid gid to (read id address length) = read id to length
relocated uid gid to (write id address length) = write id to length
relocated uid gid to (fpath id address length) = fpath id to length
relocated uid gid to (fstat id address) = fstat id to
relocated uid gid to (fstatvfs id address) = fstatvfs id to
relocated uid gid to (seek id pos whence) = seek id pos whence
relocated uid gid to (fcntl id cmd arg) = fcntl id cmd arg
relocated uid gid to (fevent id flags) = fevent id flags
relocated uid gid to (fmap id offset size) = fmap id offset size
relocated uid gid to (fsync id) = fsync id
relocated uid gid to (ftruncate id len) = ftruncate id len
relocated uid gid to (close id) = close id

-- The mode of `chmod` is a `u16`.
abbrev pub IsCall : Call → Type 0
IsCall (chmod address length mode _ _) = mode < 2 ^ 16
IsCall _ = Unit

-- Whatever call a scheme gets in another context, the packet that the kernel makes of it decodes there,
-- by `handle`, to the same call: for the calling context's effective user and group, and with the
-- buffer at the address where it was captured.
pub decode-packet_of :
    (id pid uid gid to : ℕ) (call : Call)
    → IsCall call
    → decode (packet_of id pid uid gid (request_of call to)) ≡ ok (relocated uid gid to call)
unfolding decode decode_file request_of
decode-packet_of id pid uid gid to (open_path address length flags _ _) h = refl
decode-packet_of id pid uid gid to (chmod address length mode _ _) h =
    ap (λ m. ok (chmod to length m uid gid)) (omega arith)
decode-packet_of id pid uid gid to (rmdir address length _ _) h = refl
decode-packet_of id pid uid gid to (unlink address length _ _) h = refl
decode-packet_of id pid uid gid to (dup _ address length) h = refl
decode-packet_of id pid uid gid to (read _ address length) h = refl
decode-packet_of id pid uid gid to (write _ address length) h = refl
decode-packet_of id pid uid gid to (fpath _ address length) h = refl
decode-packet_of id pid uid gid to (fstat _ address) h = refl
decode-packet_of id pid uid gid to (fstatvfs _ address) h = refl
decode-packet_of id pid uid gid to (seek _ pos whence) h = refl
decode-packet_of id pid uid gid to (fcntl _ cmd arg) h = refl
decode-packet_of id pid uid gid to (fevent _ flags) h = refl
decode-packet_of id pid uid gid to (fmap _ offset size) h = refl
decode-packet_of id pid uid gid to (fsync _) h = refl
decode-packet_of id pid uid gid to (ftruncate _ len) h = refl
decode-packet_of id pid uid gid to (close _) h = refl
