-- ===== src/RedoxFs/Resource/Position.antt =====
-- schemes/redoxfs/scheme/resource.rs: the position of an open file.
use origel.Base.{length, ℕ, ◌^◌, ◌<◌, ◌≡◌, refl, ◌⊎◌, some, arith}
use origel.Syscall.Error.{ok}
use origel.Syscall.Flag.{seek_set, seek_cur, seek_end}
use origel.RedoxFs.Resource.{
  NodeCalls, DirResource, FileResource, new_position, seek_dir, seek_file,
}

-- `whence` is one of the three that there are.
abbrev pub IsWhence : ℕ → Type 0
IsWhence whence = (whence ≡ seek_set) ⊎ ((whence ≡ seek_cur) ⊎ (whence ≡ seek_end))

new_position-zero :
    (size position offset whence : ℕ)
    → size < 2 ^ 63
    → offset < 2 ^ 64
    → IsWhence whence
    → new_position size position offset whence ≡ some 0
unfolding new_position
new_position-zero size position offset whence h k w = ground arith

-- Whatever offset a caller seeks to, from the start, the position or the end: if the length of the file
-- is known and below 2^63, as is that of the directory's bytes, a `seek` in it succeeds with 0, and the
-- position is the start again, since the code takes `min(0, max(size, offset))`.
pub seek_lem {ℓ} :
    {F : Type ℓ} (fs : NodeCalls F) (offset whence size : ℕ) (f : FileResource) (d : DirResource)
    (s s' : F)
    → offset < 2 ^ 64
    → IsWhence whence
    → size < 2 ^ 63
    → length d.data_bytes < 2 ^ 63
    → fs.node_len f.block s ≡ (ok size, s')
    → (seek_file fs offset whence f s ≡ (ok 0, record f { position = 0 }, s'))
      × (seek_dir offset whence d ≡ (ok 0, record d { position = 0 }))
unfolding seek_file seek_dir
seek_lem fs offset whence size f d s s' o w h k e =
    let at_start = new_position-zero size f.position offset whence h o w in
    let at_start' = new_position-zero (length d.data_bytes) d.position offset whence k o w in
    (rw (seek_file, e, at_start) refl, rw (seek_dir, at_start') refl)
