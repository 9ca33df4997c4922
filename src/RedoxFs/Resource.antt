-- ===== src/RedoxFs/Resource.antt =====
-- schemes/redoxfs/scheme/resource.rs: the open directories and files of the file system. The calls that
-- they make of it are an interface here; `path` copies a slice of bytes, and `sync` returns a constant.
pub mod Position
mod Tests
use origel.Base.{
  ltb, ◌==◌, if◌then◌else◌, length, take, drop, eq_bytes, ℕ, ◌+◌, ◌-◌, ◌%◌, ◌^◌, bit_and, Bool,
  ◌&&◌, ◌||◌, Option, none, some, List, [], ◌∷◌,
}
use origel.Syscall.Error.{Result, ok, err, ebadf, einval}
use origel.Syscall.Flag.{
  o_accmode, o_cloexec, o_rdonly, o_wronly, o_rdwr, f_getfl, f_setfl, seek_set, seek_cur, seek_end,
}
use origel.RedoxFs.Node.{Node}

-- The calls of `FileSystem` on the node at a block; `read_node` gives the bytes that it stores.
pub record NodeCalls {ℓ} (F : Type ℓ) : Type ℓ where
  pub node : ℕ → F → Result Node × F
  pub node_len : ℕ → F → Result ℕ × F
  pub node_set_len : (block length : ℕ) → F → Result (Unit {0}) × F
  pub read_node : (block offset n : ℕ) → F → Result (List ℕ) × F
  pub write_node : (block offset : ℕ) → List ℕ → F → Result ℕ × F

-- `DirResource`
pub record DirResource : Type 0 where
  pub path : List ℕ
  pub block : ℕ
  pub data_bytes : List ℕ
  pub position : ℕ

-- `FileResource`
pub record FileResource : Type 0 where
  pub path : List ℕ
  pub block : ℕ
  pub flags : ℕ
  pub position : ℕ

-- `DirResource::new` and `FileResource::new`
unfoldable pub new_dir : List ℕ → ℕ → List ℕ → DirResource
new_dir path block bytes = record { path = path; block = block; data_bytes = bytes; position = 0 }

unfoldable pub new_file : List ℕ → (block flags : ℕ) → FileResource
new_file path block flags = record { path = path; block = block; flags = flags; position = 0 }

-- `max` and `min` of two words as signed numbers.
abbrev pub less_signed : ℕ → ℕ → Bool
less_signed a b = ltb ((a + 2 ^ 63) % 2 ^ 64) ((b + 2 ^ 63) % 2 ^ 64)

abbrev pub max_signed : ℕ → ℕ → ℕ
max_signed a b = if less_signed b a then a else b

abbrev pub min_signed : ℕ → ℕ → ℕ
min_signed a b = if less_signed b a then b else a

-- The new position for `size` bytes; `none` is `EINVAL`.
pub new_position : (size position offset whence : ℕ) → Option ℕ
new_position size position offset whence =
    if whence == seek_set
    then some (min_signed 0 (max_signed size offset))
    else if whence == seek_cur
    then some (min_signed 0 (max_signed size ((position + offset) % 2 ^ 64)))
    else if whence == seek_end
    then some (min_signed 0 (max_signed size ((size + offset) % 2 ^ 64)))
    else none

-- `DirResource::read` into a buffer of `n` bytes.
unfoldable pub read_dir : ℕ → DirResource → List ℕ × DirResource
read_dir n d =
    let bytes = take n (drop d.position d.data_bytes) in
    (bytes, record d { position = d.position + length bytes })

-- `DirResource::seek`
pub seek_dir : (offset whence : ℕ) → DirResource → Result ℕ × DirResource
unfolding new_position
seek_dir offset whence d = elim (new_position (length d.data_bytes) d.position offset whence) [
  | none ↦ (err einval, d)
  | some p ↦ (ok p, record d { position = p })
]

-- The mode that a file was opened in lets it be read, or written.
abbrev pub may_read : ℕ → Bool
may_read flags = bit_and flags o_accmode == o_rdwr || bit_and flags o_accmode == o_rdonly

abbrev pub may_write : ℕ → Bool
may_write flags = bit_and flags o_accmode == o_rdwr || bit_and flags o_accmode == o_wronly

-- `FileResource::dup`
unfoldable pub dup_file : List ℕ → FileResource → Result FileResource
dup_file buf f =
    if eq_bytes buf (b'e' ∷ b'x' ∷ b'e' ∷ b'c' ∷ []) && bit_and f.flags o_cloexec == o_cloexec
    then err ebadf
    else ok f

-- `FileResource::fcntl`
pub fcntl_file : (cmd arg : ℕ) → FileResource → Result ℕ × FileResource
fcntl_file cmd arg f =
    if cmd == f_getfl
    then (ok f.flags, f)
    else if cmd == f_setfl
    then (ok 0, record f { flags = bit_and arg (2 ^ 64 - 1 - o_accmode) })
    else (err einval, f)

-- The new position behind the bytes of a call.
abbrev pub moved : {A : Type 0} → (A → ℕ) → FileResource → Result A → FileResource
moved count f (err e) = f
moved count f (ok a) = record f { position = (f.position + count a) % 2 ^ 64 }

abbrev pub placed_at : FileResource → Result ℕ → Result ℕ × FileResource
placed_at f (err e) = (err e, f)
placed_at f (ok p) = (ok p, record f { position = p })

abbrev pub or_invalid : Option ℕ → Result ℕ
or_invalid none = err einval
or_invalid (some p) = ok p

module _ {ℓ} {F : Type ℓ} (fs : NodeCalls F) where
  -- `FileResource::read`
  unfoldable pub read_file : ℕ → FileResource → F → Result (List ℕ) × FileResource × F
  read_file n f s =
      let (r, s') = fs.read_node f.block f.position n s in
      if may_read f.flags then (r, moved length f r, s') else (err ebadf, f, s)

  -- `FileResource::write`
  unfoldable pub write_file : List ℕ → FileResource → F → Result ℕ × FileResource × F
  write_file buf f s =
      let (r, s') = fs.write_node f.block f.position buf s in
      if may_write f.flags then (r, moved (λ n. n) f r, s') else (err ebadf, f, s)

  abbrev pub position_for : (offset whence : ℕ) → FileResource → Result ℕ → Result ℕ
  position_for offset whence f (err e) = err e
  position_for offset whence f (ok size) = or_invalid (new_position size f.position offset whence)

  -- `FileResource::seek`
  pub seek_file : (offset whence : ℕ) → FileResource → F → Result ℕ × FileResource × F
  unfolding new_position
  seek_file offset whence f s =
      let (size, s') = fs.node_len f.block s in
      let (r, f') = placed_at f (position_for offset whence f size) in (r, f', s')

  -- `FileResource::truncate`
  unfoldable pub truncate_file : ℕ → FileResource → F → Result ℕ × F
  truncate_file len f s =
      let (r, s') = fs.node_set_len f.block len s in
      if may_write f.flags then (elim r [ err e ↦ err e | ok _ ↦ ok 0 ], s') else (err ebadf, s)
