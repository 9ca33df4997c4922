-- ===== src/Env.antt =====
-- kernel/scheme/env.rs: the variables of a context as files. A variable's bytes are a vector that
-- handles and contexts share by reference: the vectors stand in a table. The variables of the
-- context that opens a path are part of the state, in the order of their names. Whether a path is
-- UTF-8 (`str::from_utf8`) is an argument.
pub mod Bytes
pub mod Position
mod Tests
use origel.Base.{
  ltb, ◌==◌, if◌then◌else◌, length, get_elem?, set, take, replicate, eq_bytes, ℕ, zero, suc, ◌+◌,
  ◌-◌, ◌%◌, ◌^◌, min, Bool, true, false, Option, none, some, List, [], ◌∷◌, ◌++◌,
}
use origel.Base.Text.{trim_front, trim_back}
use origel.Base.Map.{Map, lookup, insert, remove}
use origel.Syscall.Error.{Result, ok, err, ebadf, enoent, einval}
use origel.Syscall.Flag.{seek_set, seek_cur, seek_end, mode_file}

pub record Handle : Type 0 where
  pub contents : ℕ
  pub mode : ℕ
  pub seek : ℕ

pub record EnvScheme : Type 0 where
  pub next_id : ℕ
  pub handles : Map Handle
  pub vectors : Map (List ℕ)
  pub next_vector : ℕ
  pub variables : List (List ℕ × ℕ)

abbrev pub or_nil : Option (List ℕ) → List ℕ
or_nil none = []
or_nil (some bytes) = bytes

abbrev pub vector : ℕ → EnvScheme → List ℕ
vector v s = or_nil (lookup v s.vectors)

-- The order of names in a `BTreeMap`.
name_before : List ℕ → List ℕ → Bool
name_before [] [] = false
name_before [] (y ∷ ys) = true
name_before (x ∷ xs) [] = false
name_before (x ∷ xs) (y ∷ ys) = let rest = name_before xs ys in if x == y then rest else ltb x y

insert_variable : List ℕ → ℕ → List (List ℕ × ℕ) → List (List ℕ × ℕ)
unfolding name_before
insert_variable name v [] = (name, v) ∷ []
insert_variable name v ((n, w) ∷ vs) =
    let rest = insert_variable name v vs in
    if name_before name n then (name, v) ∷ (n, w) ∷ vs else (n, w) ∷ rest

find_variable : List ℕ → List (List ℕ × ℕ) → Option ℕ
find_variable name [] = none
find_variable name ((n, v) ∷ vs) =
    let rest = find_variable name vs in if eq_bytes name n then some v else rest

-- The listing of all variables, behind what is listed so far.
list_variables : EnvScheme → List ℕ → List (List ℕ × ℕ) → List ℕ
list_variables s list [] = list
list_variables s list ((n, v) ∷ vs) =
    list_variables s
      ((if length list == 0 then list else list ++ (b'\n' ∷ [])) ++ (n ++ (b'=' ∷ vector v s))) vs

-- A new handle on a vector.
abbrev new_handle : ℕ → EnvScheme → Result ℕ × EnvScheme
new_handle v s = (
  ok s.next_id,
  record s {
    next_id = s.next_id + 1;
    handles = insert s.next_id (record { contents = v; mode = mode_file; seek = 0 }) s.handles;
  },
)

abbrev new_vector : List ℕ → EnvScheme → EnvScheme
new_vector bytes s = record s {
  vectors = insert s.next_vector bytes s.vectors;
  next_vector = s.next_vector + 1;
}

abbrev open_path : List ℕ → EnvScheme → Result ℕ × EnvScheme
unfolding insert_variable find_variable list_variables
open_path path s =
    if length path == 0
    then new_handle s.next_vector (new_vector (list_variables s [] s.variables) s)
    else elim (find_variable path s.variables) [
      | some v ↦ new_handle v s
      | none ↦
          new_handle s.next_vector (record (new_vector [] s) {
            variables = insert_variable path s.next_vector s.variables;
          })
    ]

-- `EnvScheme::open`
pub open_env : Bool → List ℕ → EnvScheme → Result ℕ × EnvScheme
unfolding open_path trim_front trim_back
open_env is_utf8 path s =
    if is_utf8 then open_path (trim_back (trim_front path)) s else (err enoent, s)

-- A call on an open handle.
abbrev pub with_handle {ℓ} :
    {A : Type ℓ} → ℕ → EnvScheme → (Handle → Result A × EnvScheme) → Result A × EnvScheme
with_handle id s f = elim (lookup id s.handles) [ none ↦ (err ebadf, s) | some h ↦ f h ]

abbrev pub put_handle : ℕ → Handle → EnvScheme → EnvScheme
put_handle id h s = record s { handles = insert id h s.handles }

-- `EnvScheme::dup`
pub dup_env : ℕ → EnvScheme → Result ℕ × EnvScheme
dup_env id s =
    with_handle id s
      (λ h. (ok s.next_id, record (put_handle s.next_id h s) { next_id = s.next_id + 1 }))

-- The loop of `read` from the position `seek` on.
pub get_bytes : ℕ → ℕ → List ℕ → List ℕ
get_bytes zero seek bytes = []
get_bytes (suc n) seek bytes = elim (get_elem? bytes seek) [
  | none ↦ []
  | some b ↦ b ∷ get_bytes n (seek + 1) bytes
]

-- `EnvScheme::read` into a buffer of `n` bytes: the bytes that it stores.
pub read_env : ℕ → ℕ → EnvScheme → Result (List ℕ) × EnvScheme
unfolding get_bytes
read_env id n s = with_handle id s (λ h.
    let got = get_bytes n h.seek (vector h.contents s) in
    (ok got, put_handle id (record h { seek = h.seek + length got }) s))

-- The two loops of `write`: within the vector a byte is overwritten, behind its end one is added.
pub put_bytes : ℕ → List ℕ → List ℕ → List ℕ
put_bytes seek [] bytes = bytes
put_bytes seek (b ∷ buffer) bytes =
    if ltb seek (length bytes)
    then put_bytes (seek + 1) buffer (set bytes seek b)
    else put_bytes (seek + 1) buffer (bytes ++ (b ∷ []))

-- `EnvScheme::write`
pub write_env : ℕ → List ℕ → EnvScheme → Result ℕ × EnvScheme
unfolding put_bytes
write_env id buffer s = with_handle id s (λ h. (
  ok (length buffer),
  record (put_handle id (record h { seek = h.seek + length buffer }) s) {
    vectors = insert h.contents (put_bytes h.seek buffer (vector h.contents s)) s.vectors;
  },
))

-- `max(0, min(len, base + pos))` on `isize`.
abbrev pub signed_seek : ℕ → ℕ → ℕ → ℕ
signed_seek len base pos =
    let sum = (base + pos) % 2 ^ 64 in if ltb sum (2 ^ 63) then min len sum else 0

-- The new position for a vector of `len` bytes.
pub new_seek : ℕ → ℕ → ℕ → ℕ → Option ℕ
new_seek len seek pos whence =
    if whence == seek_set
    then some (min len pos)
    else if whence == seek_cur
    then some (signed_seek len seek pos)
    else if whence == seek_end
    then some (signed_seek len len pos)
    else none

-- `EnvScheme::seek`
pub seek_env : ℕ → ℕ → ℕ → EnvScheme → Result ℕ × EnvScheme
unfolding new_seek
seek_env id pos whence s = with_handle id s (λ h.
    elim (new_seek (length (vector h.contents s)) h.seek pos whence) [
      | none ↦ (err einval, s)
      | some seek ↦ (ok seek, put_handle id (record h { seek = seek }) s)
    ])

-- `EnvScheme::fstat`: the mode and the size that it stores.
pub fstat_env : ℕ → EnvScheme → Result (ℕ × ℕ) × EnvScheme
fstat_env id s = with_handle id s (λ h. (ok (h.mode, length (vector h.contents s)), s))

-- `EnvScheme::fsync`
pub fsync_env : ℕ → EnvScheme → Result ℕ × EnvScheme
fsync_env id s = with_handle id s (λ h. (ok 0, s))

-- `EnvScheme::ftruncate`
pub ftruncate_env : ℕ → ℕ → EnvScheme → Result ℕ × EnvScheme
ftruncate_env id len s = with_handle id s (λ h.
    let bytes = vector h.contents s in
    (
      ok 0,
      record s {
        vectors =
            insert h.contents
              (if ltb len (length bytes)
                then take len bytes
                else bytes ++ replicate (len - length bytes) 0)
              s.vectors;
      },
    ))

-- `EnvScheme::close`
pub close_env : ℕ → EnvScheme → Result ℕ × EnvScheme
close_env id s = with_handle id s (λ h. (ok 0, record s { handles = remove id s.handles }))
