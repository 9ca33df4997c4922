-- ===== src/Context.antt =====
-- kernel/context/context.rs and kernel/context/file.rs: a context (process or thread), its
-- scheduling status, its working directory and its table of open files. The fields that only the
-- architecture, the memory and the loader use are left out, and so are the locks around the rest.
pub mod Directory
pub mod Table
pub mod Machine
mod Tests
use origel.Base.{
  ltb, ◌==◌, if◌then◌else◌, length, get_elem?, set, take, drop, eq_bytes, ℕ, suc, ◌+◌, ◌-◌, Bool,
  true, false, ◌&&◌, ◌||◌, Option, none, some, List, [], ◌∷◌, ◌++◌,
}

-- `Status`
pub data Status : Type 0 where
  runnable blocked : Status
  exited : ℕ → Status

-- `File`
pub record File : Type 0 where
  pub scheme : ℕ
  pub number : ℕ
  pub event : Option ℕ

pub record Context : Type 0 where
  pub id : ℕ
  pub ppid : ℕ
  pub ruid : ℕ
  pub rgid : ℕ
  pub rns : ℕ
  pub euid : ℕ
  pub egid : ℕ
  pub ens : ℕ
  pub status : Status
  pub cpu_id : Option ℕ
  pub vfork : Bool
  pub cwd : List ℕ
  pub files : List (Option File)

-- `Context::new`
unfoldable pub new_context : ℕ → Context
new_context id = record {
  id = id;
  ppid = 0;
  ruid = 0;
  rgid = 0;
  rns = 0;
  euid = 0;
  egid = 0;
  ens = 0;
  status = blocked;
  cpu_id = none;
  vfork = false;
  cwd = [];
  files = [];
}

-- `position` and `rposition` of an iterator over bytes.
unfoldable pub position : (ℕ → Bool) → List ℕ → Option ℕ
position p [] = none
position p (x ∷ xs) =
    let rest = position p xs in
    if p x then some 0 else elim rest [ none ↦ none | some i ↦ some (suc i) ]

pub rposition : (ℕ → Bool) → List ℕ → Option ℕ
rposition p [] = none
rposition p (x ∷ xs) = elim (rposition p xs) [
  | some i ↦ some (suc i)
  | none ↦ if p x then some 0 else none
]

abbrev pub is_colon : ℕ → Bool
is_colon b = b == b':'

abbrev pub is_separator : ℕ → Bool
is_separator b = b == b'/' || b == b':'

-- `bytes.starts_with(prefix)`
pub starts_with : List ℕ → List ℕ → Bool
starts_with xs [] = true
starts_with [] (y ∷ ys) = false
starts_with (x ∷ xs) (y ∷ ys) = x == y && starts_with xs ys

-- `bytes.ends_with(b"/")`
pub ends_with_slash : List ℕ → Bool
ends_with_slash [] = false
ends_with_slash (x ∷ []) = x == b'/'
ends_with_slash (x ∷ y ∷ xs) = ends_with_slash (y ∷ xs)

-- The slice that `..` keeps of the working directory. `none` is the panic on the empty one, where
-- `cwd.len() - 1` is out of range.
pub parent : List ℕ → Option (List ℕ)
parent [] = none
parent (x ∷ xs) =
    let cwd = x ∷ xs in
    some (elim (rposition is_separator (take (length cwd - 1) cwd)) [
      | none ↦ take (length cwd) cwd
      | some i ↦ take (i + 1) cwd
    ])

-- The slice that a path with a leading `/` keeps. `none` is the panic of `cwd[..1]` on the empty one.
pub scheme_part : List ℕ → Option (List ℕ)
scheme_part cwd = elim (position is_colon cwd) [
  | some i ↦ some (take (i + 1) cwd)
  | none ↦ if length cwd == 0 then none else some (take 1 cwd)
]

-- `canon.push(b'/')` unless it ends so.
abbrev pub with_slash : List ℕ → List ℕ
with_slash cwd = if ends_with_slash cwd then cwd else cwd ++ (b'/' ∷ [])

abbrev pub append_to : Option (List ℕ) → List ℕ → Option (List ℕ)
append_to none path = none
append_to (some canon) path = some (canon ++ path)

abbrev pub is_none {ℓ} : {A : Type ℓ} → Option A → Bool
is_none none = true
is_none (some _) = false

-- `Context::canonicalize`; `none` is a panic.
unfoldable pub canonicalize : Context → List ℕ → Option (List ℕ)
canonicalize c path =
    if is_none (position is_colon path)
    then (if eq_bytes path (b'.' ∷ [])
        then some c.cwd
        else if eq_bytes path (b'.' ∷ b'.' ∷ [])
        then parent c.cwd
        else if starts_with path (b'.' ∷ b'/' ∷ [])
        then some (with_slash c.cwd ++ drop 2 path)
        else if starts_with path (b'.' ∷ b'.' ∷ b'/' ∷ [])
        then append_to (parent c.cwd) (drop 3 path)
        else if starts_with path (b'/' ∷ [])
        then append_to (scheme_part c.cwd) path
        else some (with_slash c.cwd ++ path))
    else some path

-- `Context::block`: whether it was runnable.
unfoldable pub block : Context → Bool × Context
block c = elim c.status [
  | runnable ↦ (true, record c { status = blocked })
  | blocked ↦ (false, c)
  | exited _ ↦ (false, c)
]

-- The processor that an unblocked context is pinned to gets an interrupt, if it is another one.
abbrev pub ipi_target : ℕ → Option ℕ → Option ℕ
ipi_target here none = none
ipi_target here (some cpu) = if cpu == here then none else some cpu

-- `Context::unblock` on processor `here`: whether it was blocked, and the interrupt sent.
pub unblock : ℕ → Context → Bool × Option ℕ × Context
unblock here c = elim c.status [
  | blocked ↦ (true, ipi_target here c.cpu_id, record c { status = runnable })
  | runnable ↦ (false, none, c)
  | exited _ ↦ (false, none, c)
]

-- kernel/context/mod.rs
abbrev pub context_max_files : ℕ
context_max_files = 65536

-- The scan of `add_file` for an empty slot.
unfoldable pub fill_slot : File → List (Option File) → Option (ℕ × List (Option File))
fill_slot f [] = none
fill_slot f (none ∷ fs) = some (0, some f ∷ fs)
fill_slot f (some g ∷ fs) = elim (fill_slot f fs) [
  | none ↦ none
  | some (i, fs') ↦ some (suc i, some g ∷ fs')
]

-- `Context::add_file`, `get_file` and `remove_file`, on the table of files.
unfoldable pub add_file : File → List (Option File) → Option (ℕ × List (Option File))
add_file f fs = elim (fill_slot f fs) [
  | some r ↦ some r
  | none ↦ if ltb (length fs) context_max_files then some (length fs, fs ++ (some f ∷ [])) else none
]

abbrev flat {ℓ} : {A : Type ℓ} → Option (Option A) → Option A
flat none = none
flat (some o) = o

unfoldable pub get_file : ℕ → List (Option File) → Option File
get_file i fs = flat (get_elem? fs i)

unfoldable pub remove_file : ℕ → List (Option File) → Option File × List (Option File)
remove_file i fs = (flat (get_elem? fs i), set fs i none)
