-- ===== src/SchemeList.antt =====
-- kernel/scheme/mod.rs: the schemes of the kernel and the namespaces that name them. A list or a
-- map that is missing where the source indexes it, and an assertion that fails, are a panic.
pub mod Insert
pub mod Namespace
mod Tests
use origel.Base.{
  leb, if◌then◌else◌, length, eq_bytes, ℕ, suc, ◌+◌, ◌%◌, ◌^◌, Option, none, some, List, [], ◌∷◌,
}
use origel.Base.Map.{Map, lookup, insert, remove, contains_key}
use origel.Base.Map.Free.{free_key}
use origel.Syscall.Error.{Result, ok, err, eexist, enodev}

-- What a `SchemeId` stands for: the kernel's schemes, with what they are made of, or another one.
pub data Provider : Type 0 where
  root : ℕ → ℕ → Provider
  event env null sys zeros initfs : Provider
  debug irq pipe : ℕ → Provider
  user : ℕ → Provider

-- `BTreeMap<Box<[u8]>, SchemeId>`; its order is not used by the calls below.
abbrev pub Names : Type 0
Names = List (List ℕ × ℕ)

unfoldable pub find : List ℕ → Names → Option ℕ
find name [] = none
find name ((n, id) ∷ ns) = if eq_bytes name n then some id else find name ns

pub record SchemeList : Type 0 where
  pub map : Map Provider
  pub names : Map Names
  pub next_ns : ℕ
  pub next_id : ℕ

-- A call returns with the list as it leaves it, or panics.
pub data Run {ℓ} (A : Type ℓ) : Type ℓ where
  returns : Result A → SchemeList → Run A
  panics : Run A

-- `.unwrap()` of a result, and the rest of the call.
abbrev pub unwrap {ℓ κ} : {A : Type ℓ} {B : Type κ} → Run A → (A → SchemeList → Run B) → Run B
unwrap (returns (ok a) l) f = f a l
unwrap (returns (err e) l) f = panics
unwrap panics f = panics

abbrev scheme_max_schemes : ℕ
scheme_max_schemes = 65536

-- `assert!(names.insert(name, id).is_none())` in the namespace `ns`, and then `r`.
abbrev bind_name : ℕ → List ℕ → ℕ → SchemeList → Option Names → Run ℕ
bind_name ns name id l none = panics
bind_name ns name id l (some names) = elim (find name names) [
  | some _ ↦ panics
  | none ↦ returns (ok id) (record l { names = insert ns ((name, id) ∷ names) l.names })
]

-- The id that `insert` gives to a new scheme. One more round than there are schemes is enough for
-- the scan.
pub new_id : SchemeList → ℕ
new_id l =
    let first = if leb scheme_max_schemes l.next_id then 1 else l.next_id in
    free_key (suc (length l.map)) l.map first

-- `SchemeList::insert`, where the namespace has these names.
insert_named : ℕ → List ℕ → (ℕ → Provider) → SchemeList → Names → Run ℕ
unfolding new_id
insert_named ns name scheme_fn l names = elim (find name names) [
  | some _ ↦ returns (err eexist) l
  | none ↦
      let id = new_id l in
      if contains_key id l.map
      then panics
      else (bind_name ns name id
          (record l { map = insert id (scheme_fn id) l.map; next_id = id + 1 }) (some names))
]

-- `SchemeList::insert`
pub insert_scheme : ℕ → List ℕ → (ℕ → Provider) → SchemeList → Run ℕ
unfolding insert_named
insert_scheme ns name scheme_fn l = elim (lookup ns l.names) [
  | none ↦ panics
  | some names ↦ insert_named ns name scheme_fn l names
]

-- A list of `insert(..).unwrap()` calls.
abbrev pub Entries : Type 0
Entries = List (List ℕ × (ℕ → Provider))

insert_all : ℕ → Entries → SchemeList → Run (Unit {0})
insert_all ns [] l = returns (ok tt) l
insert_all ns ((name, scheme_fn) ∷ es) l =
    unwrap (insert_scheme ns name scheme_fn l) (λ _ l'. insert_all ns es l')

-- The schemes that every namespace has, and those that only the first one has.
pub common : ℕ → Entries
common ns =
    ([], root ns)
    ∷ (b'e' ∷ b'v' ∷ b'e' ∷ b'n' ∷ b't' ∷ [], λ _. event)
    ∷ (b'e' ∷ b'n' ∷ b'v' ∷ [], λ _. env)
    ∷ (b'n' ∷ b'u' ∷ b'l' ∷ b'l' ∷ [], λ _. null)
    ∷ (b's' ∷ b'y' ∷ b's' ∷ [], λ _. sys)
    ∷ (b'z' ∷ b'e' ∷ b'r' ∷ b'o' ∷ [], λ _. zeros)
    ∷ []

root_only : Entries
root_only =
    (b'd' ∷ b'e' ∷ b'b' ∷ b'u' ∷ b'g' ∷ [], debug)
    ∷ (b'i' ∷ b'n' ∷ b'i' ∷ b't' ∷ b'f' ∷ b's' ∷ [], λ _. initfs)
    ∷ (b'i' ∷ b'r' ∷ b'q' ∷ [], irq)
    ∷ (b'p' ∷ b'i' ∷ b'p' ∷ b'e' ∷ [], pipe)
    ∷ []

-- `SchemeList::new_ns`
pub new_ns : SchemeList → Run ℕ
unfolding insert_all common
new_ns l =
    let ns = l.next_ns in
    unwrap
      (insert_all ns (common ns)
        (record l { next_ns = (ns + 1) % 2 ^ 64; names = insert ns [] l.names }))
      (λ _ l'. returns (ok ns) l')

-- `SchemeList::new`, with `new_root` of a kernel that was not built as a live disk.
pub new : Run (Unit {0})
unfolding new_ns insert_all root_only
new =
    unwrap (new_ns (record { map = []; names = []; next_ns = 0; next_id = 1 }))
      (λ ns l. insert_all ns root_only l)

-- `SchemeList::get` and `get_name`; the outer `none` is the panic on a missing namespace.
unfoldable pub get_name : ℕ → List ℕ → SchemeList → Option (Option (ℕ × Provider))
get_name ns name l = elim (lookup ns l.names) [
  | none ↦ none
  | some names ↦ some (elim (find name names) [
    | none ↦ none
    | some id ↦ elim (lookup id l.map) [ none ↦ none | some p ↦ some (id, p) ]
  ])
]

-- The loop of `make_ns`.
copy_names : ℕ → ℕ → List (List ℕ) → SchemeList → Run ℕ
unfolding get_name
copy_names from to [] l = returns (ok to) l
copy_names from to (name ∷ rest) l = elim (get_name from name l) [
  | none ↦ panics
  | some none ↦ returns (err enodev) l
  | some (some (id, _)) ↦
      unwrap (bind_name to name id l (lookup to l.names)) (λ _ l'. copy_names from to rest l')
]

-- `SchemeList::make_ns`
pub make_ns : ℕ → List (List ℕ) → SchemeList → Run ℕ
unfolding new_ns copy_names
make_ns from names l = unwrap (new_ns l) (λ to l'. copy_names from to names l')
