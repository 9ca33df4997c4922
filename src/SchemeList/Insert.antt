-- ===== src/SchemeList/Insert.antt =====
-- kernel/scheme/mod.rs: what `insert` does to the schemes and their names.
use mathlib.Core.Path.{subst}
use origel.Base.{
  leb, ◌==◌, if◌then◌else◌, Option-cases, length, eq_bytes, ℕ, suc, ◌+◌, ◌≡◌, refl, ◌≢◌, ◌⊎◌, inl,
  inr, false, ◌&&◌, Option, none, some, List, ◌∷◌, arith,
}
use origel.Base.Map.{lookup, insert, contains_key, lookup-insert}
use origel.Base.Map.Free.{free_key_lem, lookup_of_not_contains}
use origel.Syscall.Error.{Result, ok, err, eexist}
use origel.SchemeList.{
  Provider, Names, find, SchemeList, returns, panics, new_id, insert_named, insert_scheme,
}

abbrev pub name_in : List ℕ → Option Names → Option ℕ
name_in name none = none
name_in name (some names) = find name names

-- The id that a name stands for in a namespace.
abbrev pub named : ℕ → List ℕ → SchemeList → Option ℕ
named ns name l = name_in name (lookup ns l.names)

-- Every name of every namespace stands for a scheme of the list.
abbrev pub IsLinked : SchemeList → Type 0
IsLinked l = (ns : ℕ) (name : List ℕ) (id : ℕ) → named ns name l ≡ some id → lookup id l.map ≢ none

-- What a successful `insert` has done: the id was not taken; it is bound to the name, and no other
-- name changes; the scheme stands under the id, and no other scheme changes.
pub record Inserted (ns : ℕ) (name : List ℕ) (scheme_fn : ℕ → Provider) (l : SchemeList) (id : ℕ)
    (l' : SchemeList) : Type 0 where
  pub fresh : lookup id l.map ≡ none
  pub bound :
      (ns' : ℕ) (name' : List ℕ)
      → named ns' name' l'
        ≡ (if ns' == ns && eq_bytes name' name then some id else named ns' name' l)
  pub stored : (j : ℕ) → lookup j l'.map ≡ (if j == id then some (scheme_fn id) else lookup j l.map)
  pub kept : (ns' : ℕ) → lookup ns' l.names ≢ none → lookup ns' l'.names ≢ none

new_id_free : (l : SchemeList) → contains_key (new_id l) l.map ≡ false
unfolding new_id
new_id_free l =
    free_key_lem (suc (length l.map)) l.map (if leb 65536 l.next_id then 1 else l.next_id)
      (omega arith)

abbrev pub inserted : ℕ → List ℕ → (ℕ → Provider) → SchemeList → Names → SchemeList
inserted ns name scheme_fn l names =
    let id = new_id l in
    record {
      map = insert id (scheme_fn id) l.map;
      names = insert ns ((name, id) ∷ names) l.names;
      next_ns = l.next_ns;
      next_id = id + 1;
    }

pub inserted-Inserted :
    (ns : ℕ) (name : List ℕ) (scheme_fn : ℕ → Provider) (l : SchemeList) (names : Names)
    → lookup ns l.names ≡ some names
    → Inserted ns name scheme_fn l (new_id l) (inserted ns name scheme_fn l names)
unfolding find
inserted-Inserted ns name scheme_fn l names e = record {
  fresh = lookup_of_not_contains (new_id l) l.map (new_id_free l);
  bound = λ ns' name'. ground (arith, lookup-insert ns ns' ((name, new_id l) ∷ names) l.names);
  stored = λ j. lookup-insert (new_id l) j (scheme_fn (new_id l)) l.map;
  kept = λ ns' h. ground (arith, lookup-insert ns ns' ((name, new_id l) ∷ names) l.names);
}

insert_named-free :
    (ns : ℕ) (name : List ℕ) (scheme_fn : ℕ → Provider) (l : SchemeList) (names : Names)
    → find name names ≡ none
    → insert_named ns name scheme_fn l names
      ≡ returns (ok (new_id l)) (inserted ns name scheme_fn l names)
unfolding insert_named
insert_named-free ns name scheme_fn l names h = ground (arith, new_id_free l)

insert_named-taken :
    (ns : ℕ) (name : List ℕ) (scheme_fn : ℕ → Provider) (l : SchemeList) (names : Names) {id : ℕ}
    → find name names ≡ some id
    → insert_named ns name scheme_fn l names ≡ returns (err eexist) l
unfolding insert_named
insert_named-taken ns name scheme_fn l names h = rw (h, insert_named)

insert_scheme-missing :
    (ns : ℕ) (name : List ℕ) (scheme_fn : ℕ → Provider) (l : SchemeList)
    → lookup ns l.names ≡ none
    → insert_scheme ns name scheme_fn l ≡ panics
unfolding insert_scheme
insert_scheme-missing ns name scheme_fn l h = rw (h, insert_scheme) refl

-- In a namespace that exists, `insert` never panics. A name that is taken gives `EEXIST` and
-- changes nothing; any other name is bound to a new id.
pub insert_scheme_lem :
    (ns : ℕ) (name : List ℕ) (scheme_fn : ℕ → Provider) (l : SchemeList)
    → lookup ns l.names ≢ none
    → ((id : ℕ) × (named ns name l ≡ some id)
        × (insert_scheme ns name scheme_fn l ≡ returns (err eexist) l))
      ⊎ ((l' : SchemeList) × (named ns name l ≡ none)
          × (insert_scheme ns name scheme_fn l ≡ returns (ok (new_id l)) l')
          × Inserted ns name scheme_fn l (new_id l) l')
unfolding insert_scheme
insert_scheme_lem ns name scheme_fn l h = elim (Option-cases (lookup ns l.names)) [
  | inl e ↦ absurd (h e)
  | inr (names, e) ↦ elim (Option-cases (find name names)) [
    | inl f ↦ inr (
      inserted ns name scheme_fn l names,
      rw e f,
      rw (e, insert_scheme) (insert_named-free ns name scheme_fn l names f),
      inserted-Inserted ns name scheme_fn l names e,
    )
    | inr (id, f) ↦
        inl (id, rw e f, rw (e, insert_scheme) (insert_named-taken ns name scheme_fn l names f))
  ]
]

Inserted-IsLinked :
    (ns : ℕ) (name : List ℕ) (scheme_fn : ℕ → Provider) (l : SchemeList) (id : ℕ) (l' : SchemeList)
    → Inserted ns name scheme_fn l id l'
    → IsLinked l
    → IsLinked l'
Inserted-IsLinked ns name scheme_fn l id l' i h ns' name' j e =
    ground (arith, i.bound ns' name', i.stored j, h ns' name' j)

-- If `insert` returns, every name still stands for a scheme of the list, as before.
pub insert_scheme-IsLinked :
    (ns : ℕ) (name : List ℕ) (scheme_fn : ℕ → Provider) (l : SchemeList) (r : Result ℕ)
    (l' : SchemeList)
    → insert_scheme ns name scheme_fn l ≡ returns r l'
    → IsLinked l
    → IsLinked l'
insert_scheme-IsLinked ns name scheme_fn l r l' q h = elim (Option-cases (lookup ns l.names)) [
  | inl e ↦ absurd (let p = insert_scheme-missing ns name scheme_fn l e in ground arith)
  | inr (names, e) ↦ elim (insert_scheme_lem ns name scheme_fn l (λ n. ground arith)) [
    | inl (id, _, taken) ↦ let same : l ≡ l' = ground arith in subst IsLinked same h
    | inr (l'', _, free, i) ↦
        let same : l'' ≡ l' = ground arith in
        subst IsLinked same (Inserted-IsLinked ns name scheme_fn l (new_id l) l'' i h)
  ]
]
