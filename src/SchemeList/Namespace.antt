-- ===== src/SchemeList/Namespace.antt =====
-- kernel/scheme/mod.rs: the namespaces that `new_ns` and `make_ns` build.
use origel.Base.{
  Option-cases, eq_bytes, ℕ, ◌+◌, ◌%◌, ◌^◌, ◌≡◌, refl, ◌∙◌, ◌≢◌, ◌⊎◌, inl, inr, true, false, none,
  some, List, [], ◌∷◌, arith,
}
use origel.Base.Map.{lookup, insert, lookup-insert}
use origel.Syscall.Error.{ok}
use origel.SchemeList.{
  Provider, find, SchemeList, returns, panics, bind_name, Entries, insert_all, common, new_ns,
  get_name, copy_names, make_ns,
}
use origel.SchemeList.Insert.{named, Inserted, insert_scheme_lem}

pub eq_bytes_lem : (xs ys : List ℕ) → eq_bytes xs ys ≡ true → xs ≡ ys
eq_bytes_lem [] [] e = refl
eq_bytes_lem [] (y ∷ ys) e = cc
eq_bytes_lem (x ∷ xs) [] e = cc
eq_bytes_lem (x ∷ xs) (y ∷ ys) e = ground (arith, eq_bytes_lem xs ys)

pub eq_bytes_refl : (xs : List ℕ) → eq_bytes xs xs ≡ true
eq_bytes_refl [] = refl
eq_bytes_refl (x ∷ xs) = ground (arith, eq_bytes_refl xs)

-- What more schemes in the namespace `ns` leave as it was.
record Extends (ns : ℕ) (l l' : SchemeList) : Type 0 where
  elsewhere : (ns' : ℕ) (name : List ℕ) → ns' ≢ ns → named ns' name l' ≡ named ns' name l
  stays : (name : List ℕ) → named ns name l ≢ none → named ns name l' ≢ none
  schemes : (j : ℕ) → lookup j l.map ≢ none → lookup j l'.map ≢ none
  exists : lookup ns l'.names ≢ none

-- Entries whose names are all different, and free in the namespace.
abbrev Differs : List ℕ → Entries → Type 0
Differs name [] = Unit {0}
Differs name ((other, scheme_fn) ∷ es) = (eq_bytes other name ≡ false) × Differs name es

abbrev Distinct : Entries → Type 0
Distinct [] = Unit {0}
Distinct ((name, scheme_fn) ∷ es) = Differs name es × Distinct es

abbrev AllFree : ℕ → SchemeList → Entries → Type 0
AllFree ns l [] = Unit {0}
AllFree ns l ((name, scheme_fn) ∷ es) = (named ns name l ≡ none) × AllFree ns l es

abbrev AllNamed : ℕ → SchemeList → Entries → Type 0
AllNamed ns l [] = Unit {0}
AllNamed ns l ((name, scheme_fn) ∷ es) = (named ns name l ≢ none) × AllNamed ns l es

module _ (ns : ℕ) (name : List ℕ) (scheme_fn : ℕ → Provider) (l : SchemeList) (id : ℕ)
    (l' : SchemeList) (i : Inserted ns name scheme_fn l id l') where
  Inserted-Extends : lookup ns l.names ≢ none → Extends ns l l'
  Inserted-Extends h = record {
    elsewhere = λ ns' name' ne. ground (arith, i.bound ns' name');
    stays = λ name' ne. ground (arith, i.bound ns name');
    schemes = λ j ne. ground (arith, i.stored j);
    exists = i.kept ns h;
  }

  Inserted-AllFree : (es : Entries) → Differs name es → AllFree ns l es → AllFree ns l' es
  Inserted-AllFree [] d f = tt
  Inserted-AllFree ((other, fn) ∷ es) d f =
      (ground (arith, i.bound ns other), Inserted-AllFree es d.1 f.1)

  Inserted-named : named ns name l' ≢ none
  Inserted-named = ground (arith, i.bound ns name, eq_bytes_refl name)

Extends-trans :
    (ns : ℕ) (l l' l'' : SchemeList) → Extends ns l l' → Extends ns l' l'' → Extends ns l l''
Extends-trans ns l l' l'' a b = record {
  elsewhere = λ ns' name ne. b.elsewhere ns' name ne ∙ a.elsewhere ns' name ne;
  stays = λ name ne. b.stays name (a.stays name ne);
  schemes = λ j ne. b.schemes j (a.schemes j ne);
  exists = b.exists;
}

-- A list of insertions of free and different names succeeds.
insert_all_lem :
    (ns : ℕ) (es : Entries) (l : SchemeList)
    → Distinct es
    → AllFree ns l es
    → lookup ns l.names ≢ none
    → (l' : SchemeList) × (insert_all ns es l ≡ returns (ok tt) l')
      × Extends ns l l'
      × AllNamed ns l' es
unfolding insert_all
insert_all_lem ns [] l d f h = (
  l,
  refl,
  record { elsewhere = λ _ _ _. refl; stays = λ _ ne. ne; schemes = λ _ ne. ne; exists = h },
  tt,
)
insert_all_lem ns ((name, scheme_fn) ∷ es) l d f h =
    elim (insert_scheme_lem ns name scheme_fn l h) [
      | inl (id, e, _) ↦ absurd (ground arith)
      | inr (l', _, e, i) ↦
          let x = Inserted-Extends ns name scheme_fn l _ l' i h in
          let (l'', e', x', n) =
            insert_all_lem ns es l' d.1 (Inserted-AllFree ns name scheme_fn l _ l' i es d.0 f.1)
              x.exists in
          (
            l'',
            rw e e',
            Extends-trans ns l l' l'' x x',
            (x'.stays name (Inserted-named ns name scheme_fn l _ l' i), n),
          )
    ]

common-Distinct : (ns : ℕ) → Distinct (common ns)
unfolding common
common-Distinct ns = ground arith

-- The list with the new, empty namespace.
abbrev opened : SchemeList → SchemeList
opened l = record l { next_ns = (l.next_ns + 1) % 2 ^ 64; names = insert l.next_ns [] l.names }

opened-AllFree : (l : SchemeList) (es : Entries) → AllFree l.next_ns (opened l) es
unfolding find
opened-AllFree l [] = tt
opened-AllFree l ((name, scheme_fn) ∷ es) =
    (ground (arith, lookup-insert l.next_ns l.next_ns [] l.names), opened-AllFree l es)

-- A new namespace: `new_ns` never panics, returns its number, gives it all the common names, and
-- changes no name of another namespace and no scheme.
pub record NewNs (l l' : SchemeList) : Type 0 where
  pub elsewhere : (ns : ℕ) (name : List ℕ) → ns ≢ l.next_ns → named ns name l' ≡ named ns name l
  pub schemes : (j : ℕ) → lookup j l.map ≢ none → lookup j l'.map ≢ none
  pub has_common : AllNamed l.next_ns l' (common l.next_ns)

-- `new_ns` always succeeds: it returns the number of the new namespace, binds all the common names
-- in it, changes no name of another namespace and removes no scheme.
pub new_ns_lem :
    (l : SchemeList) → (l' : SchemeList) × (new_ns l ≡ returns (ok l.next_ns) l') × NewNs l l'
unfolding new_ns
new_ns_lem l =
    let ns = l.next_ns in
    let (l', e, x, n) =
      insert_all_lem ns (common ns) (opened l) (common-Distinct ns) (opened-AllFree l (common ns))
        (ground (arith, lookup-insert ns ns [] l.names)) in
    (
      l',
      rw e,
      record {
        elsewhere = λ ns' name ne.
            x.elsewhere ns' name ne ∙ ground (arith, lookup-insert ns ns' [] l.names);
        schemes = λ j ne. x.schemes j ne;
        has_common = n;
      },
    )

-- A name is that of one of the entries.
abbrev pub IsNameOf : List ℕ → Entries → Type 0
IsNameOf name [] = ⊥
IsNameOf name ((other, scheme_fn) ∷ es) = (name ≡ other) ⊎ IsNameOf name es

AllNamed-named :
    (ns : ℕ) (l : SchemeList) (name : List ℕ) (es : Entries)
    → AllNamed ns l es
    → IsNameOf name es
    → named ns name l ≢ none
AllNamed-named ns l name [] a i = absurd i
AllNamed-named ns l name ((other, scheme_fn) ∷ es) a (inl e) = rw e a.0
AllNamed-named ns l name ((other, scheme_fn) ∷ es) a (inr i) = AllNamed-named ns l name es a.1 i

bind_name-taken :
    (ns : ℕ) (name : List ℕ) (id : ℕ) (l : SchemeList)
    → named ns name l ≢ none
    → bind_name ns name id l (lookup ns l.names) ≡ panics
bind_name-taken ns name id l h = ground arith

get_name-inv :
    (from : ℕ) (name : List ℕ) (l : SchemeList) (r : ℕ × Provider)
    → get_name from name l ≡ some (some r)
    → (named from name l ≡ some r.0) × (lookup r.0 l.map ≢ none)
unfolding get_name
get_name-inv from name l r e = ground arith

get_name-of :
    (from : ℕ) (name : List ℕ) (l : SchemeList) (id : ℕ) (p : Provider)
    → named from name l ≡ some id
    → lookup id l.map ≡ some p
    → get_name from name l ≡ some (some (id, p))
unfolding get_name
get_name-of from name l id p e f = ground arith

get_name-kept :
    (from : ℕ) (name : List ℕ) (l l' : SchemeList) (r : ℕ × Provider)
    → NewNs l l'
    → from ≢ l.next_ns
    → get_name from name l ≡ some (some r)
    → (r' : ℕ × Provider) × (get_name from name l' ≡ some (some r'))
unfolding get_name
get_name-kept from name l l' r x ne e =
    let (bound, known) = get_name-inv from name l r e in
    elim (Option-cases (lookup r.0 l'.map)) [
      | inl gone ↦ absurd (x.schemes r.0 known gone)
      | inr (p, f) ↦ ((r.0, p), get_name-of from name l' r.0 p (x.elsewhere from name ne ∙ bound) f)
    ]

copy_names-taken :
    (from to : ℕ) (name : List ℕ) (rest : List (List ℕ)) (l : SchemeList) (r : ℕ × Provider)
    → get_name from name l ≡ some (some r)
    → named to name l ≢ none
    → copy_names from to (name ∷ rest) l ≡ panics
unfolding copy_names
copy_names-taken from to name rest l r e h = ground (arith, bind_name-taken to name r.0 l)

-- A process that asks for a namespace with one of the common names first (`null`, say), which the
-- namespace that it copies from has, makes the kernel panic: `new_ns` has bound the name already.
pub make_ns_panics :
    (from : ℕ) (name : List ℕ) (rest : List (List ℕ)) (l : SchemeList) (r : ℕ × Provider)
    → from ≢ l.next_ns
    → IsNameOf name (common l.next_ns)
    → get_name from name l ≡ some (some r)
    → make_ns from (name ∷ rest) l ≡ panics
unfolding make_ns
make_ns_panics from name rest l r ne i e =
    let (l', eq, x) = new_ns_lem l in
    let (r', found) = get_name-kept from name l l' r x ne e in
    let taken = AllNamed-named l.next_ns l' name (common l.next_ns) x.has_common i in
    rw eq (copy_names-taken from l.next_ns name rest l' r' found taken)
