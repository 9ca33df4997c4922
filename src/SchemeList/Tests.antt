-- ===== src/SchemeList/Tests.antt =====
-- Runs of the scheme list, and the theorems about it at concrete states.
use origel.Base.{ℕ, ◌≡◌, refl, ◌⊎◌, inl, inr, Option, none, some, List, [], ◌∷◌, map, arith}
use origel.Base.Map.{lookup, insert}
use origel.Syscall.Error.{ok, err, eexist}
use origel.SchemeList.{
  find, Provider, root, event, env, null, sys, zeros, initfs, debug, irq, pipe, user, SchemeList,
  Run, returns, panics, new, new_id, new_ns, insert_scheme, get_name, make_ns,
}
use origel.SchemeList.Insert.{named, IsLinked, Inserted, inserted, insert_scheme_lem}
use origel.SchemeList.Namespace.{make_ns_panics}

abbrev null_name : List ℕ
null_name = b'n' ∷ b'u' ∷ b'l' ∷ b'l' ∷ []

abbrev disk_name : List ℕ
disk_name = b'd' ∷ b'i' ∷ b's' ∷ b'k' ∷ []

-- One namespace, 1, with one scheme.
abbrev small : SchemeList
small = record {
  map = (4, null) ∷ [];
  names = (1, (null_name, 4) ∷ []) ∷ [];
  next_ns = 2;
  next_id = 4;
}

abbrev after : Run (Unit {0}) → Option SchemeList
after (returns (ok _) l) = some l
after _ = none

-- The numbers of the next namespace and scheme, and the scheme `pipe:` of the first namespace.
abbrev started : Option SchemeList → ℕ × ℕ × Option (Option (ℕ × Provider))
unfolding get_name
started none = (0, 0, none)
started (some l) = (l.next_ns, l.next_id, get_name 0 (b'p' ∷ b'i' ∷ b'p' ∷ b'e' ∷ []) l)

-- The kernel starts with one namespace and ten schemes.
new_starts : started (after new) ≡ (1, 11, some (some (10, pipe 10)))
unfolding started new insert_scheme new_id lookup insert find origel.Base.Map.contains_key
    origel.Base.Map.Free.free_key
new_starts = refl

insert_scheme_lem_example :
    ((id : ℕ) × (named 1 disk_name small ≡ some id)
      × (insert_scheme 1 disk_name user small ≡ returns (err eexist) small))
    ⊎ ((l' : SchemeList) × (named 1 disk_name small ≡ none)
        × (insert_scheme 1 disk_name user small ≡ returns (ok (new_id small)) l')
        × Inserted 1 disk_name user small (new_id small) l')
unfolding lookup
insert_scheme_lem_example = insert_scheme_lem 1 disk_name user small (ground arith)

abbrev one_name : SchemeList
one_name = inserted 1 disk_name user small ((null_name, 4) ∷ [])

small-IsLinked : IsLinked small
unfolding lookup find
small-IsLinked ns name id e = ground arith

make_ns_panics_example : make_ns 1 (null_name ∷ disk_name ∷ []) small ≡ panics
unfolding get_name lookup find origel.SchemeList.common
make_ns_panics_example =
    make_ns_panics 1 null_name (disk_name ∷ []) small (4, null) (ground arith)
      (inr (inr (inr (inl refl)))) refl
