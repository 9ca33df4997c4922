-- ===== src/RedoxFs/Scheme/Parents.antt =====
-- schemes/redoxfs/scheme/scheme.rs: where `open` makes a file whose directory does not exist.
use origel.Base.{
  ℕ, ◌≡◌, refl, sym, ap, ◌∙◌, Bool, true, Option, none, some, List, [], ◌∷◌, ◌++◌, arith,
}
use mathlib.Core.List.{append_assoc}
use origel.Base.Text.{split}
use origel.Syscall.Error.{enoent}
use origel.Syscall.Flag.{o_creat}
use origel.RedoxFs.Node.{Node}
use origel.RedoxFs.FileSystem.{FileSystem, Run, ok, err, fault, loops, node, find_node}
use origel.RedoxFs.Resource.{new_dir, new_file}
use origel.RedoxFs.Scheme.Paths.{Found, Walked, enter, walk, path_nodes, check_nodes}
use origel.RedoxFs.Scheme.{
  has, Resource, dir, file, trimmed, last_part, last, create_part, create_in, open_walked,
  open_resource,
}

-- A walk that goes on where another one has come to.
abbrev and_then : Walked → (Found → FileSystem → Walked) → Walked
and_then (nodes, ok d s) go = let (more, r) = go d s in (nodes ++ more, r)
and_then (nodes, r) go = (nodes, r)

and_then-cons :
    (at : Found) (w : Walked) (go : Found → FileSystem → Walked)
    → and_then (at ∷ w.0, w.1) go ≡ (at ∷ (and_then w go).0, (and_then w go).1)
and_then-cons at (nodes, ok d s) go = refl
and_then-cons at (nodes, err e s) go = refl
and_then-cons at (nodes, fault) go = refl
and_then-cons at (nodes, loops) go = refl

enter-and_then :
    (at : Found) (both first rest : Found → FileSystem → Walked) (r : Run Found)
    → ((d : Found) (s : FileSystem) → both d s ≡ and_then (first d s) rest)
    → enter at both r ≡ and_then (enter at first r) rest
enter-and_then at both first rest (ok d s) e =
    ap (λ w. (at ∷ w.0, w.1)) (e d s) ∙ sym (and_then-cons at (first d s) rest)
enter-and_then at both first rest (err n s) e = refl
enter-and_then at both first rest fault e = refl
enter-and_then at both first rest loops e = refl

walk-append :
    (fuel : ℕ) (ps qs : List (List ℕ)) (at : Found) (s : FileSystem)
    → walk fuel (ps ++ qs) at s ≡ and_then (walk fuel ps at s) (walk fuel qs)
unfolding walk
walk-append fuel [] qs at s = refl
walk-append fuel ([] ∷ ps) qs at s = walk-append fuel ps qs at s
walk-append fuel ((c ∷ cs) ∷ ps) qs at s =
    enter-and_then at (walk fuel (ps ++ qs)) (walk fuel ps) (walk fuel qs)
      (find_node fuel (c ∷ cs) at.0 s) (walk-append fuel ps qs)

last_part-append :
    (ps : List (List ℕ)) (c : ℕ) (cs : List ℕ) → last_part (ps ++ ((c ∷ cs) ∷ [])) ≡ some (c ∷ cs)
unfolding last_part
last_part-append [] c cs = refl
last_part-append ([] ∷ ps) c cs = last_part-append ps c cs
last_part-append ((d ∷ ds) ∷ ps) c cs = rw (last_part-append ps c cs) refl

-- The block of an open resource, and the file system that the call leaves.
abbrev pub opened_at : Run Resource → Run ℕ
opened_at (ok (dir d) s) = ok d.block s
opened_at (ok (file f) s) = ok f.block s
opened_at (err e s) = err e s
opened_at fault = fault
opened_at loops = loops

module _ (is_utf8 : List ℕ → Bool) (fuel : ℕ) where
  create_part-path :
      (p q : List ℕ) (flags uid gid : ℕ) (parent : Found) (part : List ℕ) (s : FileSystem)
      → opened_at (create_part is_utf8 fuel p flags uid gid parent part s)
        ≡ opened_at (create_part is_utf8 fuel q flags uid gid parent part s)
  unfolding create_part new_dir new_file
  create_part-path p q flags uid gid parent part s = ground arith

  create_in-path :
      (p q : List ℕ) (flags uid gid : ℕ) (nodes : List Found) (s : FileSystem)
      (part : Option (List ℕ)) (parent : Option Found)
      → last_part (split b'/' p) ≡ part
      → last_part (split b'/' q) ≡ part
      → last nodes ≡ parent
      → opened_at (create_in is_utf8 fuel p flags uid gid nodes s)
        ≡ opened_at (create_in is_utf8 fuel q flags uid gid nodes s)
  unfolding create_in
  create_in-path p q flags uid gid nodes s none parent e e' l = rw (create_in, e, e') refl
  create_in-path p q flags uid gid nodes s (some part) none e e' l = rw (create_in, e, e', l) refl
  create_in-path p q flags uid gid nodes s (some part) (some parent) e e' l =
      rw (create_in, e, e', l) (create_part-path p q flags uid gid parent part s)

  -- The result of `open_resource` for a walk that has missed a part.
  missed : (path : List ℕ) (flags uid gid : ℕ) → List Found → FileSystem → Option ℕ → Run Resource
  missed path flags uid gid nodes s none = create_in is_utf8 fuel path flags uid gid nodes s
  missed path flags uid gid nodes s (some e) = err e s

  missed-path :
      (p q : List ℕ) (flags uid gid : ℕ) (nodes : List Found) (s : FileSystem)
      (part : Option (List ℕ)) (o : Option ℕ)
      → last_part (split b'/' p) ≡ part
      → last_part (split b'/' q) ≡ part
      → opened_at (missed p flags uid gid nodes s o) ≡ opened_at (missed q flags uid gid nodes s o)
  unfolding missed
  missed-path p q flags uid gid nodes s part none e e' =
      create_in-path p q flags uid gid nodes s part (last nodes) e e' refl
  missed-path p q flags uid gid nodes s part (some n) e e' = refl

  open_resource-missed :
      (url : List ℕ) (flags uid gid : ℕ) (nodes : List Found) (s s' : FileSystem) (o : Option ℕ)
      → path_nodes fuel (trimmed (is_utf8 url) url) s ≡ (nodes, err enoent s')
      → check_nodes uid gid nodes ≡ o
      → has o_creat flags ≡ true
      → open_resource is_utf8 fuel url flags uid gid s
        ≡ missed (trimmed (is_utf8 url) url) flags uid gid nodes s' o
  unfolding open_resource open_walked missed
  open_resource-missed url flags uid gid nodes s s' none walked check creates =
      rw (open_resource, walked, check, walked, creates) refl
  open_resource-missed url flags uid gid nodes s s' (some e) walked check creates =
      rw (open_resource, walked, check, walked) refl

  misses :
      (c : ℕ) (cs : List ℕ) (rest : List (List ℕ)) (d : Found) (s : FileSystem)
      → find_node fuel (c ∷ cs) d.0 s ≡ err enoent s
      → walk fuel ((c ∷ cs) ∷ rest) d s ≡ (d ∷ [], err enoent s)
  unfolding walk
  misses c cs rest d s e = rw e refl

  path_nodes-misses :
      (path : List ℕ) (ps qs : List (List ℕ)) (root : Node) (nodes : List Found) (d : Found)
      (s s' : FileSystem)
      → split b'/' path ≡ ps ++ qs
      → node s.header.root s ≡ ok root s
      → walk fuel ps (s.header.root, root) s ≡ (nodes, ok d s')
      → walk fuel qs d s' ≡ (d ∷ [], err enoent s')
      → path_nodes fuel path s ≡ (nodes ++ (d ∷ []), err enoent s')
  unfolding path_nodes
  path_nodes-misses path ps qs root nodes d s s' parts start reached rest =
      rw (parts, start) (walk-append fuel ps qs (s.header.root, root) s ∙ rw (reached, rest) refl)

  -- If the parts `ps` of a path lead to a directory that has neither a child `dir` nor a child `part`, then
  -- `open` with `O_CREAT` gives for the path `ps/dir/part` the same file, or the same error, and the same file
  -- system as for `ps/part`: where the directory `dir` does not exist, the file is made in the one before it.
  pub open-misplaces :
      (url url' : List ℕ) (flags uid gid : ℕ) (ps : List (List ℕ)) (b c : ℕ) (bs cs : List ℕ)
      (root : Node) (nodes : List Found) (d : Found) (s s' : FileSystem)
      → split b'/' (trimmed (is_utf8 url) url) ≡ ps ++ ((b ∷ bs) ∷ (c ∷ cs) ∷ [])
      → split b'/' (trimmed (is_utf8 url') url') ≡ ps ++ ((c ∷ cs) ∷ [])
      → node s.header.root s ≡ ok root s
      → walk fuel ps (s.header.root, root) s ≡ (nodes, ok d s')
      → find_node fuel (b ∷ bs) d.0 s' ≡ err enoent s'
      → find_node fuel (c ∷ cs) d.0 s' ≡ err enoent s'
      → has o_creat flags ≡ true
      → opened_at (open_resource is_utf8 fuel url flags uid gid s)
        ≡ opened_at (open_resource is_utf8 fuel url' flags uid gid s)
  open-misplaces url url' flags uid gid ps b c bs cs root nodes d s s' parts parts' start reached
        no_dir no_part creates =
      let far =
        path_nodes-misses (trimmed (is_utf8 url) url) ps _ root nodes d s s' parts start reached
          (misses b bs _ d s' no_dir) in
      let near =
        path_nodes-misses (trimmed (is_utf8 url') url') ps _ root nodes d s s' parts' start reached
          (misses c cs _ d s' no_part) in
      let last_far =
        ap last_part parts
        ∙ ap last_part (sym (append_assoc ps ((b ∷ bs) ∷ []) ((c ∷ cs) ∷ [])))
        ∙ last_part-append (ps ++ ((b ∷ bs) ∷ [])) c cs in
      let last_near = ap last_part parts' ∙ last_part-append ps c cs in
      rw
        (
          open_resource-missed url flags uid gid _ s s' _ far refl creates,
          open_resource-missed url' flags uid gid _ s s' _ near refl creates,
        )
        (missed-path _ _ flags uid gid _ s' (some (c ∷ cs)) _ last_far last_near)
