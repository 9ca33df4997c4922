-- ===== src/RedoxFs/Scheme/Rights.antt =====
-- schemes/redoxfs/scheme/scheme.rs: who may open a file, and who may change its mode.
use origel.Base.{
  Bool-cases, Option-cases, All, ℕ, bit_and, bit_or, ◌≡◌, refl, sym, ap, ◌⊎◌, inl, inr, Bool, true,
  false, Option, none, some, List, [], ◌∷◌, arith,
}
use origel.Base.Text.{split}
use origel.Syscall.Error.{enoent}
use origel.Syscall.Flag.{o_creat, o_trunc, mode_perm}
use origel.RedoxFs.Node.{Node, is_dir, permission}
use origel.RedoxFs.FileSystem.{FileSystem, Run, ok, err, fault, loops, write_at}
use origel.RedoxFs.FileSystem.Allocate.{written}
use origel.RedoxFs.Resource.{FileResource, new_file}
use origel.RedoxFs.Scheme.Paths.{Found, path_nodes, check_nodes}
use origel.RedoxFs.Scheme.{
  has, lacks, file, refused, trimmed, last_part, last, open_dir, open_file, open_node, create_part,
  create_in, open_walked, open_resource, checked, chmod,
}

-- A user may pass the nodes of a path: directories that they may search.
abbrev pub Passes : (uid gid : ℕ) → List Found → Type 0
Passes uid gid = All (λ d. (permission d.1 uid gid 1 ≡ true) × (is_dir d.1 ≡ true))

check_nodes-Passes :
    (uid gid : ℕ) (nodes : List Found) → check_nodes uid gid nodes ≡ none → Passes uid gid nodes
unfolding check_nodes
check_nodes-Passes uid gid [] e = tt
check_nodes-Passes uid gid ((b, n) ∷ nodes) e =
    let may : permission n uid gid 1 ≡ true = ground (arith, e) in
    let directory : is_dir n ≡ true = ground (arith, e, may) in
    let rest : check_nodes uid gid nodes ≡ none = ground (arith, e, may, directory) in
    ((may, directory), check_nodes-Passes uid gid nodes rest)

-- How a file comes to be opened, for what the walk gives.
pub data Opens (uid gid flags : ℕ) (nodes : List Found) (f : FileResource) (r : Run Found)
    : Type 0 where
  existing :
      (n : Node) (s : FileSystem)
      → r ≡ ok (f.block, n) s
      → is_dir n ≡ false
      → lacks uid gid flags n ≡ false
      → (has o_trunc flags ≡ true → permission n uid gid 2 ≡ true)
      → Opens uid gid flags nodes f r
  created :
      (p : ℕ) (parent : Node) (s : FileSystem)
      → r ≡ err enoent s
      → has o_creat flags ≡ true
      → last nodes ≡ some (p, parent)
      → permission parent uid gid 2 ≡ true
      → Opens uid gid flags nodes f r

Run-cases :
    {A : Type 0} (r : Run A)
    → ((a : A) × (s : FileSystem) × (r ≡ ok a s))
      ⊎ (((n : ℕ) × (s : FileSystem) × (r ≡ err n s)) ⊎ ((r ≡ fault) ⊎ (r ≡ loops)))
Run-cases (ok a s) = inl (a, s, refl)
Run-cases (err n s) = inr (inl (n, s, refl))
Run-cases fault = inr (inr (inl refl))
Run-cases loops = inr (inr (inr refl))

refused-err : {A B : Type 0} (n : ℕ) (r : Run A) (a : B) (s : FileSystem) → ¬ (refused n r ≡ ok a s)
refused-err n (ok b t) a s e = ground (arith, e)
refused-err n (err m t) a s e = ground (arith, e)
refused-err n fault a s e = ground (arith, e)
refused-err n loops a s e = ground (arith, e)

module _ (is_utf8 : List ℕ → Bool) (fuel : ℕ) where
  open_file-rights :
      (path : List ℕ) (flags uid gid : ℕ) (d : Found) (f : FileResource) (s s' : FileSystem)
      → open_file is_utf8 fuel path flags uid gid d s ≡ ok (file f) s'
      → (f.flags ≡ flags)
        × (f.block ≡ d.0)
        × (lacks uid gid flags d.1 ≡ false)
        × (has o_trunc flags ≡ true → permission d.1 uid gid 2 ≡ true)
  unfolding open_file new_file
  open_file-rights path flags uid gid d f s s' e = ground (arith, e)

  open_dir-no_file :
      (path : List ℕ) (flags uid gid : ℕ) (d : Found) (f : FileResource) (s s' : FileSystem)
      → ¬ (open_dir is_utf8 fuel path flags uid gid d s ≡ ok (file f) s')
  unfolding open_dir
  open_dir-no_file path flags uid gid d f s s' e = ground (arith, e)

  create_part-right :
      (path : List ℕ) (flags uid gid : ℕ) (p : Found) (part : List ℕ) (f : FileResource)
      (s s' : FileSystem)
      → create_part is_utf8 fuel path flags uid gid p part s ≡ ok (file f) s'
      → (f.flags ≡ flags) × (permission p.1 uid gid 2 ≡ true)
  unfolding create_part new_file
  create_part-right path flags uid gid p part f s s' e = ground (arith, e)

  open_node-rights :
      (path : List ℕ) (flags uid gid : ℕ) (d : Found) (f : FileResource) (s s' : FileSystem)
      → open_node is_utf8 fuel path flags uid gid d s ≡ ok (file f) s'
      → (is_dir d.1 ≡ false)
        × (f.flags ≡ flags)
        × (f.block ≡ d.0)
        × (lacks uid gid flags d.1 ≡ false)
        × (has o_trunc flags ≡ true → permission d.1 uid gid 2 ≡ true)
  unfolding open_node
  open_node-rights path flags uid gid d f s s' e = elim (Bool-cases (is_dir d.1)) [
    | inl branch ↦
        let opened : open_dir is_utf8 fuel path flags uid gid d s ≡ ok (file f) s' =
          ground (arith, e, branch) in
        absurd (open_dir-no_file path flags uid gid d f s s' opened)
    | inr leaf ↦
        let opened : open_file is_utf8 fuel path flags uid gid d s ≡ ok (file f) s' =
          ground (arith, e, leaf) in
        let (same, block, may, truncates) = open_file-rights path flags uid gid d f s s' opened in
        (leaf, same, block, may, truncates)
  ]

  create_in-right :
      (path : List ℕ) (flags uid gid : ℕ) (nodes : List Found) (f : FileResource)
      (s s' : FileSystem) (part : Option (List ℕ)) (parent : Option Found)
      → last_part (split b'/' path) ≡ part
      → last nodes ≡ parent
      → create_in is_utf8 fuel path flags uid gid nodes s ≡ ok (file f) s'
      → (f.flags ≡ flags)
        × ((p : Found) × (last nodes ≡ some p) × (permission p.1 uid gid 2 ≡ true))
  unfolding create_in
  create_in-right path flags uid gid nodes f s s' (some part) (some p) q l e =
      let made : create_part is_utf8 fuel path flags uid gid p part s ≡ ok (file f) s' =
        ground (arith, q, l, e) in
      let (same, may) = create_part-right path flags uid gid p part f s s' made in
      (same, (p, l, may))
  create_in-right path flags uid gid nodes f s s' part parent q l e = ground (arith, q, l, e)

  open_walked-Opens :
      (path : List ℕ) (flags uid gid : ℕ) (nodes : List Found) (r : Run Found) (f : FileResource)
      (s' : FileSystem)
      → open_walked is_utf8 fuel path flags uid gid nodes r ≡ ok (file f) s'
      → (f.flags ≡ flags) × Opens uid gid flags nodes f r
  unfolding open_walked
  open_walked-Opens path flags uid gid nodes (ok d s) f s' e =
      let (leaf, same, block, may, truncates) = open_node-rights path flags uid gid d f s s' e in
      (same, existing d.1 s (ap (λ b. ok (b, d.1) s) (sym block)) leaf may truncates)
  open_walked-Opens path flags uid gid nodes (err n s) f s' e =
      let missing : n ≡ enoent = ground (arith, e) in
      let creates : has o_creat flags ≡ true = ground (arith, e) in
      let made : create_in is_utf8 fuel path flags uid gid nodes s ≡ ok (file f) s' =
        ground (arith, e) in
      let (same, ((p, parent), is_last, may)) =
        create_in-right path flags uid gid nodes f s s' _ _ refl refl made in
      (same, created p parent s (ap (λ n. err n s) missing) creates is_last may)
  open_walked-Opens path flags uid gid nodes fault f s' e = ground (arith, e)
  open_walked-Opens path flags uid gid nodes loops f s' e = ground (arith, e)

  -- If `open` gives a file, then the user may pass all nodes that the walk has gone through, and the file
  -- keeps the flags of the call. Either it is the node at the end of the path: no directory, one that the
  -- user may read and write as far as the flags ask for it, and write if it is cut to nothing. Or the end of
  -- the path was not found, the flags have `O_CREAT`, and the user may write the last directory of the walk.
  pub open_resource-Opens :
      (url : List ℕ) (flags uid gid : ℕ) (f : FileResource) (s s' : FileSystem)
      → open_resource is_utf8 fuel url flags uid gid s ≡ ok (file f) s'
      → let walked = path_nodes fuel (trimmed (is_utf8 url) url) s in
        Passes uid gid walked.0 × (f.flags ≡ flags) × Opens uid gid flags walked.0 f walked.1
  unfolding open_resource
  open_resource-Opens url flags uid gid f s s' e =
      let path = trimmed (is_utf8 url) url in
      let walked = path_nodes fuel path s in
      let passed : check_nodes uid gid walked.0 ≡ none =
        elim (Option-cases (check_nodes uid gid walked.0)) [
          | inl passed ↦ passed
          | inr (n, q) ↦
              let gone : refused n walked.1 ≡ ok (file f) s' = ground (arith, e, q) in
              absurd (refused-err n walked.1 (file f) s' gone)
        ] in
      let opened : open_walked is_utf8 fuel path flags uid gid walked.0 walked.1 ≡ ok (file f) s' =
        ground (arith, e, passed) in
      let (same, opens) = open_walked-Opens path flags uid gid walked.0 walked.1 f s' opened in
      (check_nodes-Passes uid gid walked.0 passed, same, opens)

  checked-Passes :
      (path : List ℕ) (uid gid : ℕ) (d : Found) (s t : FileSystem)
      → checked is_utf8 fuel path uid gid s ≡ ok d t
      → let walked = path_nodes fuel path s in Passes uid gid walked.0 × (walked.1 ≡ ok d t)
  unfolding checked
  checked-Passes path uid gid d s t e =
      let walked = path_nodes fuel path s in
      let passed : check_nodes uid gid walked.0 ≡ none =
        elim (Option-cases (check_nodes uid gid walked.0)) [
          | inl passed ↦ passed
          | inr (n, q) ↦
              let gone : refused n walked.1 ≡ ok d t = ground (arith, e, q) in
              absurd (refused-err n walked.1 d t gone)
        ] in
      (check_nodes-Passes uid gid walked.0 passed, ground (arith, e, passed))

  -- If `chmod` succeeds, it returns 0; the user may pass the nodes before the node of the path, and owns that
  -- node or is user 0; and the file system differs from that after the walk in the mode of this node alone,
  -- whose permission bits are those of the call.
  pub chmod_lem :
      (url : List ℕ) (mode uid gid r : ℕ) (s s' : FileSystem)
      → chmod is_utf8 fuel url mode uid gid s ≡ ok r s'
      → let walked = path_nodes fuel (trimmed (is_utf8 url) url) s in
        (b : ℕ) × (n : Node) × (t : FileSystem) × (walked.1 ≡ ok (b, n) t)
        × (r ≡ 0)
        × Passes uid gid walked.0
        × ((n.uid ≡ uid) ⊎ (uid ≡ 0))
        × (s'
            ≡ written b
                (record n { mode = bit_or (bit_and n.mode 0xF000) (bit_and mode mode_perm) })
                t)
  unfolding chmod write_at
  chmod_lem url mode uid gid r s s' e =
      elim (Run-cases (checked is_utf8 fuel (trimmed (is_utf8 url) url) uid gid s)) [
        | inl (d, t, q) ↦
            let (passes, walked) = checked-Passes (trimmed (is_utf8 url) url) uid gid d s t q in
            (
              d.0,
              d.1,
              t,
              walked,
              ground (arith, e, q),
              passes,
              ground (arith, e, q),
              ground (arith, e, q),
            )
        | inr q ↦ absurd (ground (arith, e, q))
      ]
