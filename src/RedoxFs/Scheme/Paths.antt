-- ===== src/RedoxFs/Scheme/Paths.antt =====
-- schemes/redoxfs/src/filesystem.rs: `path_nodes`, the walk along a path.
use origel.Base.{if◌then◌else◌, ℕ, not, Option, none, some, List, [], ◌∷◌}
use origel.Base.Text.{split}
use origel.Syscall.Error.{eacces, enotdir}
use origel.RedoxFs.Node.{Node, is_dir, permission}
use origel.RedoxFs.FileSystem.{FileSystem, Run, ok, err, fault, loops, node, find_node}

abbrev pub Found : Type 0
Found = ℕ × Node

-- The nodes that the walk leaves in its vector, and its result.
abbrev pub Walked : Type 0
Walked = List Found × Run Found

-- The walk goes on to the child, or ends at the node `at`.
abbrev pub enter : Found → (Found → FileSystem → Walked) → Run Found → Walked
enter at go (ok child s) = let (nodes, r) = go child s in (at ∷ nodes, r)
enter at go (err e s) = (at ∷ [], err e s)
enter at go fault = (at ∷ [], fault)
enter at go loops = (at ∷ [], loops)

-- The loop of `path_nodes` from the node `at`; `fuel` is for each of its calls of `find_node`.
unfoldable pub walk : ℕ → List (List ℕ) → Found → FileSystem → Walked
walk fuel [] at s = ([], ok at s)
walk fuel ([] ∷ parts) at s = walk fuel parts at s
walk fuel ((c ∷ cs) ∷ parts) at s = enter at (walk fuel parts) (find_node fuel (c ∷ cs) at.0 s)

abbrev pub walk_from : ℕ → List (List ℕ) → ℕ → Run Node → Walked
walk_from fuel parts root (ok n s) = walk fuel parts (root, n) s
walk_from fuel parts root (err e s) = ([], err e s)
walk_from fuel parts root fault = ([], fault)
walk_from fuel parts root loops = ([], loops)

-- `FileSystem::path_nodes`
unfoldable pub path_nodes : ℕ → List ℕ → FileSystem → Walked
path_nodes fuel path s = walk_from fuel (split b'/' path) s.header.root (node s.header.root s)

-- The loop over the nodes that the calls of the scheme start with: the error that it returns.
unfoldable pub check_nodes : (uid gid : ℕ) → List Found → Option ℕ
check_nodes uid gid [] = none
check_nodes uid gid ((_, n) ∷ nodes) =
    let rest = check_nodes uid gid nodes in
    if not (permission n uid gid 1)
    then some eacces
    else if not (is_dir n)
    then some enotdir
    else rest
