-- ===== src/Context/Tests.antt =====
-- Runs of the context functions, and the theorems about them at concrete contexts.
use origel.Base.{ℕ, ◌≡◌, refl, true, false, Option, none, some, List, [], ◌∷◌, ◌++◌}
use origel.Context.{
  Context, runnable, File, new_context, position, rposition, starts_with, ends_with_slash, parent,
  scheme_part, canonicalize, block, fill_slot, add_file,
}
use origel.Context.Directory.{Within, canonicalize-Within}

-- "file"
abbrev scheme : List ℕ
scheme = b'f' ∷ b'i' ∷ b'l' ∷ b'e' ∷ []

-- A context in "file:/a/b".
abbrev shell : Context
shell = record {
  id = 1;
  ppid = 0;
  ruid = 0;
  rgid = 0;
  rns = 0;
  euid = 0;
  egid = 0;
  ens = 0;
  status = runnable;
  cpu_id = none;
  vfork = false;
  cwd = scheme ++ (b':' ∷ b'/' ∷ b'a' ∷ b'/' ∷ b'b' ∷ []);
  files = [];
}

-- "../c"
abbrev sibling : List ℕ
sibling = b'.' ∷ b'.' ∷ b'/' ∷ b'c' ∷ []

canonicalize-sibling :
    canonicalize shell sibling ≡ some (scheme ++ (b':' ∷ b'/' ∷ b'a' ∷ b'/' ∷ b'c' ∷ []))
unfolding canonicalize position rposition starts_with ends_with_slash parent
canonicalize-sibling = refl

canonicalize_root :
    canonicalize shell (b'/' ∷ b'c' ∷ []) ≡ some (scheme ++ (b':' ∷ b'/' ∷ b'c' ∷ []))
unfolding canonicalize position rposition starts_with scheme_part
canonicalize_root = refl

-- The first context has no working directory yet.
canonicalize_panics : canonicalize (new_context 1) (b'.' ∷ b'.' ∷ []) ≡ none
unfolding canonicalize position parent new_context
canonicalize_panics = refl

blocks_once : (block shell).0 ≡ true
unfolding block
blocks_once = refl

canonicalize-Within_example :
    (canon : List ℕ) × (canonicalize shell sibling ≡ some canon) × Within scheme canon
unfolding position
canonicalize-Within_example =
    canonicalize-Within shell scheme sibling (refl, (refl, (refl, (refl, tt))))
      (b'/' ∷ b'a' ∷ b'/' ∷ b'b' ∷ [], refl) refl

abbrev opened : ℕ → File
opened n = record { scheme = 3; number = n; event = none }

abbrev table : List (Option File)
table = some (opened 5) ∷ none ∷ some (opened 7) ∷ none ∷ []

add_file_lowest :
    add_file (opened 9) table
    ≡ some (1, some (opened 5) ∷ some (opened 9) ∷ some (opened 7) ∷ none ∷ [])
unfolding add_file fill_slot
add_file_lowest = refl
