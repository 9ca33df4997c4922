-- ===== src/Context/Table.antt =====
-- kernel/context/context.rs: the table of open files that `add_file`, `get_file` and `remove_file`
-- keep.
use origel.Base.{
  ltb, if◌then◌else◌, ltb→lt, length, get_elem?, set, length-append, get_elem?-set_ne, ℕ, zero, suc,
  ◌≤◌, ◌≡◌, refl, sym, ap, ◌≢◌, Bool, true, false, Option, none, some, List, [], ◌∷◌, ◌++◌, arith,
}
use origel.Context.{File, context_max_files, fill_slot, add_file, get_file, remove_file, flat}

-- The slots below `n` are taken.
abbrev pub Full : ℕ → List (Option File) → Type 0
Full zero fs = Unit {0}
Full (suc n) [] = ⊥
Full (suc n) (none ∷ fs) = ⊥
Full (suc n) (some f ∷ fs) = Full n fs

-- What a successful `add_file` has done: the lowest free slot, and no other, holds the file.
pub record Added (f : File) (fs : List (Option File)) (i : ℕ) (fs' : List (Option File))
    : Type 0 where
  pub placed : get_file i fs' ≡ some f
  pub was_free : get_file i fs ≡ none
  pub lowest : Full i fs
  pub others : (j : ℕ) → j ≢ i → get_file j fs' ≡ get_file j fs
  pub limit : length fs ≤ context_max_files → length fs' ≤ context_max_files

-- What the scan finds: a free slot, or that every slot is taken.
abbrev Filled : File → List (Option File) → Option (ℕ × List (Option File)) → Type 0
Filled f fs none = Full (length fs) fs
Filled f fs (some (i, fs')) = Added f fs i fs' × (length fs' ≡ length fs)

others_zero :
    (f : File) (fs : List (Option File)) (j : ℕ)
    → j ≢ 0
    → get_file j (some f ∷ fs) ≡ get_file j (none ∷ fs)
unfolding get_file
others_zero f fs zero h = absurd (h refl)
others_zero f fs (suc j) h = refl

others_suc :
    (g : File) (fs fs' : List (Option File)) (i : ℕ)
    → ((j : ℕ) → j ≢ i → get_file j fs' ≡ get_file j fs)
    → (j : ℕ) → j ≢ suc i
    → get_file j (some g ∷ fs') ≡ get_file j (some g ∷ fs)
unfolding get_file
others_suc g fs fs' i h zero ne = refl
others_suc g fs fs' i h (suc j) ne = h j (λ e. ne (ap suc e))

fill_suc :
    (f g : File) (fs : List (Option File)) (r : Option (ℕ × List (Option File)))
    → Filled f fs r
    → Filled f (some g ∷ fs) (elim r [ none ↦ none | some (i, fs') ↦ some (suc i, some g ∷ fs') ])
unfolding get_file
fill_suc f g fs none h = h
fill_suc f g fs (some (i, fs')) (a, l) = (
  record {
    placed = a.placed;
    was_free = a.was_free;
    lowest = a.lowest;
    others = others_suc g fs fs' i a.others;
    limit = omega (arith, l);
  },
  ap suc l,
)

fill_slot-Filled : (f : File) (fs : List (Option File)) → Filled f fs (fill_slot f fs)
unfolding fill_slot get_file
fill_slot-Filled f [] = tt
fill_slot-Filled f (none ∷ fs) = (
  record { placed = refl; was_free = refl; lowest = tt; others = others_zero f fs; limit = λ h. h },
  refl,
)
fill_slot-Filled f (some g ∷ fs) = fill_suc f g fs (fill_slot f fs) (fill_slot-Filled f fs)

placed_end :
    (f : File) (fs : List (Option File)) → get_file (length fs) (fs ++ (some f ∷ [])) ≡ some f
unfolding get_file
placed_end f [] = refl
placed_end f (g ∷ fs) = placed_end f fs

free_end : (fs : List (Option File)) → get_file (length fs) fs ≡ none
unfolding get_file
free_end [] = refl
free_end (g ∷ fs) = free_end fs

others_end :
    (f : File) (fs : List (Option File)) (j : ℕ)
    → j ≢ length fs
    → get_file j (fs ++ (some f ∷ [])) ≡ get_file j fs
unfolding get_file
others_end f [] zero h = absurd (h refl)
others_end f [] (suc j) h = refl
others_end f (g ∷ fs) zero h = refl
others_end f (g ∷ fs) (suc j) h = others_end f fs j (λ e. h (ap suc e))

-- What `add_file` returns: a descriptor, or that all the slots of a full table are taken.
abbrev pub Adds : File → List (Option File) → Option (ℕ × List (Option File)) → Type 0
Adds f fs none = Full (length fs) fs × (context_max_files ≤ length fs)
Adds f fs (some (i, fs')) = Added f fs i fs'

add_end :
    (f : File) (fs : List (Option File)) (b : Bool)
    → ltb (length fs) context_max_files ≡ b
    → Full (length fs) fs
    → Adds f fs (if b then some (length fs, fs ++ (some f ∷ [])) else none)
add_end f fs true e h = record {
  placed = placed_end f fs;
  was_free = free_end fs;
  lowest = h;
  others = others_end f fs;
  limit =
      λ _. omega (arith, ltb→lt (length fs) context_max_files e, length-append fs (some f ∷ []));
}
add_end f fs false e h = (h, ground arith)

add_case :
    (f : File) (fs : List (Option File)) (r : Option (ℕ × List (Option File)))
    → Filled f fs r
    → Adds f fs (elim r [
      | some r ↦ some r
      | none ↦
          if ltb (length fs) context_max_files then some (length fs, fs ++ (some f ∷ [])) else none
    ])
add_case f fs none h = add_end f fs _ refl h
add_case f fs (some (i, fs')) h = h.0

-- `add_file` fails only on a table of `CONTEXT_MAX_FILES` slots with no free one. Otherwise it puts
-- the file in the lowest free slot, changes no other, and keeps the table within that limit.
pub add_file-Adds : (f : File) (fs : List (Option File)) → Adds f fs (add_file f fs)
unfolding add_file
add_file-Adds f fs = add_case f fs (fill_slot f fs) (fill_slot-Filled f fs)

-- `remove_file` hands out what `get_file` shows, empties that slot and leaves the others.
pub remove_file_lem :
    (i : ℕ) (fs : List (Option File))
    → let (f, fs') = remove_file i fs in
      (f ≡ get_file i fs)
      × (get_file i fs' ≡ none)
      × ((j : ℕ) → j ≢ i → get_file j fs' ≡ get_file j fs)
unfolding remove_file get_file
remove_file_lem i fs =
    (refl, emptied i fs, λ j h. ap flat (get_elem?-set_ne fs i j none (λ e. h (sym e))))
  where
    emptied : (i : ℕ) (fs : List (Option File)) → flat (get_elem? (set fs i none) i) ≡ none
    emptied i [] = refl
    emptied zero (f ∷ fs) = refl
    emptied (suc i) (f ∷ fs) = emptied i fs
