-- ===== src/Futex/Count.antt =====
-- kernel/syscall/futex.rs: who waits after entries are removed or moved.
use origel.Base.{
  ◌==◌, if◌then◌else◌, length, get_elem?, take, drop, take-append-drop, ℕ, zero, suc, ◌+◌, ◌<◌, ◌≡◌,
  refl, ap, ◌∙◌, Bool, Option, none, some, [], ◌∷◌, ◌++◌, arith,
}
use origel.Futex.{FutexList, pop_back, swap_remove_back, requeue_rest, requeue}

-- How many entries pass a test: the list as a multiset.
pub count : (ℕ × ℕ → Bool) → FutexList → ℕ
count p [] = 0
count p (x ∷ l) = (if p x then 1 else 0) + count p l

abbrev pub one_if : Bool → ℕ
one_if b = if b then 1 else 0

abbrev Popped : (ℕ × ℕ → Bool) → FutexList → Option (FutexList × (ℕ × ℕ)) → Type 0
Popped p l none = l ≡ []
Popped p l (some (l', y)) = (count p l ≡ count p l' + one_if (p y)) × (length l ≡ suc (length l'))

Popped-step :
    (p : ℕ × ℕ → Bool) (x : ℕ × ℕ) (l : FutexList) (o : Option (FutexList × (ℕ × ℕ)))
    → Popped p l o
    → Popped p (x ∷ l) (elim o [ none ↦ some ([], x) | some (l', y) ↦ some (x ∷ l', y) ])
unfolding count
Popped-step p x l none h = (rw h (omega arith), rw h refl)
Popped-step p x l (some (l', y)) h = (omega (arith, h.0), omega (arith, h.1))

pop_back-Popped : (p : ℕ × ℕ → Bool) (l : FutexList) → Popped p l (pop_back l)
unfolding pop_back
pop_back-Popped p [] = refl
pop_back-Popped p (x ∷ l) = Popped-step p x l (pop_back l) (pop_back-Popped p l)

abbrev Removed : (ℕ × ℕ → Bool) → ℕ × ℕ → FutexList → FutexList → Type 0
Removed p e l l' = (count p l ≡ count p l' + one_if (p e)) × (length l ≡ suc (length l'))

swap_first :
    (p : ℕ × ℕ → Bool) (e : ℕ × ℕ) (l : FutexList) (o : Option (FutexList × (ℕ × ℕ)))
    → Popped p l o
    → Removed p e (e ∷ l) (elim o [ none ↦ [] | some (l', y) ↦ y ∷ l' ])
unfolding count
swap_first p e l none h = (rw h (omega arith), rw h refl)
swap_first p e l (some (l', y)) h = (omega (arith, h.0), omega (arith, h.1))

-- Removing the entry at an index takes away this entry, and no other.
pub swap_remove_back-Removed :
    (p : ℕ × ℕ → Bool) (i : ℕ) (e : ℕ × ℕ) (l : FutexList)
    → get_elem? l i ≡ some e
    → (count p l ≡ count p (swap_remove_back i l) + one_if (p e))
      × (length l ≡ suc (length (swap_remove_back i l)))
unfolding swap_remove_back count
swap_remove_back-Removed p i e [] h = absurd (ground arith)
swap_remove_back-Removed p zero e (x ∷ l) h =
    ground (arith, swap_first p x l (pop_back l) (pop_back-Popped p l))
swap_remove_back-Removed p (suc i) e (x ∷ l) h =
    let (c, n) = swap_remove_back-Removed p i e l h in (omega (arith, c), omega (arith, n))

-- The entries from an index on.
pub drop-swap_remove_back :
    (i : ℕ) (l : FutexList) → drop i (swap_remove_back i l) ≡ swap_remove_back 0 (drop i l)
unfolding swap_remove_back
drop-swap_remove_back zero l = refl
drop-swap_remove_back (suc i) [] = refl
drop-swap_remove_back (suc i) (x ∷ l) = drop-swap_remove_back i l

pub get_elem?-drop : (i : ℕ) (l : FutexList) → get_elem? (drop i l) 0 ≡ get_elem? l i
get_elem?-drop zero l = refl
get_elem?-drop (suc i) [] = refl
get_elem?-drop (suc i) (x ∷ l) = get_elem?-drop i l

pub count-drop-some :
    (p : ℕ × ℕ → Bool) (i : ℕ) (e : ℕ × ℕ) (l : FutexList)
    → get_elem? l i ≡ some e
    → (count p (drop i l) ≡ one_if (p e) + count p (drop (suc i) l)) × (i < length l)
unfolding count
count-drop-some p i e [] h = absurd (ground arith)
count-drop-some p zero e (x ∷ l) h = (ground arith, omega arith)
count-drop-some p (suc i) e (x ∷ l) h =
    let (c, n) = count-drop-some p i e l h in (c, omega (arith, n))

pub count-drop-none :
    (p : ℕ × ℕ → Bool) (i : ℕ) (l : FutexList) → get_elem? l i ≡ none → count p (drop i l) ≡ 0
unfolding count
count-drop-none p zero [] h = refl
count-drop-none p (suc i) [] h = refl
count-drop-none p zero (x ∷ l) h = absurd (ground arith)
count-drop-none p (suc i) (x ∷ l) h = count-drop-none p i l h

-- The entries of a context, at any address.
abbrev pub of : ℕ → ℕ × ℕ → Bool
of id e = e.1 == id

count-requeue_rest :
    (addr addr2 n id : ℕ) (l : FutexList)
    → count (of id) (requeue_rest addr addr2 n l) ≡ count (of id) l
unfolding count requeue_rest
count-requeue_rest addr addr2 zero id l = refl
count-requeue_rest addr addr2 (suc n) id [] = refl
count-requeue_rest addr addr2 (suc n) id ((a, j) ∷ l) =
    ground (arith, count-requeue_rest addr addr2 n id l, count-requeue_rest addr addr2 (suc n) id l)

count-append : (p : ℕ × ℕ → Bool) (l l' : FutexList) → count p (l ++ l') ≡ count p l + count p l'
unfolding count
count-append p [] l' = omega arith
count-append p (x ∷ l) l' = omega (arith, count-append p l l')

-- The second loop of `FUTEX_REQUEUE` makes no context wait that did not, and lets none go: it only
-- moves entries to another address.
pub count-requeue :
    (i addr addr2 n id : ℕ) (l : FutexList)
    → count (of id) (requeue i addr addr2 n l) ≡ count (of id) l
count-requeue i addr addr2 n id l =
    count-append (of id) (take i l) (requeue_rest addr addr2 n (drop i l))
    ∙ omega (
      arith,
      count-requeue_rest addr addr2 n id (drop i l),
      count-append (of id) (take i l) (drop i l),
      ap (count (of id)) (take-append-drop i l),
    )
