-- ===== src/Context/Machine/Ids.antt =====
-- kernel/context/list.rs: the ids of new contexts.
use origel.Base.{
  leb, ◌==◌, if◌then◌else◌, Bool-cases, length, ℕ, suc, ◌+◌, ◌<◌, ◌≡◌, inl, inr, none, some, arith,
}
use origel.Base.Map.{lookup-remove, lookup, insert, lookup-insert}
use origel.Base.Map.Free.{free_key, free_key_lem, lookup_of_not_contains}
use origel.Syscall.Error.{Result, ok, err, eagain}
use origel.Context.{new_context}
use origel.Context.Machine.{ContextList, create, delete, context_max_contexts}

-- What a new context may come to: the list of the ids is full, or a context under an id that no
-- other one has.
pub data Creates (l : ContextList) (r : Result (ℕ × ContextList)) : Type 0 where
  created :
      (id : ℕ) (l' : ContextList)
      → r ≡ ok (id, l')
      → id < context_max_contexts
      → lookup id l.map ≡ none
      → ((j : ℕ) → lookup j l'.map ≡ (if j == id then some (new_context id) else lookup j l.map))
      → Creates l r
  full : r ≡ err eagain → Creates l r

abbrev first_id : ContextList → ℕ
first_id l =
    free_key (suc (length l.map)) l.map
      (if leb context_max_contexts l.next_id then 1 else l.next_id)

first_id_free : (l : ContextList) → lookup (first_id l) l.map ≡ none
first_id_free l = lookup_of_not_contains (first_id l) l.map (
    free_key_lem (suc (length l.map)) l.map
      (if leb context_max_contexts l.next_id then 1 else l.next_id) (omega arith))

-- A new context never takes the place of another one: its id is below the limit and was free, it
-- stands under it in its first state, and every other context is as it was.
pub create-Creates : (l : ContextList) → Creates l (create l)
unfolding create
create-Creates l = elim (Bool-cases (leb context_max_contexts (first_id l))) [
  | inl e ↦ full (rw e)
  | inr e ↦
      created (first_id l)
        (record {
          map = insert (first_id l) (new_context (first_id l)) l.map;
          next_id = first_id l + 1;
        })
        (rw e) (ground arith) (first_id_free l)
        (λ j. lookup-insert (first_id l) j (new_context (first_id l)) l.map)
]

create-inv :
    (l : ContextList) (id : ℕ) (l' : ContextList)
    → create l ≡ ok (id, l')
    → (lookup id l.map ≡ none)
      × ((j : ℕ) → lookup j l'.map ≡ (if j == id then some (new_context id) else lookup j l.map))
create-inv l id l' e = split (create-Creates l)
  where
    split :
        Creates l (create l)
        → (lookup id l.map ≡ none)
          × ((j : ℕ)
              → lookup j l'.map ≡ (if j == id then some (new_context id) else lookup j l.map))
    split (full q) = absurd (ground arith)
    split (created i k q b f h) = (ground arith, λ j. ground (arith, h j))

-- Removing a context that was just made gives that context back, and leaves every id standing for
-- what it stood for before.
pub delete-create :
    (l : ContextList) (id : ℕ) (l' : ContextList)
    → create l ≡ ok (id, l')
    → ((delete id l').0 ≡ some (new_context id))
      × ((j : ℕ) → lookup j (delete id l').1.map ≡ lookup j l.map)
unfolding delete
delete-create l id l' e =
    let (fresh, h) = create-inv l id l' e in
    (ground (arith, h id), λ j. ground (arith, lookup-remove id j l'.map, h j, fresh))
