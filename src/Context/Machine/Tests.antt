-- ===== src/Context/Machine/Tests.antt =====
-- Runs of the list of contexts, and the theorems about it at concrete lists.
use origel.Base.{◌≡◌, refl, [], ◌∷◌, map}
use origel.Base.Map.{lookup, insert}
use origel.Syscall.Error.{ok}
use origel.Context.{new_context}
use origel.Context.Machine.{ContextList, create, new}

-- The first context has the id 1.
abbrev one : ContextList
one = record { map = (1, new_context 1) ∷ []; next_id = 2 }

abbrev two : ContextList
two = record { map = (1, new_context 1) ∷ (2, new_context 2) ∷ []; next_id = 3 }

new_first : create new ≡ ok (1, one)
unfolding create new origel.Base.Map.Free.free_key origel.Base.Map.contains_key lookup insert
new_first = refl
