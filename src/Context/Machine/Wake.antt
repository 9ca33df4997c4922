-- ===== src/Context/Machine/Wake.antt =====
-- kernel/context/context.rs: `unblock`, on a context of the list.
use origel.Base.{
  ◌==◌, if◌then◌else◌, Option-cases, ℕ, ◌≡◌, refl, inl, inr, Option, none, some, arith,
}
use origel.Base.Map.{lookup, lookup-insert}
use origel.Context.{Context, runnable, blocked, unblock}
use origel.Context.Machine.{Machine, unblock_context}

-- A context after `unblock`.
abbrev pub woken : Context → Context
woken c = record c { status = elim c.status [ blocked ↦ runnable | s ↦ s ] }

abbrev pub woken? : Option Context → Option Context
woken? none = none
woken? (some c) = some (woken c)

unblock-woken : (here : ℕ) (c : Context) → (unblock here c).2 ≡ woken c
unfolding unblock
unblock-woken here c = ground arith

pub woken-woken : (o : Option Context) → woken? (woken? o) ≡ woken? o
woken-woken none = refl
woken-woken (some c) = ground arith

pub lookup-unblock_context :
    (j id : ℕ) (m : Machine)
    → lookup j (unblock_context id m).contexts
      ≡ (if j == id then woken? (lookup j m.contexts) else lookup j m.contexts)
unfolding unblock_context
lookup-unblock_context j id m = elim (Option-cases (lookup id m.contexts)) [
  | inl e ↦ ground arith
  | inr (c, e) ↦
      ground (arith, lookup-insert id j (unblock m.cpu c).2 m.contexts, unblock-woken m.cpu c)
]
