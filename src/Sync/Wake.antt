-- ===== src/Sync/Wake.antt =====
-- kernel/sync/wait_condition.rs: who runs again after a notification.
use origel.Base.{◌==◌, if◌then◌else◌, length, ℕ, ◌≡◌, refl, Bool, false, ◌||◌, List, [], ◌∷◌, arith}
use origel.Base.Map.{lookup}
use origel.Context.Machine.{Machine}
use origel.Context.Machine.Wake.{woken?, woken-woken, lookup-unblock_context}
use origel.Sync.{unblock_all, notify}

abbrev pub mem : ℕ → List ℕ → Bool
mem i [] = false
mem i (j ∷ js) = i == j || mem i js

lookup-unblock_all :
    (j : ℕ) (ids : List ℕ) (m : Machine)
    → lookup j (unblock_all ids m).contexts
      ≡ (if mem j ids then woken? (lookup j m.contexts) else lookup j m.contexts)
unfolding unblock_all
lookup-unblock_all j [] m = refl
lookup-unblock_all j (id ∷ ids) m = ground (
  arith,
  lookup-unblock_context j id (unblock_all ids m),
  lookup-unblock_all j ids m,
  woken-woken (lookup j m.contexts),
)

-- After `notify` nobody waits any more; every context that waited, if it was blocked, is runnable,
-- with nothing else of it changed; and all other contexts are as they were.
pub notify_lem :
    (waiting : List ℕ) (m : Machine)
    → let (n, left, m') = notify waiting m in
      (left ≡ [])
      × (n ≡ length waiting)
      × ((j : ℕ)
          → lookup j m'.contexts
            ≡ (if mem j waiting then woken? (lookup j m.contexts) else lookup j m.contexts))
unfolding notify
notify_lem waiting m = (refl, refl, λ j. lookup-unblock_all j waiting m)
