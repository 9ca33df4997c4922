-- ===== src/Futex/Tests.antt =====
-- Runs of the futex operations, and the theorems about them at concrete lists.
use origel.Base.{
  ◌==◌, if◌then◌else◌, ℕ, ◌+◌, min, ◌≡◌, refl, ◌≢◌, Option, none, some, [], ◌∷◌, ◌++◌, arith,
}
use origel.Base.Map.{lookup}
use origel.Syscall.Error.{ok, err, eagain, einval}
use origel.Context.{new_context, block}
use origel.Context.Machine.{Machine, block_current}
use origel.Context.Machine.Wake.{woken?}
use origel.Futex.{
  FutexList, Outcome, returns, sleeps, futex, futex_wake_call, wake_loop, wake_entry,
  swap_remove_back, pop_back, requeue_rest,
}
use origel.Futex.Count.{count}
use origel.Futex.Calls.{at, is, futex_wake_lem}

abbrev machine : Machine
machine = record {
  contexts = (1, new_context 1) ∷ (2, new_context 2) ∷ (3, new_context 3) ∷ (4, new_context 4) ∷ [];
  current = 4;
  cpu = 0;
  interrupts = [];
}

-- Contexts 1 and 3 wait on the address 80, context 2 on the address 90.
abbrev waiting : FutexList
waiting = (80, 1) ∷ (90, 2) ∷ (80, 3) ∷ []

abbrev list_of : Option (Outcome × FutexList × Machine) → Option (Outcome × FutexList)
list_of none = none
list_of (some (o, l, m)) = some (o, l)

wakes_one :
    list_of (futex 80 0 1 1 0 (err einval) waiting machine)
    ≡ some (returns (ok 1), (80, 3) ∷ (90, 2) ∷ [])
unfolding futex wake_loop wake_entry swap_remove_back pop_back
wakes_one = refl

requeues :
    list_of (futex 80 0 2 0 5 (ok 70) waiting machine)
    ≡ some (returns (ok 0), (70, 1) ∷ (90, 2) ∷ (70, 3) ∷ [])
unfolding futex wake_loop requeue_rest
requeues = refl

waits :
    list_of (futex 80 7 0 7 0 (err einval) waiting machine)
    ≡ some (sleeps, waiting ++ ((80, 4) ∷ []))
unfolding futex block_current lookup new_context block
waits = refl

refuses_changed :
    list_of (futex 80 6 0 7 0 (err einval) waiting machine) ≡ some (returns (err eagain), waiting)
unfolding futex block_current lookup new_context block
refuses_changed = refl

futex_wake_lem_example :
    (n : ℕ) × (l' : FutexList) × (m' : Machine) × (futex_wake_call 80 1 waiting machine
      ≡ some (n, l', m'))
    × (n ≡ min 1 (count (at 80) waiting))
    × (count (at 80) l' + n ≡ count (at 80) waiting)
    × ((a id : ℕ) → a ≢ 80 → count (is a id) l' ≡ count (is a id) waiting)
    × ((id : ℕ)
        → lookup id m'.contexts ≡ (
            if count (is 80 id) l' == count (is 80 id) waiting
            then lookup id machine.contexts
            else woken? (lookup id machine.contexts)))
futex_wake_lem_example = futex_wake_lem 80 1 waiting machine (omega arith)
