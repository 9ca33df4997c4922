-- ===== src/Futex.antt =====
-- kernel/syscall/futex.rs: the list of the contexts that wait on an address, and the three
-- operations. The list's lock is held through an operation, so each is one step. Addresses are
-- numbers; the value at the address, and what `validate_slice_mut` says of a second one, are
-- arguments.
pub mod Count
pub mod Calls
mod Tests
use origel.Base.{
  ltb, ◌==◌, if◌then◌else◌, length, get_elem?, take, drop, ℕ, zero, suc, ◌+◌, ◌%◌, ◌^◌, Bool,
  Option, none, some, List, [], ◌∷◌, ◌++◌,
}
use origel.Syscall.Error.{Result, ok, err, esrch, eagain, einval}
use origel.Syscall.Flag.{futex_wait, futex_wake, futex_requeue}
use origel.Context.Machine.{Machine, unblock_context, block_current}

-- `FutexList`: the address and the context of each that waits.
abbrev pub FutexList : Type 0
FutexList = List (ℕ × ℕ)

-- `<` of two `i32`, given as their 32 bits.
abbrev pub less_i32 : ℕ → ℕ → Bool
less_i32 a b = ltb ((a + 2 ^ 31) % 2 ^ 32) ((b + 2 ^ 31) % 2 ^ 32)

-- A list without its last entry, and that entry.
pub pop_back : FutexList → Option (FutexList × (ℕ × ℕ))
pop_back [] = none
pop_back (x ∷ l) = elim (pop_back l) [ none ↦ some ([], x) | some (l', y) ↦ some (x ∷ l', y) ]

-- `VecDeque::swap_remove_back`: the last entry takes the place of the one removed.
pub swap_remove_back : ℕ → FutexList → FutexList
unfolding pop_back
swap_remove_back i [] = []
swap_remove_back zero (x ∷ l) = elim (pop_back l) [ none ↦ [] | some (l', y) ↦ y ∷ l' ]
swap_remove_back (suc i) (x ∷ l) = x ∷ swap_remove_back i l

-- How far an operation has come: the index, the number of contexts woken, the list, the machine.
pub record Round : Type 0 where
  pub i : ℕ
  pub woken : ℕ
  pub list : FutexList
  pub machine : Machine

-- The body of the loop of `FUTEX_WAKE`, on the entry at the index.
pub wake_entry : ℕ → ℕ × ℕ → Round → Round
unfolding swap_remove_back
wake_entry addr (a, id) r =
    if a == addr
    then record {
      i = r.i;
      woken = r.woken + 1;
      list = swap_remove_back r.i r.list;
      machine = unblock_context id r.machine;
    }
    else record r { i = r.i + 1 }

-- The loop: `none` is fuel that ran out.
pub wake_loop : ℕ → ℕ → ℕ → Round → Option Round
unfolding wake_entry
wake_loop zero addr val r = none
wake_loop (suc fuel) addr val r =
    if less_i32 (r.woken % 2 ^ 32) val
    then elim (get_elem? r.list r.i) [
      | none ↦ some r
      | some e ↦ wake_loop fuel addr val (wake_entry addr e r)
    ]
    else some r

-- The second loop of `FUTEX_REQUEUE`: the entries from the index on, and how many may still move.
pub requeue_rest : ℕ → ℕ → ℕ → FutexList → FutexList
requeue_rest addr addr2 zero l = l
requeue_rest addr addr2 (suc n) [] = []
requeue_rest addr addr2 (suc n) ((a, id) ∷ l) =
    if a == addr
    then (addr2, id) ∷ requeue_rest addr addr2 n l
    else (a, id) ∷ requeue_rest addr addr2 (suc n) l

abbrev pub requeue : ℕ → ℕ → ℕ → ℕ → FutexList → FutexList
requeue i addr addr2 n l = take i l ++ requeue_rest addr addr2 n (drop i l)

-- What a call comes to: a result, or a sleep, after which it returns 0.
pub data Outcome : Type 0 where
  returns : Result ℕ → Outcome
  sleeps : Outcome

abbrev pub first : FutexList → Machine → Round
first l m = record { i = 0; woken = 0; list = l; machine = m }

-- `FUTEX_WAIT`, where the word at the address is `word`.
pub futex_wait_call : ℕ → ℕ → ℕ → FutexList → Machine → Outcome × FutexList × Machine
futex_wait_call addr word val l m = elim (block_current m) [
  | none ↦ (returns (err esrch), l, m)
  | some m' ↦
      (if word == val
        then (sleeps, l ++ ((addr, m.current) ∷ []), m')
        else (returns (err eagain), l, m))
]

-- `FUTEX_WAKE`. One more round than there are entries is enough for the loop.
pub futex_wake_call : ℕ → ℕ → FutexList → Machine → Option (ℕ × FutexList × Machine)
unfolding wake_loop
futex_wake_call addr val l m = elim (wake_loop (suc (length l)) addr val (first l m)) [
  | none ↦ none
  | some r ↦ some (r.woken, r.list, r.machine)
]

-- `FUTEX_REQUEUE`, to the address that `validate_slice_mut` gave.
pub futex_requeue_call : ℕ → ℕ → ℕ → ℕ → FutexList → Machine → Option (ℕ × FutexList × Machine)
unfolding wake_loop requeue_rest
futex_requeue_call addr val val2 addr2 l m =
    elim (wake_loop (suc (length l)) addr val (first l m)) [
      | none ↦ none
      | some r ↦ some (r.woken, requeue r.i addr addr2 val2 r.list, r.machine)
    ]

abbrev finish : Option (ℕ × FutexList × Machine) → Option (Outcome × FutexList × Machine)
finish none = none
finish (some (n, l', m')) = some (returns (ok n), l', m')

-- `futex`; `none` would be a loop that does not end.
pub futex :
    ℕ → ℕ → ℕ → ℕ → ℕ → Result ℕ → FutexList → Machine → Option (Outcome × FutexList × Machine)
unfolding futex_wait_call futex_wake_call futex_requeue_call
futex addr word op val val2 addr2 l m =
    if op == futex_wait
    then some (futex_wait_call addr word val l m)
    else if op == futex_wake
    then finish (futex_wake_call addr val l m)
    else if op == futex_requeue
    then elim addr2 [
      | err e ↦ some (returns (err e), l, m)
      | ok to ↦ finish (futex_requeue_call addr val val2 to l m)
    ]
    else some (returns (err einval), l, m)
