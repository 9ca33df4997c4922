-- ===== src/Context/Machine.antt =====
-- kernel/context/list.rs and the state of kernel/context/mod.rs: the list of contexts, the one that
-- runs, and the interrupts sent to other processors.
pub mod Wake
pub mod Block
pub mod Ids
mod Tests
use origel.Base.{
  leb, if◌then◌else◌, length, ℕ, suc, ◌+◌, ◌-◌, ◌^◌, Option, none, some, List, [], ◌∷◌,
}
use origel.Base.Map.Free.{free_key}
use origel.Base.Map.{Map, lookup, insert, remove, contains_key}
use origel.Syscall.Error.{Result, ok, err, eagain}
use origel.Context.{Context, new_context, block, unblock}

pub record ContextList : Type 0 where
  pub map : Map Context
  pub next_id : ℕ

-- `ContextList::new`
pub new : ContextList
new = record { map = []; next_id = 1 }

-- `CONTEXT_MAX_CONTEXTS`: `usize::max_value() - 1`
abbrev pub context_max_contexts : ℕ
context_max_contexts = 2 ^ 64 - 2

-- `ContextList::new_context`, with the id of the new context. One more round than there are
-- contexts is enough for the scan of the ids. Its sums do not wrap: a list of all the ids does not
-- fit in memory.
pub create : ContextList → Result (ℕ × ContextList)
unfolding new_context
create l =
    let first = if leb context_max_contexts l.next_id then 1 else l.next_id in
    let id = free_key (suc (length l.map)) l.map first in
    if leb context_max_contexts id
    then err eagain
    else ok (id, record { map = insert id (new_context id) l.map; next_id = id + 1 })

-- `ContextList::remove`
pub delete : ℕ → ContextList → Option Context × ContextList
delete id l = (lookup id l.map, record l { map = remove id l.map })

-- A processor: the contexts, the running one, the processor's number, and the numbers of the
-- processors that it has sent an interrupt, the latest first.
pub record Machine : Type 0 where
  pub contexts : Map Context
  pub current : ℕ
  pub cpu : ℕ
  pub interrupts : List ℕ

abbrev send_to : Option ℕ → List ℕ → List ℕ
send_to none l = l
send_to (some cpu) l = cpu ∷ l

-- `context_lock.write().unblock()` on a context of the list.
pub unblock_context : ℕ → Machine → Machine
unfolding unblock
unblock_context id m = elim (lookup id m.contexts) [
  | none ↦ m
  | some c ↦
      let (_, target, c') = unblock m.cpu c in
      record m { contexts = insert id c' m.contexts; interrupts = send_to target m.interrupts }
]

-- `context_lock.write().block()` on the running context; `none` if there is none.
unfoldable pub block_current : Machine → Option Machine
unfolding block
block_current m = elim (lookup m.current m.contexts) [
  | none ↦ none
  | some c ↦ some (record m { contexts = insert m.current (block c).1 m.contexts })
]
