-- ===== src/Events.antt =====
-- kernel/context/event.rs and kernel/scheme/event.rs: which contexts hear of an event on a file, and the
-- scheme by which they read their events. The queue of a context's events is an object that the
-- registry and the scheme's handles refer to weakly: it stands in a table under the number of its
-- context, and has gone from there when the context has. A number that a new context gets again would find a
-- registration of the old one, which in the source has a queue that has gone: such runs are not modelled.
pub mod Registry
pub mod Delivery
mod Tests
use origel.Base.{
  if◌then◌else◌, ℕ, ◌+◌, ◌%◌, ◌^◌, Bool, true, false, Option, none, some, List, [], ◌∷◌,
}
use origel.Base.Map.{Map, lookup, insert, remove}
use origel.Base.Map.Pairs
use origel.Base.Map.Pairs.{PairMap}
use origel.Syscall.Error.{Result, ok, err, ebadf, esrch}
use origel.Context.Machine.{Machine}
use origel.Sync.{Outcome, done, sleeps, panics, WaitQueue, send, receive_into}

-- `Event`; its third field is the source's `data`.
pub record Event : Type 0 where
  pub id : ℕ
  pub flags : ℕ
  pub value : ℕ

-- `Registry`: by scheme and event the registrations, and these by context and file the queue.
abbrev pub Registrations : Type 0
Registrations = PairMap ℕ

abbrev pub Registry : Type 0
Registry = PairMap Registrations

abbrev pub or_none : Option Registrations → Registrations
or_none none = []
or_none (some entry) = entry

abbrev pub is_some {ℓ} : {A : Type ℓ} → Option A → Bool
is_some none = false
is_some (some _) = true

-- `register` by the context that runs: whether the registration is new.
pub register : ℕ → ℕ → ℕ → ℕ → Registry → Bool × Registry
register context fd scheme event r =
    let entry = or_none (Pairs.lookup (scheme, event) r) in
    if is_some (Pairs.lookup (context, fd) entry)
    then (false, Pairs.insert (scheme, event) entry r)
    else (true, Pairs.insert (scheme, event) (Pairs.insert (context, fd) context entry) r)

abbrev pub put_or_remove : ℕ × ℕ → Registrations → Registry → Registry
put_or_remove key [] r = Pairs.remove key r
put_or_remove key (e ∷ es) r = Pairs.insert key (e ∷ es) r

-- `unregister` by the context that runs.
pub unregister : ℕ → ℕ → ℕ → ℕ → Registry → Registry
unregister context fd scheme event r = elim (Pairs.lookup (scheme, event) r) [
  | none ↦ r
  | some entry ↦ put_or_remove (scheme, event) (Pairs.remove (context, fd) entry) r
]

abbrev pub Queues : Type 0
Queues = Map (WaitQueue Event)

-- `event_list.send` on a queue that may have gone.
pub send_to_queue : ℕ → Event → Queues → Machine → Queues × Machine
send_to_queue queue e queues m = elim (lookup queue queues) [
  | none ↦ (queues, m)
  | some q ↦ let (_, q', m') = send e q m in (insert queue q' queues, m')
]

-- The loop of `trigger`.
pub deliver : ℕ → ℕ → Registrations → Queues → Machine → Queues × Machine
unfolding send_to_queue
deliver flags value [] queues m = (queues, m)
deliver flags value (((context, fd), queue) ∷ es) queues m =
    let (queues', m') =
      send_to_queue queue (record { id = fd; flags = flags; value = value }) queues m in
    deliver flags value es queues' m'

-- `trigger`
pub trigger : ℕ → ℕ → ℕ → ℕ → Registry → Queues → Machine → Queues × Machine
unfolding deliver
trigger scheme event flags value r queues m =
    deliver flags value (or_none (Pairs.lookup (scheme, event) r)) queues m

-- `EventScheme`: its handles name queues.
pub record EventScheme : Type 0 where
  pub next_id : ℕ
  pub handles : Map ℕ

abbrev new_handle : ℕ → EventScheme → Result ℕ × EventScheme
new_handle queue s = (
  ok s.next_id,
  record { next_id = (s.next_id + 1) % 2 ^ 64; handles = insert s.next_id queue s.handles },
)

-- `EventScheme::open` by the context that runs, if one does.
pub open_events : Option ℕ → EventScheme → Result ℕ × EventScheme
open_events none s = (err esrch, s)
open_events (some context) s = new_handle context s

-- The number and the queue that a handle refers to, while it lives.
pub upgrade : ℕ → EventScheme → Queues → Option (ℕ × WaitQueue Event)
upgrade id s queues = elim (lookup id s.handles) [
  | none ↦ none
  | some queue ↦ elim (lookup queue queues) [ none ↦ none | some q ↦ some (queue, q) ]
]

-- `EventScheme::dup`
pub dup_events : ℕ → EventScheme → Queues → Result ℕ × EventScheme
unfolding upgrade
dup_events id s queues = elim (upgrade id s queues) [
  | none ↦ (err ebadf, s)
  | some (queue, _) ↦ new_handle queue s
]

-- `EventScheme::read` into a buffer of `n` events: the events that it stores.
pub read_events :
    ℕ → ℕ → EventScheme → Queues → Machine → Outcome (Result (List Event)) × Queues × Machine
unfolding upgrade
read_events id n s queues m = elim (upgrade id s queues) [
  | none ↦ (done (err ebadf), queues, m)
  | some (queue, q) ↦
      let (out, q', m') = receive_into n true q m in
      (
        elim out [ done events ↦ done (ok events) | sleeps ↦ sleeps | panics ↦ panics ],
        insert queue q' queues,
        m',
      )
]

-- `EventScheme::fsync`
pub fsync_events : ℕ → EventScheme → Queues → Result ℕ
unfolding upgrade
fsync_events id s queues = elim (upgrade id s queues) [ none ↦ err ebadf | some _ ↦ ok 0 ]

-- `EventScheme::close`
pub close_events : ℕ → EventScheme → Result ℕ × EventScheme
close_events id s = (
  if is_some (lookup id s.handles) then ok 0 else err ebadf,
  record s { handles = remove id s.handles },
)
