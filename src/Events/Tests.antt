-- ===== src/Events/Tests.antt =====
-- Runs of the registry and of the scheme of events, and the theorems about them at concrete tables.
use origel.Base.{ℕ, ◌≡◌, refl, none, some, [], ◌∷◌, arith}
use origel.Base.Map.{lookup, insert, remove}
use origel.Base.Map.Pairs
use origel.Syscall.Error.{ok, err, ebadf, esrch}
use origel.Context.Machine.{Machine}
use origel.Sync.{done}
use origel.Events.{
  Event, Registry, Queues, EventScheme, unregister, trigger, open_events, dup_events, read_events,
  fsync_events, close_events,
}
use origel.Events.Registry.{IsTidy}
use origel.Events.Delivery.{Got, events_for, trigger-Got}

abbrev machine : Machine
machine = record { contexts = []; current = 1; cpu = 0; interrupts = [] }

-- Contexts 1 and 2 have registered for event 9 of scheme 4, context 1 on two of its files.
abbrev registry : Registry
registry = ((4, 9), ((1, 3), 1) ∷ ((1, 5), 1) ∷ ((2, 3), 2) ∷ []) ∷ []

-- The queue of context 2 has gone.
abbrev queues : Queues
queues = (1, record { inner = []; condition = [] }) ∷ []

abbrev event_on : ℕ → Event
event_on fd = record { id = fd; flags = 1; value = 0 }

abbrev scheme : EventScheme
scheme = record { next_id = 7; handles = (6, 1) ∷ (5, 2) ∷ [] }

opens :
    open_events (some 1) scheme
    ≡ (ok 7, record { next_id = 8; handles = (6, 1) ∷ (5, 2) ∷ (7, 1) ∷ [] })
unfolding open_events insert
opens = refl

opens_nowhere : open_events none scheme ≡ (err esrch, scheme)
unfolding open_events
opens_nowhere = refl

dups_living : (dup_events 6 scheme queues).0 ≡ ok 7
unfolding dup_events lookup
dups_living = refl

dups_gone : dup_events 5 scheme queues ≡ (err ebadf, scheme)
unfolding dup_events lookup
dups_gone = refl

reads_gone : read_events 5 2 scheme queues machine ≡ (done (err ebadf), queues, machine)
unfolding read_events lookup
reads_gone = refl

syncs : fsync_events 6 scheme queues ≡ ok 0
unfolding fsync_events lookup
syncs = refl

closes : close_events 6 scheme ≡ (ok 0, record { next_id = 7; handles = (5, 2) ∷ [] })
unfolding close_events lookup remove
closes = refl

abbrev triggered : Queues
triggered = (trigger 4 9 1 0 registry queues machine).0

-- The live queue gets both events, the other one stays away.
trigger-Got_example : Got (event_on 3 ∷ event_on 5 ∷ []) (lookup 1 queues) (lookup 1 triggered)
unfolding events_for lookup Pairs.lookup
trigger-Got_example = trigger-Got 4 9 1 0 1 registry queues machine

abbrev unregistered : Registry
unregistered = unregister 1 5 4 9 registry

registry-IsTidy : IsTidy registry
unfolding Pairs.lookup
registry-IsTidy source e = ground arith
