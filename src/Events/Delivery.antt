-- ===== src/Events/Delivery.antt =====
-- kernel/context/event.rs: what `trigger` puts in the queues.
use mathlib.Core.List.{append_assoc, append-nil}
use origel.Base.{
  ◌==◌, if◌then◌else◌, Bool-cases, ℕ, ◌≡◌, refl, sym, ap, ◌∙◌, inl, inr, Bool, true, false, Option,
  none, some, List, [], ◌∷◌, ◌++◌, arith,
}
use origel.Base.Map.{lookup, lookup-insert}
use origel.Base.Map.Pairs
use origel.Context.Machine.{Machine}
use origel.Sync.{WaitQueue}
use origel.Sync.Queue.{inner-send}
use origel.Events.{Event, Registrations, Registry, or_none, Queues, send_to_queue, deliver, trigger}

-- The entries of a queue; none if it has gone.
abbrev pub inner_of : Option (WaitQueue Event) → List Event
inner_of none = []
inner_of (some q) = q.inner

abbrev pub entries : ℕ → Queues → List Event
entries queue queues = inner_of (lookup queue queues)

abbrev one_if : Bool → Event → List Event
one_if b e = if b then e ∷ [] else []

-- The events that go to a queue, one for each registration that names it, in the order of the keys.
unfoldable pub events_for : ℕ → ℕ → ℕ → Registrations → List Event
events_for queue flags value [] = []
events_for queue flags value (((context, fd), target) ∷ es) =
    one_if (target == queue) (record { id = fd; flags = flags; value = value })
    ++ events_for queue flags value es

-- A queue that is alive has got the events, in order, behind its entries; one that has gone gets none.
abbrev pub Got : List Event → Option (WaitQueue Event) → Option (WaitQueue Event) → Type 0
Got new none after = after ≡ none
Got new (some q) none = ⊥
Got new (some q) (some q') = q'.inner ≡ q.inner ++ new

Got-refl : (o : Option (WaitQueue Event)) → Got [] o o
Got-refl none = refl
Got-refl (some q) = sym (append-nil q.inner)

Got-trans :
    (xs ys : List Event) (a b c : Option (WaitQueue Event))
    → Got xs a b
    → Got ys b c
    → Got (xs ++ ys) a c
Got-trans xs ys none none c h k = k
Got-trans xs ys none (some q) c h k = absurd (ground arith)
Got-trans xs ys (some p) none c h k = elim h [ ]
Got-trans xs ys (some p) (some q) none h k = k
Got-trans xs ys (some p) (some q) (some r) h k =
    k ∙ ap (λ l. l ++ ys) h ∙ append_assoc p.inner xs ys

Got-sent :
    (queue j : ℕ) (e : Event) (queues : Queues) (m : Machine) (o : Option (WaitQueue Event))
    → lookup queue queues ≡ o
    → Got (one_if (queue == j) e) (lookup j queues) (lookup j (send_to_queue queue e queues m).0)
unfolding send_to_queue
Got-sent queue j e queues m none h = elim (Bool-cases (queue == j)) [
  | inl b ↦
      let gone : lookup j queues ≡ none = ap (λ i. lookup i queues) (ground (arith, b)) ∙ h in
      rw (send_to_queue, h, b, gone) refl
  | inr b ↦ rw (send_to_queue, h, b) (Got-refl (lookup j queues))
]
Got-sent queue j e queues m (some q) h = elim (Bool-cases (queue == j)) [
  | inl b ↦
      let here : lookup j queues ≡ some q = ap (λ i. lookup i queues) (ground (arith, b)) ∙ h in
      let back : (j == queue) ≡ true = ground (arith, b) in
      rw (send_to_queue, h, b, here, lookup-insert, back) (inner-send e q m)
  | inr b ↦
      let back : (j == queue) ≡ false = ground (arith, b) in
      rw (send_to_queue, h, b, lookup-insert, back) (Got-refl (lookup j queues))
]

deliver-Got :
    (flags value j : ℕ) (es : Registrations) (queues : Queues) (m : Machine)
    → Got
        (events_for j flags value es)
        (lookup j queues)
        (lookup j (deliver flags value es queues m).0)
unfolding deliver events_for
deliver-Got flags value j [] queues m = Got-refl (lookup j queues)
deliver-Got flags value j (((context, fd), queue) ∷ es) queues m =
    let e : Event = record { id = fd; flags = flags; value = value } in
    let (queues', m') = send_to_queue queue e queues m in
    Got-trans (one_if (queue == j) e) (events_for j flags value es) (lookup j queues)
      (lookup j queues') (lookup j (deliver flags value es queues' m').0)
      (Got-sent queue j e queues m (lookup queue queues) refl)
      (deliver-Got flags value j es queues' m')

-- `trigger` puts the event into every live queue, once for each file that is registered for it, in the
-- order of the files, behind what the queue holds; a queue that has gone stays away.
pub trigger-Got :
    (scheme event flags value j : ℕ) (r : Registry) (queues : Queues) (m : Machine)
    → Got
        (events_for j flags value (or_none (Pairs.lookup (scheme, event) r)))
        (lookup j queues)
        (lookup j (trigger scheme event flags value r queues m).0)
unfolding trigger
trigger-Got scheme event flags value j r queues m =
    deliver-Got flags value j (or_none (Pairs.lookup (scheme, event) r)) queues m
