-- ===== src/Events/Registry.antt =====
-- kernel/context/event.rs: what the registry holds.
use origel.Base.{
  if◌then◌else◌, Option-cases, ℕ, ◌≡◌, refl, ap, ◌∙◌, ◌≢◌, ◌↔◌, inl, inr, Bool, true, false, ◌&&◌,
  Option, none, some, [], ◌∷◌, arith,
}
use origel.Base.Map.Pairs
use origel.Base.Map.Pairs.{PairMap, same_pair}
use origel.Events.{Registrations, Registry, or_none, register, put_or_remove, unregister}

-- The queue that a file of a context is registered with, for an event of a scheme.
abbrev pub registered : ℕ × ℕ → ℕ × ℕ → Registry → Option ℕ
registered source listener r = Pairs.lookup listener (or_none (Pairs.lookup source r))

-- No registration list is empty.
abbrev pub IsTidy : Registry → Type 0
IsTidy r = (source : ℕ × ℕ) → Pairs.lookup source r ≢ some []

registered-insert :
    (key source listener : ℕ × ℕ) (entry : Registrations) (r : Registry)
    → registered source listener (Pairs.insert key entry r)
      ≡ (if same_pair source key then Pairs.lookup listener entry else registered source listener r)
registered-insert key source listener entry r =
    ap (λ o. Pairs.lookup listener (or_none o)) (Pairs.lookup-insert key source entry r)
    ∙ split (same_pair source key)
  where
    split :
        (b : Bool)
        → Pairs.lookup listener (or_none (if b then some entry else Pairs.lookup source r))
          ≡ (if b then Pairs.lookup listener entry else registered source listener r)
    split true = refl
    split false = refl

insert-ne-nil : (k : ℕ × ℕ) (v : ℕ) (m : Registrations) → Pairs.insert k v m ≢ []
unfolding Pairs.insert
insert-ne-nil k v [] h = cc
insert-ne-nil k v ((j, w) ∷ m) h = ground arith

-- After `register` the file is registered, with the context's own queue if it was not before; it
-- reports whether it was new, and every other registration is as it was.
pub register_lem :
    (context fd scheme event : ℕ) (r : Registry)
    → let (new, r') = register context fd scheme event r in
      ((new ≡ true) ↔ (registered (scheme, event) (context, fd) r ≡ none))
      × ((source listener : ℕ × ℕ)
          → registered source listener r' ≡ (
              if same_pair source (scheme, event) && (same_pair listener (context, fd) && new)
              then some context
              else registered source listener r))
unfolding register
register_lem context fd scheme event r =
    let entry = or_none (Pairs.lookup (scheme, event) r) in
    elim (Option-cases (Pairs.lookup (context, fd) entry)) [
      | inl e ↦ (
        (λ _. e, λ _. ground arith),
        λ source listener. ground (
          arith,
          registered-insert (scheme, event) source listener
              (Pairs.insert (context, fd) context entry) r,
          Pairs.lookup-insert (context, fd) listener context entry,
        ),
      )
      | inr (q, e) ↦ (
        (λ h. absurd (ground arith), λ h. absurd (ground arith)),
        λ source listener.
            ground (arith, registered-insert (scheme, event) source listener entry r),
      )
    ]

put_or_remove_lem :
    (key source listener : ℕ × ℕ) (entry : Registrations) (r : Registry)
    → registered source listener (put_or_remove key entry r)
      ≡ (if same_pair source key then Pairs.lookup listener entry else registered source listener r)
unfolding Pairs.lookup
put_or_remove_lem key source listener [] r = ground (arith, Pairs.lookup-remove key source r)
put_or_remove_lem key source listener (e ∷ es) r = registered-insert key source listener (e ∷ es) r

registered_missing :
    (source listener : ℕ × ℕ) (r : Registry)
    → Pairs.lookup source r ≡ none
    → registered source listener r ≡ none
unfolding Pairs.lookup
registered_missing source listener r e = ap (λ o. Pairs.lookup listener (or_none o)) e

-- After `unregister` the file is not registered, and every other registration is as it was.
pub unregister_lem :
    (context fd scheme event : ℕ) (r : Registry) (source listener : ℕ × ℕ)
    → registered source listener (unregister context fd scheme event r) ≡ (
        if same_pair source (scheme, event) && same_pair listener (context, fd)
        then none
        else registered source listener r)
unfolding unregister
unregister_lem context fd scheme event r source listener =
    elim (Option-cases (Pairs.lookup (scheme, event) r)) [
      | inl e ↦ ground (arith, e, registered_missing (scheme, event) listener r)
      | inr (entry, e) ↦ ground (
        arith,
        put_or_remove_lem (scheme, event) source listener (Pairs.remove (context, fd) entry) r,
        Pairs.lookup-remove (context, fd) listener entry,
      )
    ]

put_or_remove-IsTidy :
    (key : ℕ × ℕ) (entry : Registrations) (r : Registry)
    → IsTidy r
    → IsTidy (put_or_remove key entry r)
put_or_remove-IsTidy key [] r t source e =
    ground (arith, Pairs.lookup-remove key source r, t source)
put_or_remove-IsTidy key (x ∷ xs) r t source e =
    ground (arith, Pairs.lookup-insert key source (x ∷ xs) r, t source)

-- `unregister` leaves no empty list of registrations behind.
pub unregister-IsTidy :
    (context fd scheme event : ℕ) (r : Registry)
    → IsTidy r
    → IsTidy (unregister context fd scheme event r)
unfolding unregister
unregister-IsTidy context fd scheme event r t =
    elim (Option-cases (Pairs.lookup (scheme, event) r)) [
      | inl e ↦ rw (e, unregister) t
      | inr (entry, e) ↦
          rw (e, unregister)
            (put_or_remove-IsTidy (scheme, event) (Pairs.remove (context, fd) entry) r t)
    ]

insert-IsTidy :
    (key k : ℕ × ℕ) (v : ℕ) (entry : Registrations) (r : Registry)
    → IsTidy r
    → IsTidy (Pairs.insert key (Pairs.insert k v entry) r)
insert-IsTidy key k v entry r t source e = ground (
  arith,
  Pairs.lookup-insert key source (Pairs.insert k v entry) r,
  t source,
  insert-ne-nil k v entry,
)
