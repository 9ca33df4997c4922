-- ===== src/UserScheme/Replies.antt =====
-- kernel/scheme/user.rs: an answer comes back to the call that it is for.
use origel.Base.{
  ◌==◌, if◌then◌else◌, Bool-cases, ℕ, ◌<◌, ◌≡◌, refl, ap, ◌∙◌, inl, inr, Bool, true, false, Option,
  none, some, List, [], ◌∷◌, arith,
}
use origel.Base.Map.{Map, lookup, remove, lookup-insert, lookup-remove}
use origel.Syscall.Error.{demux}
use origel.Syscall.Number.{sys_fevent}
use origel.Syscall.Scheme.{Packet}
use origel.Sync.{done}
use origel.Sync.Keyed.{inner-send_key, receive_key-found}
use origel.UserScheme.{
  UserInner, World, finish_call, write_packet, write_packets, answer_fmap, put_answer, take_message,
}

-- The last answer to a number among the packets; 0 is no number of a call.
abbrev pub later : Option ℕ → Option ℕ → Option ℕ
later first none = first
later first (some a) = some a

pub answer_to : ℕ → List Packet → Option ℕ
answer_to id [] = none
answer_to id (p ∷ ps) = later (if p.id == id then some p.a else none) (answer_to id ps)

finish_call-found :
    (id a : ℕ) (w : World)
    → lookup id w.inner.answers.inner ≡ some a
    → (finish_call id w).0 ≡ done (demux a)
unfolding finish_call
finish_call-found id a w h =
    rw (finish_call, receive_key-found id a w.inner.answers w.machine h) refl

-- None of the packets answers an `fmap`.
abbrev pub AllPlain : List Packet → Map (ℕ × ℕ) → Type 0
AllPlain [] fmaps = Unit
AllPlain (p ∷ ps) fmaps = (lookup p.id fmaps ≡ none) × AllPlain ps fmaps

-- What one packet has done: its answer stands under its number.
pub record Wrote (p : Packet) (w w' : World) : Type 0 where
  pub fewer : (j : ℕ) → lookup j w.inner.fmaps ≡ none → lookup j w'.inner.fmaps ≡ none
  pub stored :
      (id : ℕ)
      → 0 < id
      → lookup id w'.inner.answers.inner
        ≡ (if p.id == id then some p.a else lookup id w.inner.answers.inner)

AllPlain-fewer :
    (ps : List Packet) (p : Packet) (w w' : World)
    → Wrote p w w'
    → AllPlain ps w.inner.fmaps
    → AllPlain ps w'.inner.fmaps
AllPlain-fewer [] p w w' r h = tt
AllPlain-fewer (q ∷ ps) p w w' r (h, hs) = (r.fewer q.id h, AllPlain-fewer ps p w w' r hs)

inner-take_message : (p : Packet) (w : World) → (take_message p w).inner ≡ w.inner
inner-take_message p w = elim (Bool-cases (p.a == sys_fevent)) [
  | inl e ↦ rw e refl
  | inr e ↦ rw e refl
]

later_assoc :
    (b : Bool) (a : ℕ) (old rest : Option ℕ)
    → later (if b then some a else old) rest ≡ later old (later (if b then some a else none) rest)
later_assoc true a old none = refl
later_assoc true a old (some r) = refl
later_assoc false a old none = refl
later_assoc false a old (some r) = refl

Wrote-message : (p : Packet) (w w' : World) → (p.id == 0) ≡ true → w'.inner ≡ w.inner → Wrote p w w'
Wrote-message p w w' z e = record {
  fewer = λ j h. ap (λ (i : UserInner). lookup j i.fmaps) e ∙ h;
  stored = λ id h. ap (λ (i : UserInner). lookup id i.answers.inner) e ∙ ground arith;
}

Wrote-answer :
    (p : Packet) (w : World)
    → let w' = record w { inner = record w.inner { fmaps = remove p.id w.inner.fmaps } } in
      Wrote p w (put_answer p.id p.a w')
Wrote-answer p w = record {
  fewer = λ j h. ground (arith, h, lookup-remove p.id j w.inner.fmaps);
  stored = λ id h. ground (
    arith,
    inner-send_key p.id p.a w.inner.answers w.machine,
    lookup-insert p.id id p.a w.inner.answers.inner,
  );
}

write_packet-Wrote :
    (is_mapped : ℕ → Bool) (p : Packet) (w : World)
    → lookup p.id w.inner.fmaps ≡ none
    → (w' : World) × (write_packet is_mapped p w ≡ some w') × Wrote p w w'
unfolding write_packet answer_fmap
write_packet-Wrote is_mapped p w n = elim (Bool-cases (p.id == 0)) [
  | inl z ↦ (
    take_message p w,
    rw (write_packet, z) refl,
    Wrote-message p w (take_message p w) z (inner-take_message p w),
  )
  | inr z ↦ (
    put_answer p.id p.a (record w { inner = record w.inner { fmaps = remove p.id w.inner.fmaps } }),
    rw (write_packet, z, n) refl,
    Wrote-answer p w,
  )
]

write_packets-Wrote :
    (is_mapped : ℕ → Bool) (ps : List Packet) (w : World)
    → AllPlain ps w.inner.fmaps
    → (w' : World) × (write_packets is_mapped ps w ≡ some w')
      × ((id : ℕ)
          → 0 < id
          → lookup id w'.inner.answers.inner
            ≡ later (lookup id w.inner.answers.inner) (answer_to id ps))
unfolding write_packets answer_to
write_packets-Wrote is_mapped [] w h = (w, refl, λ id k. refl)
write_packets-Wrote is_mapped (p ∷ ps) w (h, hs) =
    let (w', e, r) = write_packet-Wrote is_mapped p w h in
    let (w'', e', stored) = write_packets-Wrote is_mapped ps w' (AllPlain-fewer ps p w w' r hs) in
    (
      w'',
      rw (write_packets, e) e',
      λ id k.
          stored id k
          ∙ ap (λ o. later o (answer_to id ps)) (r.stored id k)
          ∙ later_assoc (p.id == id) p.a (lookup id w.inner.answers.inner) (answer_to id ps),
    )

-- When the scheme writes packets of which none answers an `fmap`, the kernel does not panic, and every
-- call that waits for a number among these gets the last answer to this number, as `demux` reads it,
-- at once; any other call still waits for what it waited for.
pub write-finish_call :
    (is_mapped : ℕ → Bool) (ps : List Packet) (w : World)
    → AllPlain ps w.inner.fmaps
    → (w' : World) × (write_packets is_mapped ps w ≡ some w')
      × ((id a : ℕ) → 0 < id → answer_to id ps ≡ some a → (finish_call id w').0 ≡ done (demux a))
      × ((id : ℕ)
          → 0 < id
          → answer_to id ps ≡ none
          → lookup id w'.inner.answers.inner ≡ lookup id w.inner.answers.inner)
write-finish_call is_mapped ps w h =
    let (w', e, stored) = write_packets-Wrote is_mapped ps w h in
    (
      w',
      e,
      λ id a k n.
          finish_call-found id a w' (stored id k ∙ ap (later (lookup id w.inner.answers.inner)) n),
      λ id k n. stored id k ∙ ap (later (lookup id w.inner.answers.inner)) n,
    )
