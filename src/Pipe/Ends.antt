-- ===== src/Pipe/Ends.antt =====
-- kernel/scheme/pipe.rs: the end of a pipe's data, a pipe without readers, and who is woken.
use origel.Base.{
  if◌then◌else◌, Bool-cases, length, take, ℕ, zero, suc, ◌<◌, ◌≡◌, refl, ap, ◌≢◌, ◌↔◌, ◌⊎◌, inl,
  inr, true, false, some, List, [], ◌∷◌, ◌++◌, arith,
}
use origel.Base.Map.{lookup, insert, remove, lookup-insert, lookup-remove}
use origel.Context.Machine.{Machine}
use origel.Context.Machine.Wake.{woken?}
use origel.Sync.{done, notify}
use origel.Sync.Queue.{drain_lem}
use origel.Sync.Wake.{mem, notify_lem}
use origel.Syscall.Error.{Result, ok, err, epipe, eagain}
use origel.Syscall.Flag.{o_nonblock}
use origel.Pipe.{
  PipeRead, PipeWrite, Pipes, bytes, waiting, has, weak_count, is_alive, sleep_on, read_round, read,
  wake, write_end, write, close,
}

sleep_on-ne-done :
    (c : ℕ) (p : Pipes) (m : Machine) (r : Result (List ℕ)) → (sleep_on c p m).0 ≢ done r
unfolding sleep_on
sleep_on-ne-done c p m r h = ground arith

take_ne_nil : (n : ℕ) (xs : List ℕ) → 0 < n → xs ≢ [] → 0 < length (take n xs)
take_ne_nil zero xs h ne = absurd (omega arith)
take_ne_nil (suc n) [] h ne = absurd (ne refl)
take_ne_nil (suc n) (x ∷ xs) h ne = omega arith

nil_of_length : (xs : List ℕ) → length xs ≡ 0 → xs ≡ []
nil_of_length [] h = refl
nil_of_length (x ∷ xs) h = absurd (omega arith)

module _ (e : PipeRead) (n : ℕ) (p : Pipes) (m : Machine) where
  round_available :
      0 < n → bytes e.vec p ≢ [] → (read_round e n p m).0 ≡ done (ok (take n (bytes e.vec p)))
  unfolding read_round
  round_available h ne = ground (arith, drain_lem n (bytes e.vec p), take_ne_nil n (bytes e.vec p))

  round_end :
      (read_round e n p m).0 ≡ done (ok [])
      ↔ ((take n (bytes e.vec p) ≡ []) × (weak_count e.vec p.writes ≡ 0))
  unfolding read_round
  round_end = (
    λ h. ground (
      arith,
      drain_lem n (bytes e.vec p),
      nil_of_length (take n (bytes e.vec p)),
      sleep_on-ne-done e.condition p m (ok []),
    ),
    λ h. ground (arith, drain_lem n (bytes e.vec p), ap length h.0),
  )

  round_again : (read_round e n p m).0 ≡ done (err eagain) ↔ (
      (take n (bytes e.vec p) ≡ [])
      × (weak_count e.vec p.writes ≢ 0)
      × (has e.flags o_nonblock ≡ true))
  unfolding read_round
  round_again = (
    λ h. ground (
      arith,
      drain_lem n (bytes e.vec p),
      nil_of_length (take n (bytes e.vec p)),
      sleep_on-ne-done e.condition p m (err eagain),
    ),
    λ h. ground (arith, drain_lem n (bytes e.vec p), ap length h.0),
  )

module _ (id n : ℕ) (e : PipeRead) (p : Pipes) (m : Machine)
    (found : lookup id p.reads ≡ some e) where
  read-round : read id n p m ≡ read_round e n p m
  unfolding read
  read-round = rw (found, read)

  -- A `read` of some bytes from a pipe that holds some returns at once, with the first of them.
  pub read_available :
      0 < n → bytes e.vec p ≢ [] → (read id n p m).0 ≡ done (ok (take n (bytes e.vec p)))
  read_available h ne = rw read-round (round_available e n p m h ne)

  -- On an open read end, `read` reports the end of the data exactly if it can store no byte (the
  -- pipe is empty, or the buffer is) and no write end refers to the pipe; and it fails with `EAGAIN`
  -- exactly if it can store no byte, there is a write end, and the read end is non-blocking.
  pub read_without_bytes :
      ((read id n p m).0 ≡ done (ok [])
        ↔ ((take n (bytes e.vec p) ≡ []) × (weak_count e.vec p.writes ≡ 0)))
      × ((read id n p m).0 ≡ done (err eagain) ↔ (
          (take n (bytes e.vec p) ≡ [])
          × (weak_count e.vec p.writes ≢ 0)
          × (has e.flags o_nonblock ≡ true)))
  read_without_bytes = rw read-round (round_end e n p m, round_again e n p m)

-- Those that waited on `c` are woken.
abbrev pub Woken : ℕ → Pipes → Machine → Pipes → Machine → Type 0
Woken c p m p' m' =
    (waiting c p' ≡ [])
    × ((j : ℕ)
        → lookup j m'.contexts
          ≡ (if mem j (waiting c p) then woken? (lookup j m.contexts) else lookup j m.contexts))

wake-Woken : (c : ℕ) (p : Pipes) (m : Machine) → let (p', m') = wake c p m in Woken c p m p' m'
unfolding wake
wake-Woken c p m =
    let (nobody, _, woken) = notify_lem (waiting c p) m in
    (ground (arith, lookup-insert c c (notify (waiting c p) m).1 p.conditions), woken)

bytes-wake :
    (v c : ℕ) (buf : List ℕ) (p : Pipes) (m : Machine)
    → bytes v (wake c (record p { vecs = insert v (bytes v p ++ buf) p.vecs }) m).0
      ≡ bytes v p ++ buf
unfolding wake
bytes-wake v c buf p m = ground (arith, lookup-insert v v (bytes v p ++ buf) p.vecs)

-- On an open write end, `write` either finds a read end: then it takes all the bytes, and wakes all
-- that wait on the pipe; or it finds none, fails with `EPIPE` and changes nothing.
pub write_lem :
    (id v : ℕ) (w : PipeWrite) (buf : List ℕ) (p : Pipes) (m : Machine)
    → lookup id p.writes ≡ some w
    → w.vec ≡ some v
    → let (out, p', m') = write id buf p m in
      ((is_alive v p.reads ≡ true)
        × (out ≡ done (ok (length buf)))
        × (bytes v p' ≡ bytes v p ++ buf)
        × Woken w.condition p m p' m')
      ⊎ ((is_alive v p.reads ≡ false) × (out ≡ done (err epipe)) × (p' ≡ p) × (m' ≡ m))
unfolding write write_end
write_lem id v w buf p m f g = elim (Bool-cases (is_alive v p.reads)) [
  | inl h ↦
      rw (f, write, g, write_end, h)
        (inl (
          refl,
          refl,
          bytes-wake v w.condition buf p m,
          wake-Woken w.condition (record p { vecs = insert v (bytes v p ++ buf) p.vecs }) m,
        ))
  | inr h ↦ rw (f, write, g, write_end, h) (inr (refl, refl, refl, refl))
]

take_nil : (n : ℕ) → take {A = ℕ} n [] ≡ []
take_nil zero = refl
take_nil (suc n) = refl

-- Once the last write end of an empty pipe is closed, all that waited for its bytes are woken, and a
-- `read` of a remaining read end reports the end of the data.
pub close_last :
    (id rid n v : ℕ) (w : PipeWrite) (e : PipeRead) (p : Pipes) (m : Machine)
    → lookup id p.writes ≡ some w
    → weak_count v (remove id p.writes) ≡ 0
    → lookup rid p.reads ≡ some e
    → e.vec ≡ v
    → rid ≢ id
    → bytes v p ≡ []
    → let (out, p', m') = close id p m in
      Woken w.condition p m p' m' × ((read rid n p' m').0 ≡ done (ok []))
unfolding close wake
close_last id rid n v w e p m fw last fr ev ne empty =
    rw (fw, close)
      (
        wake-Woken w.condition closed m,
        (read_without_bytes rid n e p' m' found).0.1 (none_left, ends),
      )
  where
    closed : Pipes
    closed = record p { reads = remove id p.reads; writes = remove id p.writes }

    p' : Pipes
    p' = (wake w.condition closed m).0

    m' : Machine
    m' = (wake w.condition closed m).1

    found : lookup rid p'.reads ≡ some e
    found = ground (arith, lookup-remove id rid p.reads)

    none_left : take n (bytes e.vec p') ≡ []
    none_left = rw (ev, empty) (take_nil n)

    ends : weak_count e.vec p'.writes ≡ 0
    ends = rw ev last
