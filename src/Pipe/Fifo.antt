-- ===== src/Pipe/Fifo.antt =====
-- kernel/scheme/pipe.rs: what goes through a pipe.
use mathlib.Core.List.{append_assoc, append-nil}
use origel.Base.{
  ◌==◌, if◌then◌else◌, Option-cases, length, take-append-drop, ℕ, ◌+◌, ◌*◌, ◌^◌, ◌≤◌, ◌<◌, ◌≡◌, inl,
  inr, Option, none, some, List, [], ◌∷◌, ◌++◌, arith,
}
use origel.Base.Map.{lookup, lookup-insert}
use origel.Context.Machine.{Machine}
use origel.Sync.{Outcome, done, sleeps, panics, drain}
use origel.Sync.Queue.{drain_lem}
use origel.Syscall.Error.{Result, ok, err}
use origel.Pipe.{
  PipeWrite, dup_write, dup_read, write_end, wake, PipeRead, Pipes, bytes, pipe, dup, sleep_on,
  read_round, read, write, fcntl, close,
}

-- A call on the pipe scheme.
pub data Call : Type 0 where
  pipes : ℕ → Call
  dups : ℕ → List ℕ → Call
  reads : ℕ → ℕ → Call
  writes : ℕ → List ℕ → Call
  fcntls : ℕ → ℕ → ℕ → Call
  closes : ℕ → Call

-- The bytes that a call hands out, and those that it takes.
abbrev pub received : Outcome (Result (List ℕ)) → List ℕ
received (done (ok xs)) = xs
received (done (err e)) = []
received sleeps = []
received panics = []

abbrev pub accepted : Outcome (Result ℕ) → List ℕ → List ℕ
accepted (done (ok n)) buf = buf
accepted (done (err e)) buf = []
accepted sleeps buf = []
accepted panics buf = []

-- The buffer of the end `id`.
abbrev pub read_vec : ℕ → Pipes → Option ℕ
read_vec id p = elim (lookup id p.reads) [ none ↦ none | some e ↦ some e.vec ]

abbrev pub write_vec : ℕ → Pipes → Option ℕ
write_vec id p = elim (lookup id p.writes) [ none ↦ none | some e ↦ e.vec ]

-- Bytes that go through one buffer count only for that one.
abbrev pub only : ℕ → Option ℕ → List ℕ → List ℕ
only v none xs = []
only v (some w) xs = if v == w then xs else []

-- What a call takes into the buffer `v`, what it hands out of it, and the state after it.
pub step : ℕ → Call → Pipes → Machine → List ℕ × List ℕ × Pipes × Machine
step v (pipes flags) p m = ([], [], (pipe flags p).1, m)
step v (dups id buf) p m = ([], [], (dup id buf p).1, m)
step v (reads id n) p m =
    let (out, p', m') = read id n p m in ([], only v (read_vec id p) (received out), p', m')
step v (writes id buf) p m =
    let (out, p', m') = write id buf p m in (only v (write_vec id p) (accepted out buf), [], p', m')
step v (fcntls id cmd arg) p m = ([], [], (fcntl id cmd arg p).1, m)
step v (closes id) p m = let (_, p', m') = close id p m in ([], [], p', m')

-- A buffer `v` whose pipe exists: a new pipe gets another one.
abbrev Conserves : ℕ → List ℕ → List ℕ → Pipes → Pipes → Type 0
Conserves v ins outs p p' = outs ++ bytes v p' ≡ bytes v p ++ ins

read_round-Conserves :
    (v : ℕ) (e : PipeRead) (n : ℕ) (p : Pipes) (m : Machine)
    → let (out, p', m') = read_round e n p m in
      Conserves v [] (only v (some e.vec) (received out)) p p'
unfolding read_round sleep_on
read_round-Conserves v e n p m = ground (
  arith,
  drain_lem n (bytes e.vec p),
  take-append-drop n (bytes e.vec p),
  lookup-insert e.vec v (drain n (bytes e.vec p)).1 p.vecs,
  append-nil (bytes v p),
)

write_end-Conserves :
    (v : ℕ) (e : PipeWrite) (buf : List ℕ) (p : Pipes) (m : Machine)
    → let (out, p', m') = write_end e buf p m in
      Conserves v (only v e.vec (accepted out buf)) [] p p'
unfolding write_end wake
write_end-Conserves v e buf p m = elim (Option-cases e.vec) [
  | inl h ↦ rw (h, write_end) (rw append-nil)
  | inr (w, h) ↦ ground (arith, lookup-insert w v (bytes w p ++ buf) p.vecs, append-nil (bytes v p))
]

close-vecs : (id : ℕ) (p : Pipes) (m : Machine) → (close id p m).1.vecs ≡ p.vecs
unfolding close wake
close-vecs id p m = ground arith

dup-vecs : (id : ℕ) (buf : List ℕ) (p : Pipes) → (dup id buf p).1.vecs ≡ p.vecs
unfolding dup dup_read dup_write
dup-vecs id buf p = ground arith

fcntl-vecs : (id cmd arg : ℕ) (p : Pipes) → (fcntl id cmd arg p).1.vecs ≡ p.vecs
unfolding fcntl
fcntl-vecs id cmd arg p = ground arith

step-Conserves :
    (v : ℕ) (c : Call) (p : Pipes) (m : Machine)
    → v < p.next_id
    → let (ins, outs, p', m') = step v c p m in Conserves v ins outs p p'
unfolding step pipe read write
step-Conserves v (pipes flags) p m h =
    ground (arith, lookup-insert p.next_id v [] p.vecs, append-nil (bytes v p))
step-Conserves v (dups id buf) p m h = rw (dup-vecs id buf p, append-nil)
step-Conserves v (reads id n) p m h = elim (Option-cases (lookup id p.reads)) [
  | inl e ↦ ground (arith, append-nil (bytes v p))
  | inr (r, e) ↦ rw (e, read, read_vec) (read_round-Conserves v r n p m)
]
step-Conserves v (writes id buf) p m h = elim (Option-cases (lookup id p.writes)) [
  | inl e ↦ ground (arith, append-nil (bytes v p))
  | inr (w, e) ↦ rw (e, write, write_vec) (write_end-Conserves v w buf p m)
]
step-Conserves v (fcntls id cmd arg) p m h = rw (fcntl-vecs id cmd arg p, append-nil)
step-Conserves v (closes id) p m h = rw (close-vecs id p m, append-nil)

-- The counter of ids does not run backwards while it stays below the wrap.
step-next_id :
    (v : ℕ) (c : Call) (p : Pipes) (m : Machine)
    → p.next_id + 2 < 2 ^ 64
    → let (ins, outs, p', m') = step v c p m in
      (p.next_id ≤ p'.next_id) × (p'.next_id ≤ p.next_id + 2)
unfolding step pipe read write dup dup_read dup_write fcntl close wake read_round sleep_on write_end
step-next_id v (pipes flags) p m h = ground arith
step-next_id v (dups id buf) p m h = ground arith
step-next_id v (reads id n) p m h = ground arith
step-next_id v (writes id buf) p m h = ground arith
step-next_id v (fcntls id cmd arg) p m h = ground arith
step-next_id v (closes id) p m h = ground arith

-- A history of calls: all that went into the buffer `v`, all that came out, and the last state.
pub run : ℕ → List Call → Pipes → Machine → List ℕ × List ℕ × Pipes × Machine
run v [] p m = ([], [], p, m)
run v (c ∷ cs) p m =
    let (ins, outs, p', m') = step v c p m in
    let (ins', outs', p'', m'') = run v cs p' m' in (ins ++ ins', outs ++ outs', p'', m'')

-- After any history of calls on all pipes, too short for the counter of ids to wrap, what `read`
-- handed out of a pipe, and then what is left in its buffer, is what the buffer held at first and
-- then all that `write` took for that pipe, in that order.
pub pipe_fifo :
    (v : ℕ) (cs : List Call) (p : Pipes) (m : Machine)
    → v < p.next_id
    → p.next_id + 2 * length cs < 2 ^ 64
    → let (ins, outs, p', m') = run v cs p m in outs ++ bytes v p' ≡ bytes v p ++ ins
unfolding run
pipe_fifo v [] p m h k = rw append-nil
pipe_fifo v (c ∷ cs) p m h k =
    let (_, _, p', m') = step v c p m in
    let (up, most) = step-next_id v c p m (omega arith) in
    rw
      (
        append_assoc,
        pipe_fifo v cs p' m' (omega arith) (omega arith),
        ← append_assoc,
        step-Conserves v c p m h,
      )
      (rw append_assoc)
