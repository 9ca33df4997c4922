-- ===== src/Pipe.antt =====
-- kernel/scheme/pipe.rs: the pipe scheme. Each call is a function on the tables of pipes and the
-- machine whose contexts it puts to sleep and wakes. The buffer and the waiting list of a pipe are
-- objects that its ends share by reference (`Arc`, `Weak`): they stand in two tables, under the
-- number of the read end that they were made for. A buffer lives while a read end refers to it. A
-- `read` that sleeps starts again when it is woken; that its end is not closed meanwhile is assumed
-- by this model.
pub mod Ends
pub mod Fifo
mod Tests
use origel.Base.{
  ltb, ◌==◌, if◌then◌else◌, length, eq_bytes, ℕ, ◌+◌, ◌-◌, ◌%◌, ◌^◌, bit_and, Bool, true, false,
  ◌&&◌, ◌||◌, Option, none, some, List, [], ◌∷◌, ◌++◌,
}
use origel.Base.Map.{Map, lookup, insert, remove}
use origel.Context.Machine.{Machine}
use origel.Sync.{Outcome, done, sleeps, panics, drain, notify, wait}
use origel.Syscall.Error.{Result, ok, err, ebadf, einval, epipe, eagain}
use origel.Syscall.Flag.{f_getfl, f_setfl, o_accmode, o_cloexec, o_nonblock}

pub record PipeRead : Type 0 where
  pub flags : ℕ
  pub condition : ℕ
  pub vec : ℕ

-- The buffer is `none` once the end has been dropped.
pub record PipeWrite : Type 0 where
  pub flags : ℕ
  pub condition : ℕ
  pub vec : Option ℕ

-- `PIPE_NEXT_ID`, the two maps of `PIPES`, and the shared objects.
pub record Pipes : Type 0 where
  pub next_id : ℕ
  pub reads : Map PipeRead
  pub writes : Map PipeWrite
  pub vecs : Map (List ℕ)
  pub conditions : Map (List ℕ)

-- `fetch_add(1)` on an `AtomicUsize`
abbrev pub next : ℕ → ℕ
next id = (id + 1) % 2 ^ 64

abbrev pub or_nil : Option (List ℕ) → List ℕ
or_nil none = []
or_nil (some xs) = xs

-- The bytes of a buffer, and the contexts of a waiting list.
abbrev pub bytes : ℕ → Pipes → List ℕ
bytes v p = or_nil (lookup v p.vecs)

abbrev pub waiting : ℕ → Pipes → List ℕ
waiting c p = or_nil (lookup c p.conditions)

-- `flags & flag == flag` and `flags & !flag`
abbrev pub has : ℕ → ℕ → Bool
has flags flag = bit_and flags flag == flag

abbrev pub without : ℕ → ℕ → ℕ
without flags flag = bit_and flags (2 ^ 64 - 1 - flag)

-- `pipe`, with `PipeRead::new` and `PipeWrite::new`: the numbers of the two ends.
pub pipe : ℕ → Pipes → (ℕ × ℕ) × Pipes
pipe flags p =
    let read_id = p.next_id in
    let write_id = next read_id in
    (
      (read_id, write_id),
      record {
        next_id = next write_id;
        reads =
            insert read_id (record { flags = flags; condition = read_id; vec = read_id }) p.reads;
        writes =
            insert write_id (record { flags = flags; condition = read_id; vec = some read_id })
              p.writes;
        vecs = insert read_id [] p.vecs;
        conditions = insert read_id [] p.conditions;
      },
    )

abbrev exec : List ℕ
exec = b'e' ∷ b'x' ∷ b'e' ∷ b'c' ∷ []

abbrev is_empty {ℓ} : {A : Type ℓ} → List A → Bool
is_empty [] = true
is_empty (x ∷ xs) = false

-- The flags that `PipeRead::dup` and `PipeWrite::dup` give the new end.
pub dup_flags : ℕ → List ℕ → Result ℕ
dup_flags flags buf =
    if eq_bytes buf exec && has flags o_cloexec
    then err ebadf
    else ok (if is_empty buf then without flags o_cloexec else flags)

dup_read : PipeRead → List ℕ → Pipes → Result ℕ × Pipes
unfolding dup_flags
dup_read e buf p = elim (dup_flags e.flags buf) [
  | err n ↦ (err n, p)
  | ok flags ↦ (
    ok p.next_id,
    record p {
      next_id = next p.next_id;
      reads = insert p.next_id (record e { flags = flags }) p.reads;
    },
  )
]

dup_write : PipeWrite → List ℕ → Pipes → Result ℕ × Pipes
unfolding dup_flags
dup_write e buf p = elim (dup_flags e.flags buf) [
  | err n ↦ (err n, p)
  | ok flags ↦ (
    ok p.next_id,
    record p {
      next_id = next p.next_id;
      writes = insert p.next_id (record e { flags = flags }) p.writes;
    },
  )
]

-- `PipeScheme::dup`
pub dup : ℕ → List ℕ → Pipes → Result ℕ × Pipes
unfolding dup_read dup_write
dup id buf p = elim (lookup id p.reads) [
  | some e ↦ dup_read e buf p
  | none ↦ elim (lookup id p.writes) [ some e ↦ dup_write e buf p | none ↦ (err ebadf, p) ]
]

-- How many write ends refer to a buffer (`Arc::weak_count`), and whether a read end does, so that
-- `Weak::upgrade` succeeds.
abbrev refers : ℕ → Option ℕ → Bool
refers v none = false
refers v (some w) = v == w

pub weak_count : ℕ → Map PipeWrite → ℕ
weak_count v [] = 0
weak_count v ((_, e) ∷ m) = (if refers v e.vec then 1 else 0) + weak_count v m

pub is_alive : ℕ → Map PipeRead → Bool
is_alive v [] = false
is_alive v ((_, e) ∷ m) = v == e.vec || is_alive v m

sleep_on : ℕ → Pipes → Machine → Outcome (Result (List ℕ)) × Pipes × Machine
sleep_on c p m = elim (wait (waiting c p) m) [
  | none ↦ (panics, p, m)
  | some (ids, m') ↦ (sleeps, record p { conditions = insert c ids p.conditions }, m')
]

-- One round of the loop of `PipeRead::read` for a buffer of `n` bytes: the bytes that it stores.
pub read_round : PipeRead → ℕ → Pipes → Machine → Outcome (Result (List ℕ)) × Pipes × Machine
unfolding sleep_on
read_round e n p m =
    let (taken, rest) = drain n (bytes e.vec p) in
    if ltb 0 (length taken)
    then (done (ok taken), record p { vecs = insert e.vec rest p.vecs }, m)
    else if weak_count e.vec p.writes == 0
    then (done (ok []), p, m)
    else if has e.flags o_nonblock
    then (done (err eagain), p, m)
    else sleep_on e.condition p m

-- `PipeScheme::read`
pub read : ℕ → ℕ → Pipes → Machine → Outcome (Result (List ℕ)) × Pipes × Machine
unfolding read_round
read id n p m = elim (lookup id p.reads) [
  | none ↦ (done (err ebadf), p, m)
  | some e ↦ read_round e n p m
]

-- `WaitCondition::notify` on the waiting list `c`.
wake : ℕ → Pipes → Machine → Pipes × Machine
wake c p m =
    let (_, left, m') = notify (waiting c p) m in
    (record p { conditions = insert c left p.conditions }, m')

-- `PipeWrite::write`
write_end : PipeWrite → List ℕ → Pipes → Machine → Outcome (Result ℕ) × Pipes × Machine
unfolding wake
write_end e buf p m = elim e.vec [
  | none ↦ (panics, p, m)
  | some v ↦
      if is_alive v p.reads
      then (let (p', m') =
            wake e.condition (record p { vecs = insert v (bytes v p ++ buf) p.vecs }) m in
          (done (ok (length buf)), p', m'))
      else (done (err epipe), p, m)
]

-- `PipeScheme::write`
pub write : ℕ → List ℕ → Pipes → Machine → Outcome (Result ℕ) × Pipes × Machine
unfolding write_end
write id buf p m = elim (lookup id p.writes) [
  | none ↦ (done (err ebadf), p, m)
  | some e ↦ write_end e buf p m
]

-- `PipeRead::fcntl` and `PipeWrite::fcntl`: the result and the new flags.
pub fcntl_flags : ℕ → ℕ → ℕ → Result ℕ × ℕ
fcntl_flags cmd arg flags =
    if cmd == f_getfl
    then (ok flags, flags)
    else if cmd == f_setfl
    then (ok 0, without arg o_accmode)
    else (err einval, flags)

-- `PipeScheme::fcntl`
pub fcntl : ℕ → ℕ → ℕ → Pipes → Result ℕ × Pipes
unfolding fcntl_flags
fcntl id cmd arg p = elim (lookup id p.reads) [
  | some e ↦
      let (r, flags) = fcntl_flags cmd arg e.flags in
      (r, record p { reads = insert id (record e { flags = flags }) p.reads })
  | none ↦ elim (lookup id p.writes) [
    | some e ↦
        let (r, flags) = fcntl_flags cmd arg e.flags in
        (r, record p { writes = insert id (record e { flags = flags }) p.writes })
    | none ↦ (err ebadf, p)
  ]
]

-- `PipeScheme::close`, with the `Drop` of the write end.
pub close : ℕ → Pipes → Machine → Result ℕ × Pipes × Machine
unfolding wake
close id p m = elim (lookup id p.writes) [
  | none ↦ (ok 0, record p { reads = remove id p.reads; writes = remove id p.writes }, m)
  | some e ↦
      let (p', m') =
        wake e.condition (record p { reads = remove id p.reads; writes = remove id p.writes }) m in
      (ok 0, p', m')
]
