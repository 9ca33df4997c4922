-- ===== src/UserScheme.antt =====
-- kernel/scheme/user.rs: a scheme in another context. A call becomes a packet in the queue `todo`, which
-- the scheme's context reads; its answer is written under the packet's number into the map `done`, where
-- the caller waits for it. A call has two parts here: `begin_call` up to the wait, and `finish_call`.
pub mod Packets
pub mod Replies
mod Tests
use origel.Base.{
  ◌==◌, if◌then◌else◌, length, ℕ, ◌+◌, ◌*◌, ◌%◌, ◌^◌, bit_and, Bool, true, false, not, Option, none,
  some, List, [], ◌∷◌,
}
use origel.Base.Map.{Map, lookup, insert, remove}
use origel.Syscall.Error.{Result, ok, err, mux, demux, esrch}
use origel.Syscall.Flag.{event_read, o_nonblock}
use origel.Syscall.Number.{
  sys_open, sys_chmod, sys_rmdir, sys_unlink, sys_close, sys_dup, sys_read, sys_write, sys_lseek,
  sys_fcntl, sys_fevent, sys_fmap, sys_fpath, sys_fstat, sys_fstatvfs, sys_fsync, sys_ftruncate,
}
use origel.Syscall.Scheme.{
  Packet, Call, open_path, chmod, rmdir, unlink, dup, read, write, seek, fcntl, fevent, fmap, fpath,
  fstat, fstatvfs, fsync, ftruncate, close, stat_size, stat_vfs_size,
}
use origel.Context.Machine.{Machine}
use origel.Sync.{
  Outcome, done, sleeps, panics, WaitQueue, WaitMap, send, receive_into, receive_key, send_key,
}
use origel.Events.{Registry, Queues, trigger}
use origel.Grants.{Grant, Captured, capture_inner, release}
use origel.Grants as Grants

-- `UserInner`; a context that it refers to weakly is a number.
pub record UserInner : Type 0 where
  pub root_id : ℕ
  pub handle_id : ℕ
  pub flags : ℕ
  pub scheme_id : ℕ
  pub next_id : ℕ
  pub context : ℕ
  pub todo : WaitQueue Packet
  pub fmaps : Map (ℕ × ℕ)
  pub answers : WaitMap ℕ

-- `UserInner::new`
pub new_inner : (root_id handle_id flags context : ℕ) → UserInner
new_inner root_id handle_id flags context = record {
  root_id = root_id;
  handle_id = handle_id;
  flags = flags;
  scheme_id = 0;
  next_id = 1;
  context = context;
  todo = record { inner = []; condition = [] };
  fmaps = [];
  answers = record { inner = []; condition = [] };
}

-- The scheme and what it works on: the grants are those of the contexts that live.
pub record World : Type 0 where
  pub inner : UserInner
  pub machine : Machine
  pub registry : Registry
  pub queues : Queues
  pub grants : Map (List Grant)

abbrev pub Words : Type 0
Words = ℕ × ℕ × ℕ × ℕ

-- The words of a call's packet, where its buffer has been captured at an address.
pub request_of : Call → ℕ → Words
request_of (open_path address length flags uid gid) to = (sys_open, to, length, flags)
request_of (chmod address length mode uid gid) to = (sys_chmod, to, length, mode)
request_of (rmdir address length uid gid) to = (sys_rmdir, to, length, 0)
request_of (unlink address length uid gid) to = (sys_unlink, to, length, 0)
request_of (dup id address length) to = (sys_dup, id, to, length)
request_of (read id address length) to = (sys_read, id, to, length)
request_of (write id address length) to = (sys_write, id, to, length)
request_of (seek id pos whence) to = (sys_lseek, id, pos, whence)
request_of (fcntl id cmd arg) to = (sys_fcntl, id, cmd, arg)
request_of (fevent id flags) to = (sys_fevent, id, flags, 0)
request_of (fmap id offset size) to = (sys_fmap, id, offset, size)
request_of (fpath id address length) to = (sys_fpath, id, to, length)
request_of (fstat id address) to = (sys_fstat, id, to, stat_size)
request_of (fstatvfs id address) to = (sys_fstatvfs, id, to, stat_vfs_size)
request_of (fsync id) to = (sys_fsync, id, 0, 0)
request_of (ftruncate id len) to = (sys_ftruncate, id, len, 0)
request_of (close id) to = (sys_close, id, 0, 0)

-- The buffer of a call that captures one: its address and its length.
pub buffer_of : Call → Option (ℕ × ℕ)
buffer_of (open_path address length flags uid gid) = some (address, length)
buffer_of (chmod address length mode uid gid) = some (address, length)
buffer_of (rmdir address length uid gid) = some (address, length)
buffer_of (unlink address length uid gid) = some (address, length)
buffer_of (dup id address length) = some (address, length)
buffer_of (read id address length) = some (address, length)
buffer_of (write id address length) = some (address, length)
buffer_of (fpath id address length) = some (address, length)
buffer_of (fstat id address) = some (address, stat_size)
buffer_of (fstatvfs id address) = some (address, stat_vfs_size)
buffer_of _ = none

abbrev pub packet_of : (id pid uid gid : ℕ) → Words → Packet
packet_of id pid uid gid (a, b, c, d) = record {
  id = id;
  pid = pid;
  uid = uid;
  gid = gid;
  a = a;
  b = b;
  c = c;
  d = d;
}

-- `size_of` of a `Packet`
abbrev pub packet_size : ℕ
packet_size = 56

-- `call_inner` up to `receive`.
pub post : Packet → World → World
post packet w =
    let i = w.inner in
    let (len, todo, m) = send packet i.todo w.machine in
    let (queues, m') =
      trigger i.root_id i.handle_id event_read (packet_size * len) w.registry w.queues m in
    record w { inner = record i { todo = todo }; machine = m'; queues = queues }

-- The number of a new packet: `next_id.fetch_add(1)`.
abbrev pub take_id : World → ℕ × World
take_id w =
    let i = w.inner in
    (i.next_id, record w { inner = record i { next_id = (i.next_id + 1) % 2 ^ 64 } })

-- `call` up to the wait: the number of its packet.
pub begin_call : Words → World → Result ℕ × World
unfolding post
begin_call words w = elim (lookup w.machine.current w.machine.contexts) [
  | none ↦ (err esrch, w)
  | some c ↦ let (id, w') = take_id w in (ok id, post (packet_of id c.id c.euid c.egid words) w')
]

-- `UserScheme::fmap` up to the wait. The caller is to get the memory that the answer names.
pub begin_fmap : (file offset size : ℕ) → World → Result ℕ × World
unfolding post
begin_fmap file offset size w = elim (lookup w.machine.current w.machine.contexts) [
  | none ↦ (err esrch, w)
  | some c ↦
      let (id, w') = take_id w in
      let i = w'.inner in
      let w'' = record w' {
        inner = record i { fmaps = insert id (w.machine.current, size) i.fmaps };
      } in
      (ok id, post (packet_of id c.id c.euid c.egid (sys_fmap, file, offset, size)) w'')
]

-- The rest of `call_inner`.
pub finish_call : ℕ → World → Outcome (Result ℕ) × World
finish_call id w =
    let i = w.inner in
    let (out, answers, m) = receive_key id i.answers w.machine in
    (
      elim out [ done a ↦ done (demux a) | sleeps ↦ sleeps | panics ↦ panics ],
      record w { inner = record i { answers = answers }; machine = m },
    )

-- `UserInner::read` into a buffer for `n` packets: the packets that it stores.
pub read_packets : ℕ → World → Outcome (List Packet) × World
read_packets n w =
    let i = w.inner in
    let (out, todo, m) =
      receive_into n (not (bit_and i.flags o_nonblock == o_nonblock)) i.todo w.machine in
    (out, record w { inner = record i { todo = todo }; machine = m })

-- The capture of memory of the running context for the one that called `fmap`, with the grants then;
-- `none` is a panic.
abbrev pub captured : Captured ℕ → Option (Result ℕ × List Grant)
captured (Grants.returns r gs) = some (r, gs)
captured Grants.panics = none

abbrev pub capture_for : (ℕ → Bool) → ℕ → ℕ → ℕ → World → Option (Result ℕ × World)
capture_for is_mapped caller address size w = elim (lookup caller w.grants) [
  | none ↦ elim (captured (capture_inner false is_mapped address size [])) [
    | none ↦ none
    | some (r, _) ↦ some (r, w)
  ]
  | some gs ↦ elim (captured (capture_inner true is_mapped address size gs)) [
    | none ↦ none
    | some (r, gs') ↦ some (r, record w { grants = insert caller gs' w.grants })
  ]
]

-- The answer to an `fmap`, if the packet is one, and the rest.
pub answer_fmap : (ℕ → Bool) → ℕ → Option (ℕ × ℕ) → World → Option (ℕ × World)
answer_fmap is_mapped a none w = some (a, w)
answer_fmap is_mapped a (some (caller, size)) w = elim (demux a) [
  | err e ↦ some (a, w)
  | ok address ↦ elim (capture_for is_mapped caller address size w) [
    | none ↦ none
    | some (r, w') ↦ some (mux r, w')
  ]
]

-- One answer goes to `done`.
abbrev pub put_answer : ℕ → ℕ → World → World
put_answer id a w =
    let i = w.inner in
    let (answers, m) = send_key id a i.answers w.machine in
    record w { inner = record i { answers = answers }; machine = m }

-- A packet with the number 0 is a message to the kernel: that there is an event.
abbrev pub take_message : Packet → World → World
take_message p w =
    if p.a == sys_fevent
    then (let (queues, m) = trigger w.inner.scheme_id p.b p.c p.d w.registry w.queues w.machine in
        record w { queues = queues; machine = m })
    else w

abbrev pub put_answered : ℕ → Option (ℕ × World) → Option World
put_answered id none = none
put_answered id (some (a, w)) = some (put_answer id a w)

-- One round of the loop of `write`.
pub write_packet : (ℕ → Bool) → Packet → World → Option World
unfolding answer_fmap
write_packet is_mapped p w =
    let i = w.inner in
    if p.id == 0
    then some (take_message p w)
    else (put_answered p.id (
        answer_fmap is_mapped p.a (lookup p.id i.fmaps)
          (record w { inner = record i { fmaps = remove p.id i.fmaps } })))

-- `UserInner::write`, with the pages that the running context has mapped; `none` is a panic.
pub write_packets : (ℕ → Bool) → List Packet → World → Option World
unfolding write_packet
write_packets is_mapped [] w = some w
write_packets is_mapped (p ∷ ps) w = elim (write_packet is_mapped p w) [
  | none ↦ none
  | some w' ↦ write_packets is_mapped ps w'
]

-- The calls of `UserScheme`, whose scheme has not gone. First the part up to the wait, with the address
-- where the buffer was captured: 0 where there is none.
pub begin_at : Call → ℕ → World → Result ℕ × World
unfolding begin_fmap begin_call
begin_at (fmap id offset size) to w = begin_fmap id offset size w
begin_at call to w = begin_call (request_of call to) w

abbrev pub Begun : Type 0
Begun = Result ℕ × ℕ × World

abbrev pub begin_captured : Call → Option (Result ℕ × World) → Option Begun
begin_captured call none = none
begin_captured call (some (err e, w)) = some (err e, 0, w)
begin_captured call (some (ok to, w)) = let (r, w') = begin_at call to w in some (r, to, w')

abbrev pub begin_with : (ℕ → Bool) → Call → Option (ℕ × ℕ) → World → Option Begun
begin_with is_mapped call none w = begin_captured call (some (ok 0, w))
begin_with is_mapped call (some (address, size)) w =
    begin_captured call (capture_for is_mapped w.inner.context address size w)

pub begin_scheme_call : (ℕ → Bool) → Call → World → Option Begun
unfolding begin_at buffer_of
begin_scheme_call is_mapped call w = begin_with is_mapped call (buffer_of call) w

-- `let _ = inner.release(address)`
abbrev pub release_in : ℕ → World → World
release_in to w = elim (lookup w.inner.context w.grants) [
  | none ↦ w
  | some gs ↦ record w { grants = insert w.inner.context (release true to gs).1 w.grants }
]

abbrev pub then_release : ℕ → Outcome (Result ℕ) × World → Outcome (Result ℕ) × World
then_release to (done r, w) = (done r, release_in to w)
then_release to (sleeps, w) = (sleeps, w)
then_release to (panics, w) = (panics, w)

-- The rest of a call.
pub finish_scheme_call : Begun → Outcome (Result ℕ) × World
unfolding finish_call
finish_scheme_call (err e, to, w) = then_release to (done (err e), w)
finish_scheme_call (ok id, to, w) = then_release to (finish_call id w)
