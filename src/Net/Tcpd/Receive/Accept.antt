-- ===== src/Net/Tcpd/Receive/Accept.antt =====
-- schemes/tcpd/src/main.rs: the rest of `tcp_event`, behind the loop over the handles: those that are
-- closed go, and listening handles get the segments that open connections.
use origel.Base.{
  ◌==◌, if◌then◌else◌, length, ℕ, ◌+◌, ◌%◌, ◌^◌, bit_and, Bool, ◌&&◌, not, Option, none, some, List,
  [], ◌∷◌, ◌++◌,
}
use origel.Base.Map.{Map, lookup, insert, remove}
use origel.Syscall.Scheme.{Packet}
use origel.Net.Wire.{Ipv4, Tcp, ip_from_bytes, tcp_from_bytes}
use origel.Net.Tcpd.{
  syn_received, Handle, tcp_syn, syn_ack, matches, Outside, Tcpd, add32, draw, transmit,
}
use origel.Net.Tcpd.Open.{unmatched, count_port}
use origel.Net.Tcpd.Calls.{release_port}
use origel.Net.Tcpd.Receive.{Answer, Delivered, is_listen, deliver}

-- The loop over `closing`.
unfoldable pub close_handles : List ℕ → Tcpd → Option Tcpd
close_handles [] t = some t
close_handles (file ∷ files) t = elim (lookup file t.handles) [
  | none ↦ none
  | some h ↦
      close_handles files
        (record t { handles = remove file t.handles; ports = release_port h.local.1 t.ports })
]

-- The new handle for a segment that opens a connection.
abbrev pub accepted : Handle → (seq : ℕ) → Ipv4 → Tcp → Handle
accepted h seq ip tcp = record {
  local = h.local;
  remote = (ip.header.src, tcp.header.src);
  flags = h.flags;
  events = 0;
  state = syn_received;
  seq = seq;
  ack = add32 tcp.header.sequence 1;
  segments = [];
  todo_dup = [];
  todo_read = [];
  todo_write = [];
}

abbrev pub NewHandles : Type 0
NewHandles = List (Packet × Handle)

-- The packets and segments left, the state, and the new handles with their packets.
abbrev pub Accepted : Type 0
Accepted = Option (List Packet × List (Ipv4 × Tcp) × Tcpd × NewHandles)

abbrev pub with_new : Packet → Handle → Accepted → Accepted
with_new p h none = none
with_new p h (some (ps, ds, t, rest)) = some (ps, ds, t, (p, h) ∷ rest)

module _ (o : Outside) where
  -- The loop over `todo_dup`.
  unfoldable pub accept_dups : Handle → List Packet → List (Ipv4 × Tcp) → Tcpd → Accepted
  accept_dups h [] ds t = some ([], ds, t, [])
  accept_dups h (p ∷ ps) [] t = some (p ∷ ps, [], t, [])
  accept_dups h (p ∷ ps) ((ip, tcp) ∷ ds) t =
      let (seq, l) = draw o 32 t.line in
      let h' = accepted h seq ip tcp in
      let h'' = record h' { seq = add32 seq 1 } in
      let (e, l') = transmit o syn_ack [] h' l in
      elim e [
        | some _ ↦ none
        | none ↦
            with_new (record p { a = t.next_id }) h''
              (accept_dups h ps (unmatched h'' ds) (record t {
                ports = count_port h.local.1 t.ports;
                next_id = (t.next_id + 1) % 2 ^ 64;
                line = l';
              }))
      ]

  abbrev pub Listened : Type 0
  Listened = Option (Map Handle × Tcpd × NewHandles)

  abbrev pub listened : ℕ → Handle → NewHandles → Listened → Listened
  listened id h news none = none
  listened id h news (some (hs, t, rest)) = some ((id, h) ∷ hs, t, news ++ rest)

  -- The loop over the listening handles.
  unfoldable pub accept_all : Ipv4 → Tcp → Map Handle → Tcpd → Listened
  unfolding accept_dups
  accept_all ip tcp [] t = some ([], t, [])
  accept_all ip tcp ((id, h) ∷ hs) t =
      if is_listen h.state && matches h ip tcp
      then (elim (accept_dups h h.todo_dup (h.segments ++ ((ip, tcp) ∷ [])) t) [
        | none ↦ none
        | some (ps, ds, t', news) ↦
            listened id (record h { todo_dup = ps; segments = ds }) news (accept_all ip tcp hs t')
      ])
      else (listened id h [] (accept_all ip tcp hs t))

  -- The new handles are stored, and their packets answered.
  unfoldable pub store_new : NewHandles → Map Handle → Map Handle × List Answer
  store_new [] hs = (hs, [])
  store_new ((p, h) ∷ news) hs =
      let (hs', answers) = store_new news (insert p.a h hs) in (hs', (p, []) ∷ answers)

  abbrev pub stored : List Answer → Listened → Option (Tcpd × List Answer)
  stored answers none = none
  stored answers (some (hs, t, news)) =
      let (hs', new_answers) = store_new news hs in
      some (record t { handles = hs' }, answers ++ new_answers)

  abbrev pub accept_new : Bool → Ipv4 → Tcp → List Answer → Tcpd → Option (Tcpd × List Answer)
  accept_new found ip tcp answers t =
      if not found && bit_and tcp.header.flags syn_ack == tcp_syn
      then (stored answers (accept_all ip tcp t.handles t))
      else some (t, answers)

  abbrev pub after_delivery : Ipv4 → Tcp → Tcpd → Delivered → Option (Tcpd × List Answer)
  after_delivery ip tcp t none = none
  after_delivery ip tcp t (some (hs, found, ids, l, answers)) =
      elim (close_handles ids (record t { handles = hs; line = l })) [
        | none ↦ none
        | some t' ↦ accept_new found ip tcp answers t'
      ]

  -- A segment is taken.
  unfoldable pub receive_segment : Ipv4 → Tcp → Tcpd → Option (Tcpd × List Answer)
  unfolding deliver close_handles accept_all store_new
  receive_segment ip tcp t = after_delivery ip tcp t (deliver o ip tcp t.handles t.line)

  abbrev pub receive_tcp : Ipv4 → Option Tcp → Tcpd → Option (Tcpd × List Answer)
  receive_tcp ip none t = some (t, [])
  receive_tcp ip (some tcp) t = receive_segment ip tcp t

  abbrev pub receive_ip : Option Ipv4 → Tcpd → Option (Tcpd × List Answer)
  receive_ip none t = some (t, [])
  receive_ip (some ip) t = receive_tcp ip (tcp_from_bytes ip.payload) t

  -- One round of `tcp_event`, for the bytes that have been read.
  unfoldable pub receive_bytes : List ℕ → Tcpd → Option (Tcpd × List Answer)
  unfolding receive_segment
  receive_bytes bytes t = receive_ip (ip_from_bytes bytes) t

  abbrev answered : List Answer → Option (Tcpd × List Answer) → Option (Tcpd × List Answer)
  answered answers none = none
  answered answers (some (t, rest)) = some (t, answers ++ rest)

  -- `tcp_event`: what each read of the network gives, up to one that gives nothing.
  unfoldable pub tcp_event : List (List ℕ) → Tcpd → Option (Tcpd × List Answer)
  unfolding receive_bytes
  tcp_event [] t = some (t, [])
  tcp_event (bytes ∷ reads) t =
      if length bytes == 0 then some (t, []) else (elim (receive_bytes bytes t) [
        | none ↦ none
        | some (t', answers) ↦ answered answers (tcp_event reads t')
      ])
