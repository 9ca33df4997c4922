-- ===== src/Net/Tcpd/Open.antt =====
-- schemes/tcpd/src/main.rs: `open` and `dup` of connections. Whether a text is UTF-8 is an argument.
use origel.Base.{
  leb, ◌==◌, if◌then◌else◌, eq_bytes, ℕ, ◌+◌, ◌%◌, ◌^◌, Bool, true, false, ◌&&◌, not, Option, none,
  some, List, [], ◌∷◌,
}
use origel.Base.Map.{Map, lookup, insert, contains_key}
use origel.Syscall.Error.{Result, ok, err, eacces, eaddrinuse, ebadf, einval, eisconn, ewouldblock}
use origel.Net.Wire.{Ipv4, Tcp}
use origel.Base.Text.{split}
use origel.Net.Address.{Socket, part, parse_socket}
use origel.Net.Tcpd.{
  listen, syn_sent, syn_received, Handle, tcp_syn, syn_ack, is_connected, matches, Outside, Line,
  Tcpd, add32, draw, draw_port, transmit,
}

abbrev pub new_handle : Socket → Socket → ℕ → Handle
new_handle local remote flags = record {
  local = local;
  remote = remote;
  flags = flags;
  events = 0;
  state = listen;
  seq = 0;
  ack = 0;
  segments = [];
  todo_dup = [];
  todo_read = [];
  todo_write = [];
}

abbrev pub opened : ℕ → Tcpd → Result Handle × Line → Result ℕ × Tcpd
opened port t (err e, l) = (err e, record t { line = l })
opened port t (ok h, l) = (
  ok t.next_id,
  record t {
    ports = insert port 1 t.ports;
    next_id = (t.next_id + 1) % 2 ^ 64;
    handles = insert t.next_id h t.handles;
    line = l;
  },
)

-- `data.retain(..)`: the segments that do not match the new handle, and those that do.
unfoldable pub unmatched : Handle → List (Ipv4 × Tcp) → List (Ipv4 × Tcp)
unmatched h [] = []
unmatched h ((ip, tcp) ∷ ds) =
    let rest = unmatched h ds in if matches h ip tcp then rest else (ip, tcp) ∷ rest

unfoldable pub matched : Handle → List (Ipv4 × Tcp) → List (Ipv4 × Tcp)
matched h [] = []
matched h ((ip, tcp) ∷ ds) =
    let rest = matched h ds in if matches h ip tcp then (ip, tcp) ∷ rest else rest

-- The old handle and the new one, and the line.
abbrev pub Duplicated : Type 0
Duplicated = Result Handle × Handle × Line

abbrev pub after_syn : Handle → List (Ipv4 × Tcp) → Handle → Option ℕ × Line → Duplicated
after_syn h ds h' (some e, l) = (err e, record h { segments = ds }, l)
after_syn h ds h' (none, l) = (
  ok (record h' { seq = add32 h'.seq 1 }),
  record h { segments = unmatched (record h' { seq = add32 h'.seq 1 }) ds },
  l,
)

abbrev pub after_connect : Handle → Handle → Option ℕ × Line → Duplicated
after_connect h h' (some e, l) = (err e, record h { segments = unmatched h' h.segments }, l)
after_connect h h' (none, l) = (ok h', record h { segments = unmatched h' h.segments }, l)

abbrev pub copy_of : Handle → Handle
copy_of h = record h { events = 0; segments = []; todo_dup = []; todo_read = []; todo_write = [] }

-- One more handle on a port.
abbrev pub count_port : ℕ → Map ℕ → Map ℕ
count_port port ports = elim (lookup port ports) [
  | none ↦ ports
  | some n ↦ insert port ((n + 1) % 2 ^ 64) ports
]

abbrev pub duplicated : ℕ → Tcpd → Duplicated → Result ℕ × Tcpd
duplicated file t (err e, old, l) =
    (err e, record t { handles = insert file old t.handles; line = l })
duplicated file t (ok h, old, l) = (
  ok t.next_id,
  record t {
    ports = count_port h.local.1 t.ports;
    next_id = (t.next_id + 1) % 2 ^ 64;
    handles = insert t.next_id h (insert file old t.handles);
    line = l;
  },
)

module _ (o : Outside) where
  -- The handle that `open` makes, and its first segment if it is connected.
  unfoldable pub start_open : Handle → Line → Result Handle × Line
  start_open h l =
      let (seq, l') = draw o 32 l in
      let h' = record h { seq = seq; ack = 0; state = syn_sent } in
      let (e, l'') = transmit o tcp_syn [] h' l' in
      if is_connected h
      then (elim e [ some e ↦ err e | none ↦ ok (record h' { seq = add32 seq 1 }) ], l'')
      else (ok h, l)

  -- The checks of `open`, for the local socket with its port.
  abbrev pub open_at : Socket → ℕ → ℕ → Socket → Tcpd → Result ℕ × Tcpd
  open_at remote flags uid local t =
      if leb local.1 1024 && not (uid == 0)
      then (err eacces, t)
      else if contains_key local.1 t.ports
      then (err eaddrinuse, t)
      else (opened local.1 t (start_open (new_handle local remote flags) t.line))

  -- `open`
  unfoldable pub open_tcp : Bool → List ℕ → (flags uid : ℕ) → Tcpd → Result ℕ × Tcpd
  unfolding start_open
  open_tcp false url flags uid t = (err einval, t)
  open_tcp true url flags uid t =
      let parts = split b'/' url in
      let remote = parse_socket (part 0 parts) in
      let local = parse_socket (part 1 parts) in
      let (port, l) = draw_port o t.line in
      if local.1 == 0
      then (open_at remote flags uid (local.0, port) (record t { line = l }))
      else (open_at remote flags uid local t)

  -- `dup` with the path `listen`, and the handle for the segment that opens a connection.
  unfoldable pub dup_listen : Handle → Handle → List (Ipv4 × Tcp) → Line → Duplicated
  unfolding unmatched
  dup_listen h copy [] l = if is_connected h then (err eisconn, h, l) else (err ewouldblock, h, l)
  dup_listen h copy ((ip, tcp) ∷ ds) l =
      let (seq, l') = draw o 32 l in
      let h' = record copy {
        remote = (ip.header.src, tcp.header.src);
        seq = seq;
        ack = add32 tcp.header.sequence 1;
        state = syn_received;
      } in
      if is_connected h
      then (err eisconn, h, l)
      else (after_syn h ds h' (transmit o syn_ack [] h' l'))

  -- `dup` with the path of a remote socket.
  unfoldable pub dup_connect : Handle → Handle → List ℕ → Line → Duplicated
  unfolding unmatched matched
  dup_connect h copy path l =
      let to = record copy { remote = parse_socket path } in
      let (seq, l') = draw o 32 l in
      let h' = record to { seq = seq; ack = 0; state = syn_sent } in
      let h'' = record h' { segments = matched h' h.segments } in
      if is_connected h
      then (err eisconn, h, l)
      else if is_connected to
      then (after_connect h h'' (transmit o tcp_syn [] h'' l'))
      else (err einval, h, l)

  unfoldable pub dup_handle : List ℕ → Handle → Line → Duplicated
  unfolding dup_listen dup_connect
  dup_handle path h l =
      if eq_bytes path (b'l' ∷ b'i' ∷ b's' ∷ b't' ∷ b'e' ∷ b'n' ∷ [])
      then (dup_listen h (copy_of h) h.segments l)
      else if eq_bytes path []
      then (ok (record (copy_of h) { segments = h.segments }), h, l)
      else (dup_connect h (copy_of h) path l)

  -- `dup`
  unfoldable pub dup_tcp : Bool → (file : ℕ) → List ℕ → Tcpd → Result ℕ × Tcpd
  unfolding dup_handle
  dup_tcp false file path t = (err einval, t)
  dup_tcp true file path t = elim (lookup file t.handles) [
    | none ↦ (err ebadf, t)
    | some h ↦ duplicated file t (dup_handle path h t.line)
  ]
