-- ===== src/Net/Tcpd/Calls.antt =====
-- schemes/tcpd/src/main.rs: the calls on open connections.
use origel.Base.{
  leb, ◌==◌, if◌then◌else◌, length, take, ℕ, ◌+◌, ◌-◌, ◌%◌, ◌^◌, bit_and, bit_or, ◌||◌, not, Option,
  none, some, List, [], ◌∷◌, ◌++◌,
}
use origel.Base.Map.{Map, lookup, insert, remove}
use origel.Syscall.Error.{Result, ok, err, ebadf, einval, emsgsize, enotconn, ewouldblock}
use origel.Syscall.Flag.{o_nonblock, f_getfl, f_setfl, o_accmode}
use origel.Net.Address.{socket_to_string}
use origel.Net.Tcpd.{
  Tcp, Ipv4, State, syn_received, established, fin_wait1, close_wait, last_ack, Handle, tcp_ack,
  tcp_fin, tcp_psh, is_connected, read_closed, Outside, Line, Tcpd, add32, transmit,
}

-- `read` into a buffer of `n` bytes: the bytes that it stores. The rest of a segment is lost.
abbrev pub read_from : List (Ipv4 × Tcp) → (file n : ℕ) → Handle → Tcpd → Result (List ℕ) × Tcpd
read_from ((_, tcp) ∷ ds) file n h t = (
  ok (take n tcp.payload),
  record t { handles = insert file (record h { segments = ds }) t.handles },
)
read_from [] file n h t =
    if bit_and h.flags o_nonblock == o_nonblock || read_closed h
    then (ok [], t)
    else (err ewouldblock, t)

unfoldable pub read_tcp : (file n : ℕ) → Tcpd → Result (List ℕ) × Tcpd
read_tcp file n t = elim (lookup file t.handles) [
  | none ↦ (err ebadf, t)
  | some h ↦ if is_connected h then (read_from h.segments file n h t) else (err enotconn, t)
]

-- `fcntl`, `fevent`, `fpath` into a buffer of `n` bytes, and `fsync`.
abbrev pub fcntl_handle : (cmd arg : ℕ) → Handle → Result ℕ × Handle
fcntl_handle cmd arg h =
    if cmd == f_getfl
    then (ok h.flags, h)
    else if cmd == f_setfl
    then (ok 0, record h { flags = bit_and arg (2 ^ 64 - 1 - o_accmode) })
    else (err einval, h)

unfoldable pub fcntl_tcp : (file cmd arg : ℕ) → Tcpd → Result ℕ × Tcpd
fcntl_tcp file cmd arg t = elim (lookup file t.handles) [
  | none ↦ (err ebadf, t)
  | some h ↦
      let (r, h') = fcntl_handle cmd arg h in (r, record t { handles = insert file h' t.handles })
]

unfoldable pub fevent_tcp : (file flags : ℕ) → Tcpd → Result ℕ × Tcpd
fevent_tcp file flags t = elim (lookup file t.handles) [
  | none ↦ (err ebadf, t)
  | some h ↦ (ok file, record t { handles = insert file (record h { events = flags }) t.handles })
]

unfoldable pub fpath_tcp : (file n : ℕ) → Tcpd → Result (List ℕ)
fpath_tcp file n t = elim (lookup file t.handles) [
  | none ↦ err ebadf
  | some h ↦ ok (
      take n (
        (b't' ∷ b'c' ∷ b'p' ∷ b':' ∷ [])
        ++ (socket_to_string h.remote ++ (b'/' ∷ socket_to_string h.local))))
]

unfoldable pub fsync_tcp : ℕ → Tcpd → Result ℕ
fsync_tcp file t = elim (lookup file t.handles) [ none ↦ err ebadf | some _ ↦ ok 0 ]

-- `*port = *port + 1; *port == 0`, and the removal of a port that has come to 0.
unfoldable pub release_port : ℕ → Map ℕ → Map ℕ
release_port port ports = elim (lookup port ports) [
  | none ↦ ports
  | some n ↦
      if (n + 1) % 2 ^ 64 == 0 then remove port ports else insert port ((n + 1) % 2 ^ 64) ports
]

module _ (o : Outside) where
  abbrev pub written : ℕ → List ℕ → Handle → Tcpd → Option ℕ × Line → Result ℕ × Tcpd
  written file buf h t (some e, l) = (err e, record t { line = l })
  written file buf h t (none, l) = (
    ok (length buf),
    record t {
      handles = insert file (record h { seq = add32 h.seq (length buf) }) t.handles;
      line = l;
    },
  )

  -- The arms of `write` on the state.
  abbrev pub write_in : State → ℕ → List ℕ → Handle → Tcpd → Result ℕ × Tcpd
  write_in established file buf h t =
      written file buf h t (transmit o (bit_or tcp_ack tcp_psh) buf h t.line)
  write_in _ file buf h t = (err ewouldblock, t)

  -- `write`
  unfoldable pub write_tcp : (file : ℕ) → List ℕ → Tcpd → Result ℕ × Tcpd
  write_tcp file buf t = elim (lookup file t.handles) [
    | none ↦ (err ebadf, t)
    | some h ↦
        if not (is_connected h)
        then (err enotconn, t)
        else if leb 65507 (length buf)
        then (err emsgsize, t)
        else (write_in h.state file buf h t)
  ]

  -- The `FIN` of `close`; the handle stays.
  abbrev pub finished : ℕ → Handle → Tcpd → Option ℕ × Line → Result ℕ × Tcpd
  finished file h t (some e, l) = (err e, record t { handles = insert file h t.handles; line = l })
  finished file h t (none, l) = (
    ok 0,
    record t { handles = insert file (record h { seq = add32 h.seq 1 }) t.handles; line = l },
  )

  abbrev pub send_fin : State → ℕ → Handle → Tcpd → Result ℕ × Tcpd
  send_fin state file h t =
      let h' = record h { state = state; segments = [] } in
      finished file h' t (transmit o (bit_or tcp_fin tcp_ack) [] h' t.line)

  -- The arms of `close` on the state; in the others the handle goes.
  abbrev pub close_in : State → ℕ → Handle → Tcpd → Result ℕ × Tcpd
  close_in syn_received file h t = send_fin fin_wait1 file h t
  close_in established file h t = send_fin fin_wait1 file h t
  close_in close_wait file h t = send_fin last_ack file h t
  close_in _ file h t =
      (ok 0, record t { handles = remove file t.handles; ports = release_port h.local.1 t.ports })

  -- `close`
  unfoldable pub close_tcp : ℕ → Tcpd → Result ℕ × Tcpd
  unfolding release_port
  close_tcp file t = elim (lookup file t.handles) [
    | none ↦ (err ebadf, t)
    | some h ↦ close_in h.state file h t
  ]
