-- ===== src/Net/Tcpd/Serve.antt =====
-- schemes/tcpd/src/main.rs: `scheme_event`, which takes the packets of callers. A call that would block
-- waits in its handle. The bytes that `read` and `fpath` store are those that `read_tcp` and `fpath_tcp` give.
use origel.Base.{◌==◌, if◌then◌else◌, length, ℕ, Option, none, some, List, [], ◌∷◌, ◌++◌}
use origel.Base.Map.{lookup, insert}
use origel.Syscall.Error.{Result, ok, err, mux, ewouldblock}
use origel.Syscall.Number.{sys_dup, sys_read, sys_write}
use origel.Syscall.Scheme.{
  Packet, Call, open_path, dup, read, write, fcntl, fevent, fpath, fsync, close, handle,
  default_call,
}
use origel.Net.Tcpd.{Handle, Outside, Tcpd}
use origel.Net.Tcpd.Open.{open_tcp, dup_tcp}
use origel.Net.Tcpd.Calls.{
  read_tcp, write_tcp, fcntl_tcp, fevent_tcp, fpath_tcp, fsync_tcp, close_tcp,
}

abbrev pub count : Result (List ℕ) → Result ℕ
count (ok bytes) = ok (length bytes)
count (err e) = err e

abbrev pub counted : Result (List ℕ) × Tcpd → Result ℕ × Tcpd
counted (r, t) = (count r, t)

abbrev pub put_packet : ℕ → Packet → Handle → Option Handle
put_packet a p h =
    if a == sys_dup
    then some (record h { todo_dup = h.todo_dup ++ (p ∷ []) })
    else if a == sys_read
    then some (record h { todo_read = h.todo_read ++ (p ∷ []) })
    else if a == sys_write
    then some (record h { todo_write = h.todo_write ++ (p ∷ []) })
    else none

-- A call that would block: its packet waits, with its own number, or is answered. For a handle that is
-- missing there is no answer.
unfoldable pub wait_in : (a : ℕ) → Packet → Tcpd → List Packet × Tcpd
wait_in a p t = elim (lookup p.b t.handles) [
  | none ↦ ([], t)
  | some h ↦ elim (put_packet a (record p { a = a }) h) [
    | none ↦ (p ∷ [], t)
    | some h' ↦ ([], record t { handles = insert p.b h' t.handles })
  ]
]

module _ (o : Outside) where
  -- The calls of the scheme.
  unfoldable pub tcp_call : Call → Tcpd → Result ℕ × Tcpd
  unfolding open_tcp dup_tcp read_tcp write_tcp fcntl_tcp fevent_tcp fpath_tcp fsync_tcp close_tcp
      default_call
  tcp_call (open_path address length flags uid gid) t =
      let url = o.memory address length in open_tcp o (o.is_utf8 url) url flags uid t
  tcp_call (dup id address length) t =
      let buf = o.memory address length in dup_tcp o (o.is_utf8 buf) id buf t
  tcp_call (read id address length) t = counted (read_tcp id length t)
  tcp_call (write id address length) t = write_tcp o id (o.memory address length) t
  tcp_call (fcntl id cmd arg) t = fcntl_tcp id cmd arg t
  tcp_call (fevent id flags) t = fevent_tcp id flags t
  tcp_call (fpath id address length) t = (count (fpath_tcp id length t), t)
  tcp_call (fsync id) t = (fsync_tcp id t, t)
  tcp_call (close id) t = close_tcp o id t
  tcp_call call t = (default_call call, t)

  -- One round of `scheme_event`: the packets that are written back.
  unfoldable pub serve_packet : Packet → Tcpd → List Packet × Tcpd
  serve_packet p t =
      let (p', t') = handle tcp_call p t in
      if p'.a == mux (err ewouldblock) then (wait_in p.a p' t') else (p' ∷ [], t')

  -- `scheme_event`
  unfoldable pub scheme_event : List Packet → Tcpd → List Packet × Tcpd
  unfolding serve_packet
  scheme_event [] t = ([], t)
  scheme_event (p ∷ ps) t =
      let (answers, t') = serve_packet p t in
      let (rest, t'') = scheme_event ps t' in (answers ++ rest, t'')
