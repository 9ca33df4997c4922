-- ===== src/Net/Tcpd/Waiting/Files.antt =====
-- What the calls of tcpd on open connections do to the handles.

use origel.Base.{
  leb, ◌==◌, Option-cases, length, ℕ, ◌≡◌, refl, sym, ap, ◌∙◌, inl, inr, true, false, not, Option,
  none, some, List, [], ◌∷◌, if-cases,
}
use origel.Base.Map.{lookup, insert}
use origel.Syscall.Error.{Result}
use origel.Syscall.Scheme.{Packet, Call, open_path, dup, read, write, fcntl, fevent, close}
use origel.Net.Wire.{Ipv4, Tcp}
use origel.Net.Tcpd.{
  State, syn_received, established, fin_wait1, close_wait, last_ack, Handle, Outside, Line, Tcpd,
  is_connected, read_closed, closed_state,
}
use origel.Net.Tcpd.Calls.{
  read_from, read_tcp, write_tcp, fcntl_tcp, fevent_tcp, close_tcp, written, write_in, finished,
  close_in,
}
use origel.Net.Tcpd.Serve.{tcp_call}
use origel.Net.Tcpd.Receive.{is_listen}
use origel.Net.Tcpd.Waiting.{IsServed, Every, IsSound, lookup-Every, insert-Every, remove-Every}
use origel.Net.Tcpd.Waiting.Handles.{fewer-IsServed}
use origel.Net.Tcpd.Waiting.Calls.{open_tcp-Sound, dup_tcp-Sound}

-- Calls that leave the segments, the reads, the state and the sockets of a handle.
module _ (h : Handle) (s : IsServed h) where
  with_seq-IsServed : (n : ℕ) → IsServed (record h { seq = n })
  unfolding is_connected read_closed
  with_seq-IsServed n = record { waits = s.waits; listens = s.listens }

  with_events-IsServed : (n : ℕ) → IsServed (record h { events = n })
  unfolding is_connected read_closed
  with_events-IsServed n = record { waits = s.waits; listens = s.listens }

  with_flags-IsServed : (n : ℕ) → IsServed (record h { flags = n })
  unfolding is_connected read_closed
  with_flags-IsServed n = record { waits = s.waits; listens = s.listens }

  pub with_dups-IsServed : (ps : List Packet) → IsServed (record h { todo_dup = ps })
  unfolding is_connected read_closed
  with_dups-IsServed ps = record { waits = s.waits; listens = s.listens }

  pub with_writes-IsServed : (ps : List Packet) → IsServed (record h { todo_write = ps })
  unfolding is_connected read_closed
  with_writes-IsServed ps = record { waits = s.waits; listens = s.listens }

abbrev pub Sound {ℓ} : {A : Type ℓ} → A × Tcpd → Type 0
Sound (r, t) = IsSound t

-- A call on a handle that is there.
module _ (file : ℕ) (t : Tcpd) (h : Handle) (s : IsSound t) (k : IsServed h) where
  pub put-IsSound : (h' : Handle) → IsServed h' → Every (insert file h' t.handles)
  put-IsSound h' s' = insert-Every file h' t.handles s' s

  read_from-Sound :
      (ds : List (Ipv4 × Tcp)) (n : ℕ) → h.segments ≡ ds → Sound (read_from ds file n h t)
  read_from-Sound [] n e = if-cases Sound _ _ _ s s
  read_from-Sound (d ∷ ds) n e =
      put-IsSound (record h { segments = ds }) (fewer-IsServed h ds k (λ q. absurd (cc)))

read_tcp-Sound : (file n : ℕ) (t : Tcpd) → IsSound t → IsSound (read_tcp file n t).1
unfolding read_tcp
read_tcp-Sound file n t s = elim (Option-cases (lookup file t.handles)) [
  | inl missing ↦ rw (read_tcp, missing) s
  | inr (h, found) ↦
      let k = lookup-Every file t.handles h s found in
      rw (read_tcp, found)
        (if-cases Sound (is_connected h) _ _ (read_from-Sound file t h s k h.segments n refl) s)
]

fcntl_tcp-Sound : (file cmd arg : ℕ) (t : Tcpd) → IsSound t → IsSound (fcntl_tcp file cmd arg t).1
unfolding fcntl_tcp
fcntl_tcp-Sound file cmd arg t s = elim (Option-cases (lookup file t.handles)) [
  | inl missing ↦ rw (fcntl_tcp, missing) s
  | inr (h, found) ↦
      let k = lookup-Every file t.handles h s found in
      rw (fcntl_tcp, found)
        (put-IsSound file t h s k _ (
          if-cases (λ (x : Result ℕ × Handle). IsServed x.1) (cmd == 1) _ _ k
            (if-cases (λ (x : Result ℕ × Handle). IsServed x.1) (cmd == 2) _ _
              (with_flags-IsServed h k _) k)))
]

fevent_tcp-Sound : (file flags : ℕ) (t : Tcpd) → IsSound t → IsSound (fevent_tcp file flags t).1
unfolding fevent_tcp
fevent_tcp-Sound file flags t s = elim (Option-cases (lookup file t.handles)) [
  | inl missing ↦ rw (fevent_tcp, missing) s
  | inr (h, found) ↦
      let k = lookup-Every file t.handles h s found in
      rw (fevent_tcp, found) (put-IsSound file t h s k _ (with_events-IsServed h k flags))
]

module _ (o : Outside) where
  module _ (file : ℕ) (t : Tcpd) (h : Handle) (s : IsSound t) (k : IsServed h) where
    written-Sound : (buf : List ℕ) (r : Option ℕ × Line) → Sound (written o file buf h t r)
    written-Sound buf (some e, l) = s
    written-Sound buf (none, l) = put-IsSound file t h s k _ (with_seq-IsServed h k _)

    write_in-Sound : (state : State) (buf : List ℕ) → Sound (write_in o state file buf h t)
    write_in-Sound established buf = written-Sound buf _
    write_in-Sound _ buf = s

    finished-Sound :
        (h' : Handle) (r : Option ℕ × Line) → IsServed h' → Sound (finished o file h' t r)
    finished-Sound h' (some e, l) s' = put-IsSound file t h s k h' s'
    finished-Sound h' (none, l) s' = put-IsSound file t h s k _ (with_seq-IsServed h' s' _)

    -- A handle that has been closed has no segments; one that was at its end already has no reads.
    cleared :
        (state : State)
        → closed_state state ≡ false
        → is_listen state ≡ false
        → IsServed (record h { state = state; segments = [] })
    unfolding read_closed
    cleared state c n = record { waits = inr (refl, c); listens = λ e. absurd (cc) }

    at_end : h.state ≡ close_wait → IsServed (record h { state = last_ack; segments = [] })
    unfolding read_closed
    at_end e = record {
      waits = elim k.waits [
        | inl q ↦ inl q
        | inr (q, c) ↦ let no : true ≡ false = sym (ap closed_state e) ∙ c in absurd (cc)
      ];
      listens = λ e. absurd (cc);
    }

    close_in-Sound : (state : State) → h.state ≡ state → Sound (close_in o state file h t)
    close_in-Sound syn_received e = finished-Sound _ _ (cleared fin_wait1 refl refl)
    close_in-Sound established e = finished-Sound _ _ (cleared fin_wait1 refl refl)
    close_in-Sound close_wait e = finished-Sound _ _ (at_end e)
    close_in-Sound _ e = remove-Every file t.handles s

  write_tcp-Sound :
      (file : ℕ) (buf : List ℕ) (t : Tcpd) → IsSound t → IsSound (write_tcp o file buf t).1
  unfolding write_tcp
  write_tcp-Sound file buf t s = elim (Option-cases (lookup file t.handles)) [
    | inl missing ↦ rw (write_tcp, missing) s
    | inr (h, found) ↦
        let k = lookup-Every file t.handles h s found in
        rw (write_tcp, found)
          (if-cases Sound (not (is_connected h)) _ _ s (
            if-cases Sound (leb 65507 (length buf)) _ _ s
              (write_in-Sound file t h s k h.state buf)))
  ]

  close_tcp-Sound : (file : ℕ) (t : Tcpd) → IsSound t → IsSound (close_tcp o file t).1
  unfolding close_tcp
  close_tcp-Sound file t s = elim (Option-cases (lookup file t.handles)) [
    | inl missing ↦ rw (close_tcp, missing) s
    | inr (h, found) ↦
        let k = lookup-Every file t.handles h s found in
        rw (close_tcp, found) (close_in-Sound file t h s k h.state refl)
  ]

  -- Every call keeps the handles sound.
  pub tcp_call-Sound : (call : Call) (t : Tcpd) → IsSound t → IsSound (tcp_call o call t).1
  unfolding tcp_call
  tcp_call-Sound (open_path address length flags uid gid) t s = open_tcp-Sound o _ _ flags uid t s
  tcp_call-Sound (dup id address length) t s = dup_tcp-Sound o _ id _ t s
  tcp_call-Sound (read id address length) t s = read_tcp-Sound id length t s
  tcp_call-Sound (write id address length) t s = write_tcp-Sound id _ t s
  tcp_call-Sound (fcntl id cmd arg) t s = fcntl_tcp-Sound id cmd arg t s
  tcp_call-Sound (fevent id flags) t s = fevent_tcp-Sound id flags t s
  tcp_call-Sound (close id) t s = close_tcp-Sound id t s
  tcp_call-Sound _ t s = s
