-- ===== src/Net/Tcpd/Receive.antt =====
-- schemes/tcpd/src/main.rs: `tcp_event`, which takes packets from the network. An error of a write ends the
-- daemon, as does a panic: `none`. Writes to the scheme file succeed, and are the answers.
pub mod Accept
use origel.Base.{
  ltb, ◌==◌, if◌then◌else◌, length, take, ℕ, bit_and, bit_or, Bool, true, false, ◌&&◌, not, Option,
  none, some, List, [], ◌∷◌, ◌++◌,
}
use origel.Base.Map.{Map, lookup, insert, remove}
use origel.Syscall.Error.{ok, err, mux}
use origel.Syscall.Flag.{event_read}
use origel.Syscall.Number.{sys_fevent}
use origel.Syscall.Scheme.{Packet}
use origel.Net.Wire.{Ipv4, Tcp, ip_from_bytes, tcp_from_bytes}
use origel.Net.Tcpd.{
  State, listen, syn_sent, syn_received, established, fin_wait1, fin_wait2, close_wait, last_ack,
  time_wait, closed, Handle, tcp_syn, tcp_ack, tcp_fin, tcp_psh, syn_ack, read_closed, matches,
  Outside, Line, add32, transmit,
}

-- An answer to a packet, with the bytes that go into the caller's buffer.
abbrev pub Answer : Type 0
Answer = Packet × List ℕ

-- The segment acknowledges all that the handle has sent.
abbrev pub acknowledges : Handle → Tcp → Bool
acknowledges h tcp = bit_and tcp.header.flags syn_ack == tcp_ack && tcp.header.ack_num == h.seq

abbrev pub has_fin : Tcp → Bool
has_fin tcp = bit_and tcp.header.flags tcp_fin == tcp_fin

abbrev pub is_listen : State → Bool
is_listen listen = true
is_listen _ = false

-- The loop over `todo_read`: the packets and segments left, and the answers. It goes on while there is a
-- segment, or the other side has ended.
unfoldable pub answer_reads :
    Bool → List Packet → List (Ipv4 × Tcp) → List Packet × List (Ipv4 × Tcp) × List Answer
answer_reads ended [] ds = ([], ds, [])
answer_reads ended (p ∷ ps) [] =
    let (ps', ds', rest) = answer_reads ended ps [] in
    if ended then (ps', ds', (record p { a = 0 }, []) ∷ rest) else (p ∷ ps, [], [])
answer_reads ended (p ∷ ps) ((_, tcp) ∷ ds) =
    let (ps', ds', rest) = answer_reads ended ps ds in
    let stored = take p.d tcp.payload in (ps', ds', (record p { a = length stored }, stored) ∷ rest)

-- What a round of the loop over the handles gives: the handle, whether it is to be removed, and the line.
abbrev pub Moved : Type 0
Moved = Option (Handle × Bool × Line)

-- What the loop over the handles gives: the handles, whether one matched, those to remove, the line, the
-- answers.
abbrev pub Delivered : Type 0
Delivered = Option (Map Handle × Bool × List ℕ × Line × List Answer)

module _ (o : Outside) where
  abbrev acked : Handle → Bool → Option ℕ × Line → Moved
  acked h closing (some e, l) = none
  acked h closing (none, l) = some (h, closing, l)

  -- An acknowledgement is sent.
  abbrev pub send_ack : Bool → Handle → Line → Moved
  send_ack closing h l = acked h closing (transmit o tcp_ack [] h l)

  -- The arm for `Established`.
  abbrev pub take_payload : Ipv4 → Tcp → Handle → Line → Moved
  take_payload ip tcp h l =
      let size = length tcp.payload in
      if ltb 0 size
      then (send_ack false
          (record h {
            segments = h.segments ++ ((ip, tcp) ∷ []);
            ack = add32 tcp.header.sequence size;
          })
          l)
      else if has_fin tcp
      then (send_ack false (record h { ack = add32 tcp.header.sequence 1; state = close_wait }) l)
      else some (record h { ack = tcp.header.sequence }, false, l)

  -- The arms on the state, for a segment that matches.
  unfoldable pub on_segment : State → Ipv4 → Tcp → Handle → Line → Moved
  on_segment syn_received ip tcp h l =
      if acknowledges h tcp
      then some (record h { state = established }, false, l)
      else some (h, false, l)
  on_segment syn_sent ip tcp h l =
      if bit_and tcp.header.flags syn_ack == syn_ack && tcp.header.ack_num == h.seq
      then (send_ack false (record h { state = established; ack = add32 tcp.header.sequence 1 }) l)
      else some (h, false, l)
  on_segment established ip tcp h l =
      if acknowledges h tcp then (take_payload ip tcp h l) else some (h, false, l)
  on_segment fin_wait1 ip tcp h l =
      let h' = record h { ack = add32 tcp.header.sequence 1 } in
      if acknowledges h tcp
      then if has_fin tcp
        then (send_ack true (record h' { state = time_wait }) l)
        else some (record h' { state = fin_wait2 }, false, l)
      else some (h, false, l)
  on_segment fin_wait2 ip tcp h l =
      if bit_and tcp.header.flags (bit_or syn_ack tcp_fin) == bit_or tcp_ack tcp_fin
        && tcp.header.ack_num == h.seq
      then (send_ack true (record h { ack = add32 tcp.header.sequence 1; state = time_wait }) l)
      else some (h, false, l)
  on_segment last_ack ip tcp h l =
      if acknowledges h tcp then some (record h { state = closed }, true, l) else some (h, false, l)
  on_segment _ ip tcp h l = some (h, false, l)

  abbrev pub wrote : Packet → List ℕ → Handle → Option ℕ × Line → Handle × Line × List Answer
  wrote p buf h (some e, l) = (h, l, (record p { a = mux (err e) }, []) ∷ [])
  wrote p buf h (none, l) = (
    record h { seq = add32 h.seq (length buf) },
    l,
    (record p { a = mux (ok (length buf)) }, []) ∷ [],
  )

  abbrev pub write_waiting : State → List Packet → Handle → Line → Handle × Line × List Answer
  write_waiting established (p ∷ ps) h l =
      let buf = o.memory p.c p.d in
      let h' = record h { todo_write = ps } in
      wrote p buf h' (transmit o (bit_or tcp_ack tcp_psh) buf h' l)
  write_waiting _ ps h l = (h, l, [])

  -- One packet of `todo_write`, if the connection is established.
  unfoldable pub answer_write : Handle → Line → Handle × Line × List Answer
  answer_write h l = write_waiting h.state h.todo_write h l

  abbrev event_for : ℕ → List (Ipv4 × Tcp) → List Answer
  event_for id [] = []
  event_for id ((_, tcp) ∷ _) =
      (
        record {
          id = 0;
          pid = 0;
          uid = 0;
          gid = 0;
          a = sys_fevent;
          b = id;
          c = event_read;
          d = length tcp.payload;
        },
        [],
      )
      ∷ []

  -- The message for whoever waits for an event.
  pub notice : ℕ → Handle → List Answer
  notice id h = if bit_and h.events event_read == event_read then event_for id h.segments else []

  -- The rest of the round: reads and a write that wait are answered, and a message is sent.
  unfoldable pub after_segment : ℕ → Handle → Line → Handle × Line × List Answer
  unfolding answer_reads answer_write notice
  after_segment id h l =
      let (reads, ds, answers) = answer_reads (read_closed h) h.todo_read h.segments in
      let h' = record h { todo_read = reads; segments = ds } in
      let (h'', l', answers') = answer_write h' l in
      (h'', l', answers ++ (answers' ++ notice id h''))

  abbrev pub with_handle : ℕ → Handle → List Answer → Delivered → Delivered
  with_handle id h answers none = none
  with_handle id h answers (some (hs, found, ids, l, rest)) =
      some ((id, h) ∷ hs, found, ids, l, answers ++ rest)

  abbrev pub found_handle : ℕ → Bool → Delivered → Delivered
  found_handle id closing none = none
  found_handle id closing (some (hs, found, ids, l, rest)) =
      some (hs, true, (if closing then id ∷ ids else ids), l, rest)

  unfoldable pub deliver : Ipv4 → Tcp → Map Handle → Line → Delivered
  unfolding on_segment after_segment
  deliver ip tcp [] l = some ([], false, [], l, [])
  deliver ip tcp ((id, h) ∷ hs) l =
      if not (is_listen h.state) && matches h ip tcp
      then (elim (on_segment h.state ip tcp h l) [
        | none ↦ none
        | some (h', closing, l') ↦
            let (h'', l'', answers) = after_segment id h' l' in
            found_handle id closing (with_handle id h'' answers (deliver ip tcp hs l''))
      ])
      else (with_handle id h [] (deliver ip tcp hs l))
