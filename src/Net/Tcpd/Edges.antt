-- ===== src/Net/Tcpd/Edges.antt =====
-- How segments move a connection from state to state.
use origel.Base.{
  ltb, ◌==◌, length, ℕ, bit_and, bit_or, ◌≡◌, ◌⊎◌, Bool, true, false, ◌&&◌, not, some, arith,
}
use origel.Net.Wire.{Ipv4, Tcp}
use origel.Net.Tcpd.{
  State, listen, closing, syn_sent, syn_received, established, fin_wait1, fin_wait2, close_wait,
  last_ack, time_wait, closed, Handle, Outside, Line, tcp_ack, tcp_fin, syn_ack,
}
use origel.Net.Tcpd.Receive.{on_segment, has_fin}

-- The bits of the flags that a segment must have in a state, among those that are looked at: the answer to a
-- first segment has both SYN and ACK, later ones have no SYN, and the last one in `FinWait2` has FIN.
abbrev pub asked : State → ℕ × ℕ
asked syn_sent = (syn_ack, syn_ack)
asked fin_wait2 = (bit_or syn_ack tcp_fin, bit_or tcp_ack tcp_fin)
asked _ = (syn_ack, tcp_ack)

-- A segment that a handle in a state reacts to: with these flags, and with the handle's sequence number, which
-- is behind all that it has sent, as the number that it acknowledges.
abbrev pub fits : State → Tcp → Handle → Bool
fits s tcp h = bit_and tcp.header.flags (asked s).0 == (asked s).1 && tcp.header.ack_num == h.seq

-- The state behind such a segment, which may have FIN, and bytes.
abbrev pub next_state : State → (fin bytes : Bool) → State
next_state syn_sent fin bytes = established
next_state syn_received fin bytes = established
next_state established true false = close_wait
next_state fin_wait1 true bytes = time_wait
next_state fin_wait1 false bytes = fin_wait2
next_state fin_wait2 fin bytes = time_wait
next_state last_ack fin bytes = closed
next_state s fin bytes = s

abbrev pub is_over : State → Bool
is_over time_wait = true
is_over closed = true
is_over _ = false

-- A segment that has not the flags asked for in the state of a handle, or does not acknowledge just what the
-- handle has sent, changes nothing and is not answered. One that has and does moves the handle as the table
-- of `next_state` says: a handle that opens or waits to is then established; an established one goes to
-- `CloseWait` at a FIN without bytes; `FinWait1` goes to `TimeWait` at a FIN and else to `FinWait2`; `FinWait2`
-- goes to `TimeWait`, and `LastAck` to `Closed`. The handle is to be removed just when it comes to `TimeWait` or
-- `Closed` from another state. Its sockets, its sequence number and the calls that wait in it stay as they are.
-- All this holds if no write of an answer to the network fails.
pub on_segment-next_state :
    (o : Outside) (s : State) (ip : Ipv4) (tcp : Tcp) (h h' : Handle) (gone : Bool) (l l' : Line)
    → h.state ≡ s
    → on_segment o s ip tcp h l ≡ some (h', gone, l')
    → (((fits s tcp h ≡ false) × (h' ≡ h) × (gone ≡ false) × (l' ≡ l))
        ⊎ ((fits s tcp h ≡ true)
            × (h'.state ≡ next_state s (has_fin tcp) (ltb 0 (length tcp.payload)))
            × (gone ≡ (is_over h'.state && not (is_over s)))))
      × (h'.local ≡ h.local)
      × (h'.remote ≡ h.remote)
      × (h'.seq ≡ h.seq)
      × (h'.todo_dup ≡ h.todo_dup)
      × (h'.todo_read ≡ h.todo_read)
      × (h'.todo_write ≡ h.todo_write)
unfolding on_segment
on_segment-next_state o listen ip tcp h h' gone l l' e r = grind arith
on_segment-next_state o syn_sent ip tcp h h' gone l l' e r = grind arith
on_segment-next_state o syn_received ip tcp h h' gone l l' e r = grind arith
on_segment-next_state o established ip tcp h h' gone l l' e r = grind arith
on_segment-next_state o fin_wait1 ip tcp h h' gone l l' e r = grind arith
on_segment-next_state o fin_wait2 ip tcp h h' gone l l' e r = grind arith
on_segment-next_state o close_wait ip tcp h h' gone l l' e r = grind arith
on_segment-next_state o closing ip tcp h h' gone l l' e r = grind arith
on_segment-next_state o last_ack ip tcp h h' gone l l' e r = grind arith
on_segment-next_state o time_wait ip tcp h h' gone l l' e r = grind arith
on_segment-next_state o closed ip tcp h h' gone l l' e r = grind arith
