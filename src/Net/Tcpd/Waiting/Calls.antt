-- ===== src/Net/Tcpd/Waiting/Calls.antt =====
-- What the calls of tcpd do to the handles.
use origel.Base.{
  leb, ◌==◌, Bool-cases, Option-cases, eq_bytes, ℕ, ◌≡◌, refl, ap, inl, inr, Bool, true, false,
  ◌&&◌, not, Option, none, some, List, [], ◌∷◌, if-cases,
}
use origel.Base.Map.{lookup, contains_key}
use origel.Syscall.Error.{Result, ok, err}
use origel.Net.Wire.{Ipv4, Tcp}
use origel.Net.Tcpd.{
  syn_sent, Handle, Outside, Line, Tcpd, is_connected, transmit, draw, draw_port, add32, tcp_syn,
}
use origel.Base.Text.{split}
use origel.Net.Address.{Socket, part, parse_socket}
use origel.Net.Tcpd.Open.{
  open_tcp, dup_tcp, start_open, new_handle, opened, open_at, unmatched, Duplicated, copy_of,
  dup_handle, dup_listen, dup_connect, after_syn, after_connect, duplicated,
}
use origel.Net.Tcpd.Receive.{is_listen}
use origel.Net.Tcpd.Waiting.Handles.{fewer-IsServed}
use origel.Net.Tcpd.Waiting.{IsServed, IsSound, lookup-Every, insert-Every}

module _ (o : Outside) where
  abbrev ServedOr : Result Handle × Line → Type 0
  ServedOr (err e, l) = Unit {0}
  ServedOr (ok h, l) = IsServed h

  started-ServedOr :
      (h : Handle) (r : Option ℕ × Line)
      → IsServed h
      → ServedOr (elim r.0 [ some e ↦ err e | none ↦ ok h ], r.1)
  started-ServedOr h (none, l) s = s
  started-ServedOr h (some e, l) s = tt

  start_open-ServedOr :
      (local remote : Socket) (flags : ℕ) (l : Line)
      → ServedOr (start_open o (new_handle local remote flags) l)
  unfolding start_open
  start_open-ServedOr local remote flags l =
      let h = new_handle local remote flags in
      let (seq, l') = draw o 32 l in
      let h' = record h { seq = add32 seq 1; ack = 0; state = syn_sent } in
      elim (Bool-cases (is_connected h)) [
        | inl b ↦ rw b (
            started-ServedOr h' (transmit o tcp_syn [] (record h' { seq = seq }) l')
              (record { waits = inl refl; listens = λ e. absurd (cc) }))
        | inr b ↦ rw b (record { waits = inl refl; listens = λ _. (b, refl) })
      ]

  abbrev Sound : Result ℕ × Tcpd → Type 0
  Sound (r, t) = IsSound t

  opened-Sound :
      (port : ℕ) (t : Tcpd) (r : Result Handle × Line)
      → IsSound t
      → ServedOr r
      → Sound (opened port t r)
  opened-Sound port t (err e, l) s k = s
  opened-Sound port t (ok h, l) s k = insert-Every t.next_id h t.handles k s

  open_at-Sound :
      (remote : Socket) (flags uid : ℕ) (local : Socket) (t : Tcpd)
      → IsSound t
      → Sound (open_at o remote flags uid local t)
  open_at-Sound remote flags uid local t s =
      if-cases Sound (leb local.1 1024 && not (uid == 0)) _ _ s (
        if-cases Sound (contains_key local.1 t.ports) _ _ s
          (opened-Sound local.1 t _ s (start_open-ServedOr local remote flags t.line)))

  pub open_tcp-Sound :
      (b : Bool) (url : List ℕ) (flags uid : ℕ) (t : Tcpd)
      → IsSound t
      → IsSound (open_tcp o b url flags uid t).1
  unfolding open_tcp
  open_tcp-Sound false url flags uid t s = s
  open_tcp-Sound true url flags uid t s =
      let parts = split b'/' url in
      let remote = parse_socket (part 0 parts) in
      let local = parse_socket (part 1 parts) in
      if-cases Sound (local.1 == 0) _ _
        (open_at-Sound remote flags uid (local.0, (draw_port o t.line).0)
          (record t { line = (draw_port o t.line).1 }) s)
        (open_at-Sound remote flags uid local t s)

  -- `dup`: both handles are sound.
  abbrev BothServed : Duplicated → Type 0
  BothServed (err e, old, l) = IsServed old
  BothServed (ok h, old, l) = IsServed h × IsServed old

  unmatched-nil : (g : Handle) (ds : List (Ipv4 × Tcp)) → ds ≡ [] → unmatched g ds ≡ []
  unfolding unmatched
  unmatched-nil g ds e = ap (unmatched g) e

  after_syn-BothServed :
      (h h' : Handle) (ds : List (Ipv4 × Tcp)) (r : Option ℕ × Line)
      → IsServed (record h { segments = ds })
      → (h.segments ≡ [] → ds ≡ [])
      → IsServed h
      → is_listen h'.state ≡ false
      → h'.todo_read ≡ []
      → BothServed (after_syn h ds h' r)
  after_syn-BothServed h h' ds (some e, l) k few s n q = k
  after_syn-BothServed h h' ds (none, l) k few s n q = (
    record { waits = inl q; listens = λ e. absurd (cc) },
    fewer-IsServed h _ s (λ e. unmatched-nil (record h' { seq = add32 h'.seq 1 }) ds (few e)),
  )

  after_connect-BothServed :
      (h h' : Handle) (r : Option ℕ × Line)
      → IsServed h
      → is_listen h'.state ≡ false
      → h'.todo_read ≡ []
      → BothServed (after_connect h h' r)
  after_connect-BothServed h h' (some e, l) s n q =
      fewer-IsServed h _ s (unmatched-nil h' h.segments)
  after_connect-BothServed h h' (none, l) s n q = (
    record { waits = inl q; listens = λ e. absurd (cc) },
    fewer-IsServed h _ s (unmatched-nil h' h.segments),
  )

  dup_listen-BothServed :
      (h : Handle) (ds : List (Ipv4 × Tcp)) (l : Line)
      → h.segments ≡ ds
      → IsServed h
      → BothServed (dup_listen o h (copy_of h) ds l)
  unfolding dup_listen
  dup_listen-BothServed h [] l e s = if-cases BothServed (is_connected h) _ _ s s
  dup_listen-BothServed h ((ip, tcp) ∷ ds) l e s =
      let few : h.segments ≡ [] → ds ≡ [] = λ q. absurd (cc) in
      if-cases BothServed (is_connected h) _ _ s
        (after_syn-BothServed h _ ds _ (fewer-IsServed h ds s few) few s refl refl)

  dup_connect-BothServed :
      (path : List ℕ) (h : Handle) (l : Line)
      → IsServed h
      → BothServed (dup_connect o h (copy_of h) path l)
  unfolding dup_connect
  dup_connect-BothServed path h l s = if-cases BothServed (is_connected h) _ _ s (
      if-cases BothServed (is_connected (record (copy_of h) { remote = parse_socket path })) _ _
        (after_connect-BothServed h _ _ s refl refl) s)

  dup_handle-BothServed :
      (path : List ℕ) (h : Handle) (l : Line) → IsServed h → BothServed (dup_handle o path h l)
  unfolding dup_handle is_connected
  dup_handle-BothServed path h l s =
      let copy : IsServed (record (copy_of h) { segments = h.segments }) = record {
        waits = inl refl;
        listens = λ e. ((s.listens e).0, refl);
      } in
      if-cases BothServed (eq_bytes path (b'l' ∷ b'i' ∷ b's' ∷ b't' ∷ b'e' ∷ b'n' ∷ [])) _ _
        (dup_listen-BothServed h h.segments l refl s)
        (if-cases BothServed (eq_bytes path []) _ _ (copy, s) (dup_connect-BothServed path h l s))

  duplicated-Sound :
      (file : ℕ) (t : Tcpd) (r : Duplicated)
      → IsSound t
      → BothServed r
      → Sound (duplicated file t r)
  duplicated-Sound file t (err e, old, l) s k = insert-Every file old t.handles k s
  duplicated-Sound file t (ok h, old, l) s k =
      insert-Every t.next_id h _ k.0 (insert-Every file old t.handles k.1 s)

  pub dup_tcp-Sound :
      (b : Bool) (file : ℕ) (path : List ℕ) (t : Tcpd)
      → IsSound t
      → IsSound (dup_tcp o b file path t).1
  unfolding dup_tcp
  dup_tcp-Sound false file path t s = s
  dup_tcp-Sound true file path t s = elim (Option-cases (lookup file t.handles)) [
    | inl missing ↦ rw (dup_tcp, missing) s
    | inr (h, found) ↦
        let k = lookup-Every file t.handles h s found in
        rw (dup_tcp, found) (duplicated-Sound file t _ s (dup_handle-BothServed path h t.line k))
  ]
