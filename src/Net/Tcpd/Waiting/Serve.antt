-- ===== src/Net/Tcpd/Waiting/Serve.antt =====
-- What the packets of callers do to the handles of tcpd.
use mathlib.Core.Path.{subst}
use origel.Syscall.Flag.{o_nonblock}
use origel.Base.{
  ◌==◌, ==_iff, Bool-cases, Option-cases, length-take, ℕ, ◌-◌, ◌^◌, ◌<◌, bit_and, ◌≡◌, refl, sym,
  ◌∙◌, ◌⊎◌, inl, inr, true, false, ◌||◌, Option, none, some, List, [], ◌∷◌, arith, if-cases,
}
use origel.Base.Map.{lookup}
use origel.Syscall.Error.{Result, ok, err, mux, ewouldblock, ebadf, enotconn}
use origel.Syscall.Number.{sys_dup, sys_read, sys_write}
use origel.Syscall.Scheme.{Packet, read, handle, decode, decode_file}
use origel.Net.Wire.{Ipv4, Tcp}
use origel.Net.Tcpd.{Handle, Outside, Tcpd, is_connected, read_closed}
use origel.Net.Tcpd.Calls.{read_from, read_tcp}
use origel.Net.Tcpd.Serve.{count, put_packet, wait_in, tcp_call, serve_packet}
use origel.Net.Tcpd.Waiting.{IsServed, IsSound, lookup-Every}
use origel.Net.Tcpd.Waiting.Files.{
  Sound, with_dups-IsServed, with_writes-IsServed, put-IsSound, tcp_call-Sound,
}

Result-cases {ℓ} : {A : Type ℓ} (r : Result A) → ((e : ℕ) × (r ≡ err e)) ⊎ ((a : A) × (r ≡ ok a))
Result-cases (err e) = inl (e, refl)
Result-cases (ok a) = inr (a, refl)

module _ (o : Outside) where
  -- A read that would block finds nothing to read, on a connected handle.
  abbrev Idle : Handle → Type 0
  Idle h = (h.segments ≡ []) × (read_closed h ≡ false) × (is_connected h ≡ true)

  abbrev Blocked : Tcpd → ℕ → Type 0
  Blocked t file = (h : Handle) → lookup file t.handles ≡ some h → Idle h

  read_from-Blocked :
      (ds : List (Ipv4 × Tcp)) (file n : ℕ) (h : Handle) (t : Tcpd)
      → h.segments ≡ ds
      → lookup file t.handles ≡ some h
      → is_connected h ≡ true
      → n < 2 ^ 63
      → mux (count (read_from ds file n h t).0) ≡ mux (err ewouldblock)
      → Blocked (read_from ds file n h t).1 file
  unfolding mux
  read_from-Blocked [] file n h t e found c lt m =
      let stays = bit_and h.flags o_nonblock == o_nonblock || read_closed h in
      elim (Bool-cases stays) [
        | inl b ↦ let no : 0 ≡ 2 ^ 64 - 41 = ground (arith, b, m) in absurd (omega (arith, no))
        | inr b ↦
            let opened : read_closed h ≡ false = ground (arith, b) in
            rw b
              (λ g q. let same : h ≡ g = ground (arith, found, q) in subst Idle same (e, opened, c))
      ]
  read_from-Blocked ((ip, tcp) ∷ ds) file n h t e found c lt m =
      absurd (omega (arith, m, lt, length-take n tcp.payload))

  abbrev BlocksOnlyIdle : ℕ → Result (List ℕ) × Tcpd → Type 0
  BlocksOnlyIdle file (r, t) = mux (count r) ≡ mux (err ewouldblock) → Blocked t file

  read_tcp-Blocked : (file n : ℕ) (t : Tcpd) → n < 2 ^ 63 → BlocksOnlyIdle file (read_tcp file n t)
  unfolding read_tcp mux
  read_tcp-Blocked file n t lt = elim (Option-cases (lookup file t.handles)) [
    | inl missing ↦
        let run : read_tcp file n t ≡ (err ebadf, t) = rw (read_tcp, missing) refl in
        subst (BlocksOnlyIdle file) (sym run) (λ m. absurd (omega (arith, m)))
    | inr (h, found) ↦ elim (Bool-cases (is_connected h)) [
      | inl c ↦
          let run : read_tcp file n t ≡ read_from h.segments file n h t =
            rw (read_tcp, found, c) refl in
          subst (BlocksOnlyIdle file) (sym run)
            (read_from-Blocked h.segments file n h t refl found c lt)
      | inr c ↦
          let run : read_tcp file n t ≡ (err enotconn, t) = rw (read_tcp, found, c) refl in
          subst (BlocksOnlyIdle file) (sym run) (λ m. absurd (omega (arith, m)))
    ]
  ]

  -- A read may wait in an idle handle.
  with_reads-IsServed :
      (h : Handle) (ps : List Packet) → IsServed h → Idle h → IsServed (record h { todo_read = ps })
  unfolding read_closed
  with_reads-IsServed h ps s idle = record {
    waits = inr (idle.0, idle.1);
    listens = λ e. let no : true ≡ false = sym idle.2 ∙ (s.listens e).0 in absurd (cc);
  }

  abbrev ServedOption : Option Handle → Type 0
  ServedOption none = Unit {0}
  ServedOption (some h) = IsServed h

  put_packet-IsServed :
      (a : ℕ) (p : Packet) (h : Handle)
      → IsServed h
      → (a ≡ sys_read → Idle h)
      → ServedOption (put_packet a p h)
  put_packet-IsServed a p h s idle =
      if-cases ServedOption (a == sys_dup) _ _ (with_dups-IsServed h s _)
        (elim (Bool-cases (a == sys_read)) [
          | inl b ↦ rw b (with_reads-IsServed h _ s (idle ((==_iff a sys_read).0 b)))
          | inr b ↦
              rw b (if-cases ServedOption (a == sys_write) _ _ (with_writes-IsServed h s _) tt)
        ])

  -- Where a packet waits, its handle stays sound; a read is put only where it may.
  wait_in-IsSound :
      (a : ℕ) (p : Packet) (t : Tcpd)
      → IsSound t
      → (a ≡ sys_read → Blocked t p.b)
      → IsSound (wait_in a p t).1
  unfolding wait_in
  wait_in-IsSound a p t s blocked = elim (Option-cases (lookup p.b t.handles)) [
    | inl missing ↦ rw (wait_in, missing) s
    | inr (h, found) ↦
        let k = lookup-Every p.b t.handles h s found in
        let put = put_packet-IsServed a (record p { a = a }) h k (λ e. blocked e h found) in
        elim (Option-cases (put_packet a (record p { a = a }) h)) [
          | inl other ↦ rw (wait_in, found, other) s
          | inr (h', waits) ↦
              rw (wait_in, found, waits) (put-IsSound p.b t h s k h' (subst ServedOption waits put))
        ]
  ]

  handle-Sound : (p : Packet) (t : Tcpd) → IsSound t → Sound (handle (tcp_call o) p t)
  unfolding handle
  handle-Sound p t s = elim (Result-cases (decode p)) [
    | inl (e, failed) ↦ rw (handle, failed) s
    | inr (call, decoded) ↦ rw (handle, decoded) (tcp_call-Sound o call t s)
  ]

  decode-read : (p : Packet) → p.a ≡ sys_read → decode p ≡ ok (read p.b p.c p.d)
  unfolding decode decode_file
  decode-read p e = ground (arith, e)

  abbrev BlocksIdle : Packet × Tcpd → Type 0
  BlocksIdle (p, t) = p.a ≡ mux (err ewouldblock) → Blocked t p.b

  handle-BlocksIdle :
      (p : Packet) (t : Tcpd) → p.d < 2 ^ 63 → p.a ≡ sys_read → BlocksIdle (handle (tcp_call o) p t)
  unfolding handle tcp_call
  handle-BlocksIdle p t lt e =
      let call = read p.b p.c p.d in
      let run : handle (tcp_call o) p t
          ≡ (record p { a = mux (tcp_call o call t).0 }, (tcp_call o call t).1) =
        rw (handle, decode-read p e) refl in
      subst BlocksIdle (sym run) (read_tcp-Blocked p.b p.d t lt)

  -- A packet of a caller keeps the handles sound.
  pub serve_packet-IsSound :
      (p : Packet) (t : Tcpd) → p.d < 2 ^ 63 → IsSound t → IsSound (serve_packet o p t).1
  unfolding serve_packet
  serve_packet-IsSound p t lt s =
      let (p', t') = handle (tcp_call o) p t in
      let s' : IsSound t' = handle-Sound p t s in
      elim (Bool-cases (p'.a == mux (err ewouldblock))) [
        | inl b ↦
            rw b (wait_in-IsSound p.a p' t' s' (λ e. handle-BlocksIdle p t lt e ((==_iff _ _).0 b)))
        | inr b ↦ rw b s'
      ]
