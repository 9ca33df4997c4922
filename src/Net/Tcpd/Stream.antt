-- ===== src/Net/Tcpd/Stream.antt =====
-- The bytes of an established connection, from the segments that come in to the reads.
use mathlib.Core.List.{append_assoc, append-nil}
use origel.Base.{
  lt→ltb, length, take, All, ℕ, ◌<◌, bit_and, ◌≡◌, refl, sym, ap, ◌∙◌, true, false, Option, none,
  some, List, [], ◌∷◌, ◌++◌, arith, ==_self,
}
use origel.Base.Map.{lookup, insert, lookup-insert}
use origel.Syscall.Error.{Result, ok}
use origel.Net.Wire.{Ipv4, Tcp}
use origel.Net.Tcpd.{
  tcp_ack, syn_ack, established, Handle, Outside, Line, Tcpd, add32, transmit, is_connected,
  syn_ack, tcp_ack,
}
use origel.Net.Tcpd.Receive.{acknowledges, on_segment}
use origel.Net.Tcpd.Calls.{read_from, read_tcp}

-- A segment with bytes that acknowledges what the handle has sent.
abbrev pub IsFed : ℕ → Ipv4 × Tcp → Type 0
IsFed seq (ip, tcp) =
    (bit_and tcp.header.flags syn_ack ≡ tcp_ack)
    × (tcp.header.ack_num ≡ seq)
    × (0 < length tcp.payload)

module _ (o : Outside) where
  -- The arm for `Established` on a list of segments.
  pub feed : List (Ipv4 × Tcp) → Handle → Line → Option (Handle × Line)
  feed [] h l = some (h, l)
  feed ((ip, tcp) ∷ ds) h l = elim (on_segment o established ip tcp h l) [
    | none ↦ none
    | some (h', closing, l') ↦ feed ds h' l'
  ]

  -- Reads of the given sizes.
  pub reads : (file : ℕ) → List ℕ → Tcpd → List (Result (List ℕ)) × Tcpd
  reads file [] t = ([], t)
  reads file (n ∷ ns) t =
      let (r, t') = read_tcp file n t in let (rs, t'') = reads file ns t' in (r ∷ rs, t'')

  -- What the reads are to give: the start of each segment.
  pub starts : List ℕ → List (Ipv4 × Tcp) → List (Result (List ℕ))
  starts [] ds = []
  starts (n ∷ ns) [] = []
  starts (n ∷ ns) ((ip, tcp) ∷ ds) = ok (take n tcp.payload) ∷ starts ns ds

  reads-starts :
      (file : ℕ) (ns : List ℕ) (ds rest : List (Ipv4 × Tcp)) (h : Handle) (t : Tcpd)
      → length ns ≡ length ds
      → lookup file t.handles ≡ some h
      → is_connected h ≡ true
      → h.segments ≡ ds ++ rest
      → (reads file ns t).0 ≡ starts ns ds
  unfolding reads starts read_tcp is_connected
  reads-starts file [] ds rest h t e found c s = refl
  reads-starts file (n ∷ ns) [] rest h t e found c s = absurd (omega (arith, e))
  reads-starts file (n ∷ ns) ((ip, tcp) ∷ ds) rest h t e found c s =
      let h' = record h { segments = ds ++ rest } in
      let t' = record t { handles = insert file h' t.handles } in
      let run : read_tcp file n t ≡ (ok (take n tcp.payload), t') =
        rw (read_tcp, found, c) (ap (λ x. read_from x file n h t) s) in
      let there : lookup file t'.handles ≡ some h' =
        lookup-insert file file h' t.handles ∙ rw (==_self file) refl in
      rw (reads, run)
        (ap (◌∷◌ (ok (take n tcp.payload)))
          (reads-starts file ns ds rest h' t' (omega (arith, e)) there c refl))

  -- The network takes every packet.
  abbrev pub Takes : Type 0
  Takes = (k : ℕ) → o.refused k ≡ none

  pub transmit-none :
      (flags : ℕ) (payload : List ℕ) (h : Handle) (l : Line)
      → Takes
      → (transmit o flags payload h l).0 ≡ none
  unfolding transmit
  transmit-none flags payload h l takes = rw (takes l.writes) refl

  -- What is kept of a handle, which gets the segments `ds`.
  abbrev Fed : List (Ipv4 × Tcp) → Handle → Handle → Type 0
  Fed ds h h' = (h'.segments ≡ h.segments ++ ds) × (h'.seq ≡ h.seq) × (h'.remote ≡ h.remote)

  on_segment-Fed :
      (ip : Ipv4) (tcp : Tcp) (h : Handle) (l : Line)
      → Takes
      → IsFed h.seq (ip, tcp)
      → (h' : Handle) × (l' : Line) × (on_segment o established ip tcp h l ≡ some (h', false, l'))
        × Fed ((ip, tcp) ∷ []) h h'
  unfolding on_segment
  on_segment-Fed ip tcp h l takes (flags, acks, size) =
      let h' = record h {
        segments = h.segments ++ ((ip, tcp) ∷ []);
        ack = add32 tcp.header.sequence (length tcp.payload);
      } in
      let r = transmit o tcp_ack [] h' l in
      let yes_acks : acknowledges h tcp ≡ true = ground (arith, flags, acks) in
      (
        h',
        r.1,
        rw (yes_acks, lt→ltb 0 (length tcp.payload) size, transmit-none tcp_ack [] h' l takes) refl,
        (refl, refl, refl),
      )

  feed-Fed :
      (ds : List (Ipv4 × Tcp)) (h : Handle) (l : Line)
      → Takes
      → All (IsFed h.seq) ds
      → (h' : Handle) × (l' : Line) × (feed ds h l ≡ some (h', l')) × Fed ds h h'
  unfolding feed
  feed-Fed [] h l takes k = (h, l, refl, (sym (append-nil h.segments), refl, refl))
  feed-Fed ((ip, tcp) ∷ ds) h l takes (one, all) =
      let (h', l', run, (s, q, r)) = on_segment-Fed ip tcp h l takes one in
      let all' : All (IsFed h'.seq) ds = rw q all in
      let (h'', l'', run', (s', q', r')) = feed-Fed ds h' l' takes all' in
      (
        h'',
        l'',
        rw (feed, run) run',
        (s' ∙ ap (λ x. x ++ ds) s ∙ append_assoc h.segments ((ip, tcp) ∷ []) ds, q' ∙ q, r' ∙ r),
      )

  -- If an established, connected handle has nothing to read, and the network takes all packets, then
  -- segments with bytes that acknowledge what the handle has sent are all taken, in the order in which they
  -- come and whatever their sequence numbers are, one that comes twice too; and as many reads give each the
  -- start of the next segment, as long as the buffer allows: the rest of a segment is lost.
  pub feed-reads :
      (ds : List (Ipv4 × Tcp)) (h : Handle) (l : Line)
      → Takes
      → is_connected h ≡ true
      → h.segments ≡ []
      → All (IsFed h.seq) ds
      → (h' : Handle) × (l' : Line) × (feed ds h l ≡ some (h', l'))
        × ((file : ℕ) (ns : List ℕ) (t : Tcpd)
            → length ns ≡ length ds
            → lookup file t.handles ≡ some h'
            → (reads file ns t).0 ≡ starts ns ds)
  unfolding is_connected
  feed-reads ds h l takes c nothing all =
      let (h', l', run, (s, q, r)) = feed-Fed ds h l takes all in
      let c' : is_connected h' ≡ true = rw r c in
      let s' : h'.segments ≡ ds ++ [] = s ∙ ap (λ x. x ++ ds) nothing ∙ sym (append-nil ds) in
      (h', l', run, λ file ns t e found. reads-starts file ns ds [] h' t e found c' s')
