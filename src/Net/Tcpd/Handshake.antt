-- ===== src/Net/Tcpd/Handshake.antt =====
-- What is sent is what the other side reads, and how two sides connect.
use origel.Base.{
  ◌==◌, Option-cases, length, ℕ, ◌+◌, ◌*◌, ◌/◌, ◌%◌, ◌^◌, ◌<◌, bit_and, bit_or, ◌≡◌, refl, sym, ap,
  ◌∙◌, inl, inr, false, Option, none, some, List, [], ◌∷◌, ◌++◌, arith, if-cases,
}
use mathlib.Core.List.{append-nil}
use mathlib.Core.Path.{subst}
use origel.Syscall.Error.{ok, err}
use origel.Net.Wire.{Tcp, Ipv4, ip_from_bytes, ip_to_bytes, tcp_from_bytes, tcp_to_bytes}
use origel.Net.Wire.Parse.{
  length-ip_to_bytes, ip_from_bytes-to_bytes, tcp_from_bytes-to_bytes, length-tcp_to_bytes,
  IsPacket,
}
use origel.Net.Address.{parse_socket}
use origel.Net.Tcpd.{
  syn_sent, Handle, Outside, Line, tcp_syn, syn_ack, create_tcp, Tcpd, create_ip, transmit, add32,
  is_connected, draw,
}
use origel.Net.Tcpd.Open.{dup_connect, after_connect, copy_of, Duplicated}
use origel.Net.Tcpd.Receive.{on_segment}
use origel.Net.Tcpd.Receive.Accept.{accepted}

-- The five words of the header stay apart from the flags.
abbrev HasLength : ℕ → Type 0
HasLength flags = bit_or 0x5000 (bit_and flags 0xFFF) / 2 ^ 12 % 2 ^ 4 ≡ 5

-- The network has got one packet more, whose bytes are read as `ip`, and its payload as `tcp`.
abbrev pub Sent : Line → Line → Ipv4 → Tcp → Type 0
Sent l l' ip tcp =
    (bytes : List ℕ) × (l'.sent ≡ l.sent ++ (bytes ∷ []))
    × (ip_from_bytes bytes ≡ some ip)
    × (tcp_from_bytes ip.payload ≡ some tcp)

module _ (o : Outside) where
  -- The packet that `transmit` sends.
  abbrev pub packet_of : (flags : ℕ) → List ℕ → Handle → Line → Ipv4
  packet_of flags payload h l =
      create_ip (draw o 16 l).0 (tcp_to_bytes (create_tcp flags payload h)) h

  transmit-Sent :
      (flags : ℕ) (payload : List ℕ) (h : Handle) (l : Line)
      → (transmit o flags payload h l).0 ≡ none
      → HasLength flags
      → length payload + 40 < 2 ^ 16
      → Sent l
          (transmit o flags payload h l).1
          (packet_of flags payload h l)
          (create_tcp flags payload h)
  unfolding transmit create_tcp create_ip
  transmit-Sent flags payload h l taken len fits =
      let tcp = create_tcp flags payload h in
      let ip = packet_of flags payload h l in
      let packet : IsPacket ip = omega (arith, length-tcp_to_bytes tcp, fits) in
      let parses =
        ap ip_from_bytes (sym (append-nil (ip_to_bytes ip)))
        ∙ ip_from_bytes-to_bytes ip [] packet in
      elim (Option-cases (o.refused l.writes)) [
        | inl free ↦
            (ip_to_bytes ip, rw free refl, parses, tcp_from_bytes-to_bytes tcp (omega (arith, len)))
        | inr (e, refused) ↦ absurd (ground (arith, taken, refused))
      ]

  -- If the network takes a write, it has got one packet more, whose bytes are read as a packet of IPv4 and its
  -- payload as a segment of TCP. The packet has a header of five words, the length of these bytes, a random
  -- number, no fragments, the time to live 127, the protocol 6, and goes from the local address of the handle
  -- to its remote one. The segment goes from the local port to the remote one, with the handle's sequence
  -- number and acknowledgement, a header of five words, the flags and the payload given, and a window of 8192
  -- bytes. The payload fits in a packet, and the flags leave the length of the header as it is.
  pub transmit-parses :
      (flags : ℕ) (payload : List ℕ) (h : Handle) (l : Line)
      → o.refused l.writes ≡ none
      → HasLength flags
      → length payload + 40 < 2 ^ 16
      → (bytes : List ℕ) × (ip : Ipv4) × (tcp : Tcp) × ((transmit o flags payload h l).1.sent
          ≡ l.sent ++ (bytes ∷ []))
        × (ip_from_bytes bytes ≡ some ip)
        × (tcp_from_bytes ip.payload ≡ some tcp)
        × (ip.header ≡ record {
          ver_hlen = 4 * 16 + 5;
          services = 0;
          len = length bytes;
          id = o.random l.drawn % 2 ^ 16;
          flags_fragment = 0;
          ttl = 127;
          proto = 6;
          checksum = 0;
          src = h.local.0;
          dst = h.remote.0;
        })
        × (tcp ≡ record {
          header = record {
            src = h.local.1;
            dst = h.remote.1;
            sequence = h.seq;
            ack_num = h.ack;
            flags = bit_or (5 * 2 ^ 12) (bit_and flags 0xFFF);
            window_size = 8192;
            checksum = 0;
            urgent_pointer = 0;
          };
          options = [];
          payload = payload;
        })
  unfolding transmit create_tcp create_ip
  transmit-parses flags payload h l free len fits =
      let tcp = create_tcp flags payload h in
      let ip = packet_of flags payload h l in
      let (bytes, sent, parses, segment) =
        transmit-Sent flags payload h l (rw (transmit, free) refl) len fits in
      let whole : length (ip_to_bytes ip) ≡ (length (tcp_to_bytes tcp) + 20) % 2 ^ 16 =
        omega (arith, length-ip_to_bytes ip, length-tcp_to_bytes tcp, fits) in
      (
        ip_to_bytes ip,
        ip,
        tcp,
        rw free refl,
        ap ip_from_bytes (sym (append-nil (ip_to_bytes ip)))
            ∙ ip_from_bytes-to_bytes ip [] (omega (arith, length-tcp_to_bytes tcp, fits)),
        segment,
        ap (λ n. record ip.header { len = n }) (sym whole),
        refl,
      )

module _ (o : Outside) (l : Line) where
  -- What a connecting `dup` that succeeds has sent.
  abbrev Connecting : Duplicated → Type 0
  Connecting (err e, old, l') = Unit {0}
  Connecting (ok h, old, l') =
      (h.state ≡ syn_sent) × ((ip : Ipv4) × Sent l l' ip (create_tcp tcp_syn [] h))

  after_connect-Connecting :
      (h h' : Handle) (r : Option ℕ × Line)
      → h'.state ≡ syn_sent
      → (r.0 ≡ none → (ip : Ipv4) × Sent l r.1 ip (create_tcp tcp_syn [] h'))
      → Connecting (after_connect h h' r)
  after_connect-Connecting h h' (some e, l') s sent = tt
  after_connect-Connecting h h' (none, l') s sent = (s, sent refl)

  dup_connect-Connecting :
      (h : Handle) (path : List ℕ) → Connecting (dup_connect o h (copy_of h) path l)
  unfolding dup_connect
  dup_connect-Connecting h path = if-cases Connecting (is_connected h) _ _ tt (
      if-cases Connecting (is_connected (record (copy_of h) { remote = parse_socket path })) _ _
        (after_connect-Connecting h _ _ refl
          (λ taken. (_, transmit-Sent o tcp_syn [] _ (draw o 32 l).1 taken refl (omega arith))))
        tt)

  -- A handle that `dup` has connected has sent its first segment, and is not established by the answer to it:
  -- the answer that a listener's new handle gives to the segment, as it is read from the bytes sent, changes
  -- nothing in the
  -- handle, since it acknowledges the number behind the one of the segment, and the handle has kept that one,
  -- where `open` adds one to it.
  pub dup_connect-stuck :
      (h h' old listener : Handle) (path : List ℕ) (q : ℕ) (ip' : Ipv4) (l' l'' : Line)
      → dup_connect o h (copy_of h) path l ≡ (ok h', old, l')
      → (ip : Ipv4) × (syn : Tcp) × Sent l l' ip syn
        × (h'.state ≡ syn_sent)
        × (on_segment o h'.state ip' (create_tcp syn_ack [] (accepted listener q ip syn)) h' l''
            ≡ some (h', false, l''))
  unfolding on_segment create_tcp
  dup_connect-stuck h h' old listener path q ip' l' l'' e =
      let (state, (ip, sent)) = subst Connecting e (dup_connect-Connecting h path) in
      let syn = create_tcp tcp_syn [] h' in
      let answer = create_tcp syn_ack [] (accepted listener q ip syn) in
      let ne : (add32 h'.seq 1 == h'.seq) ≡ false = ground arith in
      (
        ip,
        syn,
        sent,
        state,
        subst (λ s. on_segment o s ip' answer h' l'' ≡ some (h', false, l'')) (sym state)
            (rw ne refl),
      )
