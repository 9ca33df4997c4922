-- ===== src/Net/Wire/Parse.antt =====
-- Packets and their bytes: what is written is read again.
use mathlib.Core.List.{append_assoc, append-nil}
use origel.Base.{
  length, drop, length-append, length-take, length-drop, ℕ, ◌+◌, ◌-◌, ◌*◌, ◌/◌, ◌%◌, ◌^◌, ◌≤◌, ◌≡◌,
  refl, sym, ap, ◌∙◌, some, List, [], ◌++◌, arith, take-append_self, drop-append_self, drop-drop,
}
use origel.Net.Wire.{
  Ipv4Header, Ipv4, TcpHeader, Tcp, UdpHeader, Udp, slice, ip_header, ip_header_bytes,
  ip_from_bytes, ip_to_bytes, tcp_header, tcp_header_bytes, tcp_from_bytes, tcp_to_bytes,
  udp_header, udp_header_bytes, udp_from_bytes, udp_to_bytes,
}

-- The lengths in the header are those of the options and of the payload.
pub record IsPacket (p : Ipv4) : Type 0 where
  pub header_len : p.header.ver_hlen % 2 ^ 4 * 2 ^ 2 ≡ 20 + length p.options
  pub len : p.header.len ≡ 20 + length p.options + length p.payload

abbrev pub IsSegment : Tcp → Type 0
IsSegment t = t.header.flags / 2 ^ 12 % 2 ^ 4 * 2 ^ 2 ≡ 20 + length t.options

ip_header-bytes : (h : Ipv4Header) (rest : List ℕ) → ip_header (ip_header_bytes h ++ rest) ≡ h
unfolding ip_header ip_header_bytes
ip_header-bytes h rest = ground arith

tcp_header-bytes : (h : TcpHeader) (rest : List ℕ) → tcp_header (tcp_header_bytes h ++ rest) ≡ h
unfolding tcp_header tcp_header_bytes
tcp_header-bytes h rest = ground arith

udp_header-bytes : (h : UdpHeader) (rest : List ℕ) → udp_header (udp_header_bytes h ++ rest) ≡ h
unfolding udp_header udp_header_bytes
udp_header-bytes h rest = ground arith

-- Behind the first `n` bytes stand the options, the payload and the rest.
module _ (n : ℕ) (bs os ps rest : List ℕ) (behind : drop n bs ≡ (os ++ ps) ++ rest) where
  options_of : (to : ℕ) → to ≡ n + length os → slice n to bs ≡ os
  options_of to h =
      let size : to - n ≡ length os = omega (arith, h) in
      rw (size, behind, append_assoc os ps rest) (take-append_self os (ps ++ rest))

  payload_of :
      (from to : ℕ) → from ≡ n + length os → to ≡ n + length os + length ps → slice from to bs ≡ ps
  payload_of from to h k =
      let size : to - from ≡ length ps = omega (arith, h, k) in
      let rest_of : drop from bs ≡ ps ++ rest =
        sym (drop-drop n (length os) from bs h)
        ∙ ap (drop (length os)) (behind ∙ append_assoc os ps rest)
        ∙ drop-append_self os (ps ++ rest) in
      rw (size, rest_of) (take-append_self ps rest)

  length_behind : n ≤ length bs → length bs ≡ n + length os + length ps + length rest
  length_behind h = omega (
    arith,
    h,
    length-drop n bs,
    ap length behind,
    length-append (os ++ ps) rest,
    length-append os ps,
  )

drop-ip_header_bytes : (h : Ipv4Header) (r : List ℕ) → drop 20 (ip_header_bytes h ++ r) ≡ r
unfolding ip_header_bytes
drop-ip_header_bytes h r = refl

length-ip_header_bytes : (h : Ipv4Header) (r : List ℕ) → 20 ≤ length (ip_header_bytes h ++ r)
unfolding ip_header_bytes
length-ip_header_bytes h r = omega arith

-- A packet whose lengths are right is read from its bytes as it is, whatever bytes follow, as the padding
-- of a frame does.
pub ip_from_bytes-to_bytes :
    (p : Ipv4) (rest : List ℕ) → IsPacket p → ip_from_bytes (ip_to_bytes p ++ rest) ≡ some p
unfolding ip_from_bytes ip_to_bytes
ip_from_bytes-to_bytes p rest v =
    let h = p.header in
    let r = (p.options ++ p.payload) ++ rest in
    let bs = ip_header_bytes h ++ r in
    let hlen = h.ver_hlen % 2 ^ 4 * 2 ^ 2 in
    let behind = drop-ip_header_bytes h r in
    let size = length_behind 20 bs p.options p.payload rest behind (length-ip_header_bytes h r) in
    let os = options_of 20 bs p.options p.payload rest behind hlen v.header_len in
    let ps = payload_of 20 bs p.options p.payload rest behind hlen h.len v.header_len v.len in
    ap ip_from_bytes (append_assoc (ip_header_bytes h) (p.options ++ p.payload) rest)
    ∙ rw (ip_header-bytes h r, os, ps) (ground (arith, v, size))

drop-tcp_header_bytes : (h : TcpHeader) (r : List ℕ) → drop 20 (tcp_header_bytes h ++ r) ≡ r
unfolding tcp_header_bytes
drop-tcp_header_bytes h r = refl

length-tcp_header_bytes : (h : TcpHeader) (r : List ℕ) → 20 ≤ length (tcp_header_bytes h ++ r)
unfolding tcp_header_bytes
length-tcp_header_bytes h r = omega arith

-- A segment whose flags tell the length of its header is read from its bytes as it is.
pub tcp_from_bytes-to_bytes : (t : Tcp) → IsSegment t → tcp_from_bytes (tcp_to_bytes t) ≡ some t
unfolding tcp_from_bytes tcp_to_bytes
tcp_from_bytes-to_bytes t v =
    let h = t.header in
    let r = t.options ++ t.payload in
    let bs = tcp_header_bytes h ++ r in
    let hlen = h.flags / 2 ^ 12 % 2 ^ 4 * 2 ^ 2 in
    let behind : drop 20 bs ≡ r ++ [] = drop-tcp_header_bytes h r ∙ sym (append-nil r) in
    let size = length_behind 20 bs t.options t.payload [] behind (length-tcp_header_bytes h r) in
    let os = options_of 20 bs t.options t.payload [] behind hlen v in
    let ps =
      payload_of 20 bs t.options t.payload [] behind hlen (length bs) v (omega (arith, size)) in
    rw (tcp_header-bytes h r, os, ps) (ground (arith, v, size))

drop-udp_header_bytes : (h : UdpHeader) (r : List ℕ) → drop 8 (udp_header_bytes h ++ r) ≡ r
unfolding udp_header_bytes
drop-udp_header_bytes h r = refl

length-udp_header_bytes : (h : UdpHeader) (r : List ℕ) → 8 ≤ length (udp_header_bytes h ++ r)
unfolding udp_header_bytes
length-udp_header_bytes h r = omega arith

-- A datagram whose length is right is read from its bytes as it is, whatever bytes follow.
pub udp_from_bytes-to_bytes :
    (u : Udp) (rest : List ℕ)
    → u.header.len ≡ 8 + length u.payload
    → udp_from_bytes (udp_to_bytes u ++ rest) ≡ some u
unfolding udp_from_bytes udp_to_bytes
udp_from_bytes-to_bytes u rest v =
    let h = u.header in
    let r = u.payload ++ rest in
    let bs = udp_header_bytes h ++ r in
    let behind = drop-udp_header_bytes h r in
    let size = length_behind 8 bs [] u.payload rest behind (length-udp_header_bytes h r) in
    let ps = payload_of 8 bs [] u.payload rest behind 8 h.len refl v in
    ap udp_from_bytes (append_assoc (udp_header_bytes h) u.payload rest)
    ∙ rw (udp_header-bytes h r, ps) (ground (arith, v, size))

-- What is read from bytes has lengths that are right: the slices are within the bytes.
pub ip_from_bytes-IsPacket : (bs : List ℕ) (p : Ipv4) → ip_from_bytes bs ≡ some p → IsPacket p
unfolding ip_from_bytes
ip_from_bytes-IsPacket bs p e =
    let h = ip_header bs in
    let hlen = h.ver_hlen % 2 ^ 4 * 2 ^ 2 in
    ground (
      arith,
      e,
      length-take (hlen - 20) (drop 20 bs),
      length-drop 20 bs,
      length-take (h.len - hlen) (drop hlen bs),
      length-drop hlen bs,
    )

pub length-tcp_to_bytes :
    (t : Tcp) → length (tcp_to_bytes t) ≡ 20 + length t.options + length t.payload
unfolding tcp_to_bytes tcp_header_bytes
length-tcp_to_bytes t = omega (arith, length-append t.options t.payload)

pub length-ip_to_bytes :
    (p : Ipv4) → length (ip_to_bytes p) ≡ 20 + length p.options + length p.payload
unfolding ip_to_bytes ip_header_bytes
length-ip_to_bytes p = omega (arith, length-append p.options p.payload)
