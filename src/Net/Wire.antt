-- ===== src/Net/Wire.antt =====
-- programs/netutils/src/lib/lib.rs: the packets of IPv4, TCP and UDP as bytes, and their checksums. A field
-- `n16` or `n32` is the number that its `get` returns, and its bytes stand in network order; `Checksum`
-- stands in the order of the processor, which is little-endian.
pub mod Sum
pub mod Parse
mod Tests
use origel.Base.{
  ltb, leb, if◌then◌else◌, length, take, drop, ℕ, zero, suc, ◌+◌, ◌-◌, ◌*◌, ◌/◌, ◌%◌, ◌^◌, ◌<◌,
  ◌&&◌, Option, none, some, List, [], ◌∷◌, ◌++◌, map,
}
use mathlib.Core.Option as Option

abbrev pub Ipv4Addr : Type 0
Ipv4Addr = ℕ × ℕ × ℕ × ℕ

-- Its four numbers are bytes.
abbrev pub IsAddress : Ipv4Addr → Type 0
IsAddress (a, b, c, d) = (a < 2 ^ 8) × (b < 2 ^ 8) × (c < 2 ^ 8) × (d < 2 ^ 8)

-- `Ipv4Addr::NULL` and `BROADCAST`
abbrev pub null_address : Ipv4Addr
null_address = (0, 0, 0, 0)

abbrev pub broadcast : Ipv4Addr
broadcast = (255, 255, 255, 255)

abbrev pub address_bytes : Ipv4Addr → List ℕ
address_bytes (a, b, c, d) = a ∷ b ∷ c ∷ d ∷ []

-- The bytes of `n16::new(value)` and `n32::new(value)`.
abbrev pub bytes16 : ℕ → List ℕ
bytes16 n = (n / 2 ^ 8) ∷ (n % 2 ^ 8) ∷ []

abbrev pub bytes32 : ℕ → List ℕ
bytes32 n = (n / 2 ^ 24) ∷ (n / 2 ^ 16 % 2 ^ 8) ∷ (n / 2 ^ 8 % 2 ^ 8) ∷ (n % 2 ^ 8) ∷ []

abbrev pub checksum_bytes : ℕ → List ℕ
checksum_bytes n = (n % 2 ^ 8) ∷ (n / 2 ^ 8) ∷ []

-- The byte at an index, which the callers have checked, and the fields that stand there.
abbrev pub byte : ℕ → List ℕ → ℕ
byte i [] = 0
byte zero (b ∷ bs) = b
byte (suc i) (b ∷ bs) = byte i bs

abbrev pub read16 : ℕ → List ℕ → ℕ
read16 i bs = byte i bs * 2 ^ 8 + byte (i + 1) bs

abbrev pub read32 : ℕ → List ℕ → ℕ
read32 i bs = read16 i bs * 2 ^ 16 + read16 (i + 2) bs

abbrev pub read_checksum : ℕ → List ℕ → ℕ
read_checksum i bs = byte (i + 1) bs * 2 ^ 8 + byte i bs

abbrev pub read_address : ℕ → List ℕ → Ipv4Addr
read_address i bs = (byte i bs, byte (i + 1) bs, byte (i + 2) bs, byte (i + 3) bs)

-- `bytes[from .. to]`, where `from ≤ to` and `to` is within the bytes.
abbrev pub slice : ℕ → ℕ → List ℕ → List ℕ
slice from to bs = take (to - from) (drop from bs)

-- `Checksum::sum`: two bytes are a number in the processor's order.
pub sum : List ℕ → ℕ
sum [] = 0
sum (a ∷ []) = a
sum (a ∷ b ∷ bs) = (a + 2 ^ 8 * b) + sum bs

-- The loop of `Checksum::compile`, on fuel.
pub fold_carries : ℕ → ℕ → Option ℕ
fold_carries zero s = none
fold_carries (suc fuel) s =
    let rest = fold_carries fuel (s % 2 ^ 16 + s / 2 ^ 16) in
    if ltb 0 (s / 2 ^ 16) then rest else some (0xFFFF - s % 2 ^ 16)

-- `Checksum::compile`; a sum falls in each round, so that its own size is fuel enough.
pub compile : ℕ → Option ℕ
unfolding fold_carries
compile s = fold_carries (suc s) s

-- `Ipv4Header`
pub record Ipv4Header : Type 0 where
  pub ver_hlen : ℕ
  pub services : ℕ
  pub len : ℕ
  pub id : ℕ
  pub flags_fragment : ℕ
  pub ttl : ℕ
  pub proto : ℕ
  pub checksum : ℕ
  pub src : Ipv4Addr
  pub dst : Ipv4Addr

pub record Ipv4 : Type 0 where
  pub header : Ipv4Header
  pub options : List ℕ
  pub payload : List ℕ

-- `size_of` of the headers
abbrev pub ip_size : ℕ
ip_size = 20

abbrev pub tcp_size : ℕ
tcp_size = 20

abbrev pub udp_size : ℕ
udp_size = 8

-- The bytes of a header, and the header in bytes.
pub ip_header_bytes : Ipv4Header → List ℕ
ip_header_bytes h =
    h.ver_hlen ∷ h.services ∷ []
    ++ (bytes16 h.len
        ++ (bytes16 h.id
            ++ (bytes16 h.flags_fragment
                ++ (h.ttl ∷ h.proto ∷ []
                    ++ (checksum_bytes h.checksum
                        ++ (address_bytes h.src ++ address_bytes h.dst))))))

pub ip_header : List ℕ → Ipv4Header
ip_header bs = record {
  ver_hlen = byte 0 bs;
  services = byte 1 bs;
  len = read16 2 bs;
  id = read16 4 bs;
  flags_fragment = read16 6 bs;
  ttl = byte 8 bs;
  proto = byte 9 bs;
  checksum = read_checksum 10 bs;
  src = read_address 12 bs;
  dst = read_address 16 bs;
}

-- `Ipv4::from_bytes` and `to_bytes`; `x & 0xF` is the rest by 16.
unfoldable pub ip_from_bytes : List ℕ → Option Ipv4
ip_from_bytes bs =
    let header = ip_header bs in
    let header_len = header.ver_hlen % 2 ^ 4 * 2 ^ 2 in
    if leb ip_size (length bs)
    then if leb ip_size header_len
        && leb header_len (length bs)
        && (leb header.len (length bs) && leb header_len header.len)
      then some (record {
        header = header;
        options = slice ip_size header_len bs;
        payload = slice header_len header.len bs;
      })
      else none
    else none

pub ip_to_bytes : Ipv4 → List ℕ
ip_to_bytes p = ip_header_bytes p.header ++ (p.options ++ p.payload)

-- `Ipv4::checksum`
pub ip_checksum : Ipv4 → Option Ipv4
unfolding sum compile ip_header_bytes
ip_checksum p =
    let h = record p.header { checksum = 0 } in
    Option.map (λ c. record p { header = record h { checksum = c } })
      (compile (sum (ip_header_bytes h)))

-- `TcpHeader`
pub record TcpHeader : Type 0 where
  pub src : ℕ
  pub dst : ℕ
  pub sequence : ℕ
  pub ack_num : ℕ
  pub flags : ℕ
  pub window_size : ℕ
  pub checksum : ℕ
  pub urgent_pointer : ℕ

pub record Tcp : Type 0 where
  pub header : TcpHeader
  pub options : List ℕ
  pub payload : List ℕ

pub tcp_header_bytes : TcpHeader → List ℕ
tcp_header_bytes h =
    bytes16 h.src
    ++ (bytes16 h.dst
        ++ (bytes32 h.sequence
            ++ (bytes32 h.ack_num
                ++ (bytes16 h.flags
                    ++ (bytes16 h.window_size
                        ++ (checksum_bytes h.checksum ++ bytes16 h.urgent_pointer))))))

pub tcp_header : List ℕ → TcpHeader
tcp_header bs = record {
  src = read16 0 bs;
  dst = read16 2 bs;
  sequence = read32 4 bs;
  ack_num = read32 8 bs;
  flags = read16 12 bs;
  window_size = read16 14 bs;
  checksum = read_checksum 16 bs;
  urgent_pointer = read16 18 bs;
}

-- `Tcp::from_bytes` and `to_bytes`; `(x & 0xF000) >> 10` is four times the digit.
pub tcp_from_bytes : List ℕ → Option Tcp
tcp_from_bytes bs =
    let header = tcp_header bs in
    let header_len = header.flags / 2 ^ 12 % 2 ^ 4 * 2 ^ 2 in
    if leb tcp_size (length bs)
    then if leb tcp_size header_len && leb header_len (length bs)
      then some (record {
        header = header;
        options = slice tcp_size header_len bs;
        payload = slice header_len (length bs) bs;
      })
      else none
    else none

pub tcp_to_bytes : Tcp → List ℕ
tcp_to_bytes t = tcp_header_bytes t.header ++ (t.options ++ t.payload)

-- The sum that `Tcp::checksum` takes, of the addresses, the length of the segment, the protocol, and the
-- segment.
pub tcp_sum : Tcp → Ipv4Addr → Ipv4Addr → ℕ
unfolding sum tcp_header_bytes
tcp_sum t from to =
    let segment_len = (tcp_size + length t.options + length t.payload) % 2 ^ 16 in
    sum (address_bytes from)
    + sum (address_bytes to)
    + sum (bytes16 segment_len)
    + sum (bytes16 6)
    + sum (tcp_header_bytes t.header)
    + sum t.options
    + sum t.payload

-- `Tcp::checksum`
pub tcp_checksum : Tcp → Ipv4Addr → Ipv4Addr → Option Tcp
unfolding tcp_sum compile
tcp_checksum t from to =
    let t' = record t { header = record t.header { checksum = 0 } } in
    Option.map (λ c. record t { header = record t.header { checksum = c } })
      (compile (tcp_sum t' from to))

-- `UdpHeader`
pub record UdpHeader : Type 0 where
  pub src : ℕ
  pub dst : ℕ
  pub len : ℕ
  pub checksum : ℕ

pub record Udp : Type 0 where
  pub header : UdpHeader
  pub payload : List ℕ

pub udp_header_bytes : UdpHeader → List ℕ
udp_header_bytes h =
    bytes16 h.src ++ (bytes16 h.dst ++ (bytes16 h.len ++ checksum_bytes h.checksum))

pub udp_header : List ℕ → UdpHeader
udp_header bs = record {
  src = read16 0 bs;
  dst = read16 2 bs;
  len = read16 4 bs;
  checksum = read_checksum 6 bs;
}

-- `Udp::from_bytes` and `to_bytes`
pub udp_from_bytes : List ℕ → Option Udp
udp_from_bytes bs =
    let header = udp_header bs in
    if leb udp_size (length bs)
    then if leb header.len (length bs) && leb udp_size header.len
      then some (record { header = header; payload = slice udp_size header.len bs })
      else none
    else none

pub udp_to_bytes : Udp → List ℕ
udp_to_bytes u = udp_header_bytes u.header ++ u.payload
