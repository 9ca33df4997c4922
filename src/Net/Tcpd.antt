-- ===== src/Net/Tcpd.antt =====
-- schemes/tcpd/src/main.rs: the connections and what is sent for them. The network file and the generator of
-- random numbers are a `Line`: what has been drawn and written so far. Whether a text is UTF-8 is an argument.
pub mod Open
pub mod Calls
pub mod Receive
pub mod Serve
pub mod Edges
pub mod Handshake
pub mod Stream
pub mod Ports
pub mod Waiting
mod Tests
use origel.Base.{
  ◌==◌, length, ℕ, ◌+◌, ◌-◌, ◌%◌, ◌^◌, bit_and, bit_or, Bool, true, false, ◌&&◌, ◌||◌, not, Option,
  none, some, List, [], ◌∷◌, ◌++◌,
}
use origel.Base.Map.{Map, lookup, insert, remove, contains_key}
use origel.Syscall.Error.{
  Result, ok, err, eacces, eaddrinuse, ebadf, einval, eisconn, emsgsize, enotconn, ewouldblock,
}
use origel.Syscall.Flag.{o_nonblock, f_getfl, f_setfl, o_accmode}
use origel.Syscall.Scheme.{Packet}
use origel.Net.Wire.{Ipv4Addr, null_address, broadcast, Ipv4, Tcp, ip_to_bytes, tcp_to_bytes}
use origel.Base.Text.{split}
use origel.Net.Address.{Socket, part, parse_socket, socket_to_string}

pub data State : Type 0 where
  listen syn_sent syn_received established fin_wait1 fin_wait2 close_wait closing last_ack time_wait
        closed :
      State

-- `Handle`; `segments` is its `data`.
pub record Handle : Type 0 where
  pub local : Socket
  pub remote : Socket
  pub flags : ℕ
  pub events : ℕ
  pub state : State
  pub seq : ℕ
  pub ack : ℕ
  pub segments : List (Ipv4 × Tcp)
  pub todo_dup : List Packet
  pub todo_read : List Packet
  pub todo_write : List Packet

abbrev pub tcp_fin : ℕ
tcp_fin = 1

abbrev pub tcp_syn : ℕ
tcp_syn = 2

abbrev pub tcp_psh : ℕ
tcp_psh = 8

abbrev pub tcp_ack : ℕ
tcp_ack = 16

-- Both flags of a handshake, and the answer to it.
abbrev pub syn_ack : ℕ
syn_ack = bit_or tcp_syn tcp_ack

abbrev pub eq_address : Ipv4Addr → Ipv4Addr → Bool
eq_address (a, b, c, d) (a', b', c', d') = (a == a' && b == b') && (c == c' && d == d')

-- `Handle::is_connected`
pub is_connected : Handle → Bool
is_connected h = not (eq_address h.remote.0 null_address) && not (h.remote.1 == 0)

-- `Handle::read_closed`
abbrev pub closed_state : State → Bool
closed_state close_wait = true
closed_state last_ack = true
closed_state time_wait = true
closed_state closed = true
closed_state _ = false

pub read_closed : Handle → Bool
read_closed h = closed_state h.state

-- `Handle::matches`
pub matches : Handle → Ipv4 → Tcp → Bool
matches h ip tcp =
    (eq_address h.local.0 null_address
      || eq_address ip.header.dst h.local.0
      || eq_address ip.header.dst broadcast)
    && tcp.header.dst == h.local.1
    && (eq_address h.remote.0 null_address
        || eq_address h.remote.0 broadcast
        || eq_address ip.header.src h.remote.0)
    && (h.remote.1 == 0 || tcp.header.src == h.remote.1)

-- `Handle::create_tcp`: the header has 20 bytes, five words.
pub create_tcp : ℕ → List ℕ → Handle → Tcp
create_tcp flags payload h = record {
  header = record {
    src = h.local.1;
    dst = h.remote.1;
    sequence = h.seq;
    ack_num = h.ack;
    flags = bit_or 0x5000 (bit_and flags 0xFFF);
    window_size = 8192;
    checksum = 0;
    urgent_pointer = 0;
  };
  options = [];
  payload = payload;
}

-- `Handle::create_ip`
pub create_ip : ℕ → List ℕ → Handle → Ipv4
create_ip id payload h = record {
  header = record {
    ver_hlen = 0x45;
    services = 0;
    len = (length payload + 20) % 2 ^ 16;
    id = id;
    flags_fragment = 0;
    ttl = 127;
    proto = 6;
    checksum = 0;
    src = h.local.0;
    dst = h.remote.0;
  };
  options = [];
  payload = payload;
}

-- What stands outside: the random numbers, the error, if any, of each write to the network, the bytes
-- of a buffer of a caller, at an address and of a length, and whether bytes are UTF-8.
pub record Outside : Type 0 where
  pub is_utf8 : List ℕ → Bool
  pub memory : ℕ → ℕ → List ℕ
  pub random : ℕ → ℕ
  pub refused : ℕ → Option ℕ

-- How many random numbers have been drawn, how often the network has been written to, and the packets
-- that it has taken.
pub record Line : Type 0 where
  pub drawn : ℕ
  pub writes : ℕ
  pub sent : List (List ℕ)

-- `Tcpd`
pub record Tcpd : Type 0 where
  pub ports : Map ℕ
  pub next_id : ℕ
  pub handles : Map Handle
  pub line : Line

-- `Tcpd::new`
pub new_tcpd : Line → Tcpd
new_tcpd line = record { ports = []; next_id = 1; handles = []; line = line }

-- A sum of words of 32 bits.
abbrev pub add32 : ℕ → ℕ → ℕ
add32 a b = (a + b) % 2 ^ 32

module _ (o : Outside) where
  -- `rng.gen()` of a number with `w` bits, and `gen_range`.
  abbrev pub draw : ℕ → Line → ℕ × Line
  draw w l = (o.random l.drawn % 2 ^ w, record l { drawn = l.drawn + 1 })

  abbrev pub draw_port : Line → ℕ × Line
  draw_port l = (32768 + o.random l.drawn % (65535 - 32768), record l { drawn = l.drawn + 1 })

  abbrev pub put_on_line : Option ℕ → List ℕ → Line → Option ℕ × Line
  put_on_line none bytes l =
      (none, record l { writes = l.writes + 1; sent = l.sent ++ (bytes ∷ []) })
  put_on_line (some e) bytes l = (some e, record l { writes = l.writes + 1 })

  -- `create_tcp`, `create_ip` and the write to the network: its error, if any.
  pub transmit : ℕ → List ℕ → Handle → Line → Option ℕ × Line
  unfolding create_tcp create_ip
  transmit flags payload h l =
      let (id, l') = draw 16 l in
      let bytes = ip_to_bytes (create_ip id (tcp_to_bytes (create_tcp flags payload h)) h) in
      put_on_line (o.refused l'.writes) bytes l'
