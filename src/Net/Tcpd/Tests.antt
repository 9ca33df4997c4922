-- ===== src/Net/Tcpd/Tests.antt =====
-- Runs of tcpd, and the theorems about it.
use origel.Base.{
  length, replicate, ℕ, ◌+◌, ◌*◌, ◌≤◌, ◌≡◌, refl, ◌⊎◌, inl, true, false, ◌&&◌, none, some, List, [],
  ◌∷◌, arith,
}
use origel.Base.Map.{lookup, insert, contains_key}
use origel.Syscall.Error.{ok, err, mux, eaddrinuse}
use origel.Syscall.Flag.{o_rdwr}
use origel.Syscall.Number.{sys_open}
use origel.Syscall.Scheme.{Packet, decode, decode_file, handle}
use origel.Net.Wire.{Ipv4, Tcp, ip_from_bytes, tcp_from_bytes}
use origel.Base.Text.{split}
use origel.Net.Address.{part, parse_socket, address_from_str, parse_digits}
use origel.Net.Tcpd.{
  listen, syn_sent, established, Handle, Outside, Line, Tcpd, tcp_syn, tcp_ack, syn_ack, create_tcp,
  create_ip, new_tcpd, is_connected, read_closed, transmit,
}
use origel.Net.Tcpd.Open.{open_tcp, start_open, dup_connect, copy_of, unmatched, matched}
use origel.Net.Tcpd.Calls.{close_tcp}
use origel.Net.Tcpd.Receive.{is_listen, on_segment}
use origel.Net.Tcpd.Receive.Accept.{accepted, tcp_event}
use origel.Net.Tcpd.Serve.{tcp_call, serve_packet, scheme_event}
use origel.Net.Tcpd.Edges.{fits, is_over, on_segment-next_state}
use origel.Net.Tcpd.Handshake.{Sent, transmit-parses, dup_connect-stuck}
use origel.Net.Tcpd.Stream.{feed, reads, starts, feed-reads}
use origel.Net.Tcpd.Ports.{close_tcp-open_tcp}
use origel.Net.Tcpd.Waiting.Runs.{serves, here, next, Reach-IsServed}

abbrev outside : Outside
outside = record {
  random = λ n. n * 7 + 100;
  refused = λ n. none;
  memory = λ address n. replicate n address;
  is_utf8 = λ bytes. true;
}

abbrev line : Line
line = record { drawn = 0; writes = 0; sent = [] }

abbrev connected : Handle
connected = record {
  local = ((10, 0, 0, 1), 4000);
  remote = ((10, 0, 0, 2), 80);
  flags = o_rdwr;
  events = 0;
  state = established;
  seq = 9;
  ack = 5;
  segments = [];
  todo_dup = [];
  todo_read = [];
  todo_write = [];
}

abbrev listening : Handle
listening = record connected {
  local = ((10, 0, 0, 2), 80);
  remote = ((0, 0, 0, 0), 0);
  state = listen;
}

-- The text of a local socket on port 4000 with nothing else, `/:4000`.
abbrev local_4000 : List ℕ
local_4000 = b'/' ∷ b':' ∷ b'4' ∷ b'0' ∷ b'0' ∷ b'0' ∷ []

opens : (open_tcp outside true local_4000 0 5 (new_tcpd line)).0 ≡ ok 1
unfolding open_tcp start_open is_connected parse_socket address_from_str split parse_digits new_tcpd
    contains_key lookup
opens = refl

-- An established connection on port 4000.
abbrev serving : Tcpd
serving = record { ports = (4000, 1) ∷ []; next_id = 2; handles = (1, connected) ∷ []; line = line }

local_4000-port : (parse_socket (part 1 (split b'/' local_4000))).1 ≡ 4000
unfolding parse_socket split parse_digits
local_4000-port = refl

serving-handle : lookup 1 serving.handles ≡ some connected
unfolding lookup
serving-handle = refl

serving-count : lookup 4000 serving.ports ≡ some 1
unfolding lookup
serving-count = refl

close_tcp-open_tcp_example :
    ((m : ℕ) × (lookup 4000 (close_tcp outside 1 serving).1.ports ≡ some m) × (1 ≤ m))
    × (open_tcp outside true local_4000 0 5 (close_tcp outside 1 serving).1
        ≡ (err eaddrinuse, (close_tcp outside 1 serving).1))
close_tcp-open_tcp_example =
    close_tcp-open_tcp outside 1 1 connected serving local_4000 0 5 serving-handle serving-count
      (omega arith) local_4000-port (inl (omega arith))

connects : is_connected connected ≡ true
unfolding is_connected
connects = refl

-- A segment of three bytes for `connected`, from its other side.
abbrev from_server : Ipv4
from_server =
    create_ip 1 [] (record connected { local = connected.remote; remote = connected.local })

abbrev three_bytes : Tcp
three_bytes =
    create_tcp tcp_ack (1 ∷ 2 ∷ 3 ∷ [])
      (record connected { local = connected.remote; remote = connected.local; seq = 5; ack = 9 })

abbrev twice : List (Ipv4 × Tcp)
twice = (from_server, three_bytes) ∷ (from_server, three_bytes) ∷ []

feed-reads_example :
    (h' : Handle) × (l' : Line) × (feed outside twice connected line ≡ some (h', l'))
    × ((file : ℕ) (ns : List ℕ) (t : Tcpd)
        → length ns ≡ 2
        → lookup file t.handles ≡ some h'
        → (reads outside file ns t).0 ≡ starts outside ns twice)
unfolding create_tcp
feed-reads_example =
    feed-reads outside twice connected line (λ k. refl) connects refl
      ((refl, refl, omega arith), ((refl, refl, omega arith), tt))

transmit-parses_example :
    (bytes : List ℕ) × (ip : Ipv4) × (tcp : Tcp) × ((transmit outside syn_ack [] connected
        line).1.sent
      ≡ bytes ∷ [])
    × (ip_from_bytes bytes ≡ some ip)
    × (tcp_from_bytes ip.payload ≡ some tcp)
    × (ip.header ≡ record {
      ver_hlen = 0x45;
      services = 0;
      len = length bytes;
      id = 100;
      flags_fragment = 0;
      ttl = 127;
      proto = 6;
      checksum = 0;
      src = (10, 0, 0, 1);
      dst = (10, 0, 0, 2);
    })
    × (tcp ≡ record {
      header = record {
        src = 4000;
        dst = 80;
        sequence = 9;
        ack_num = 5;
        flags = 0x5012;
        window_size = 8192;
        checksum = 0;
        urgent_pointer = 0;
      };
      options = [];
      payload = [];
    })
transmit-parses_example = transmit-parses outside syn_ack [] connected line refl refl (omega arith)

abbrev client : Handle
client = record connected { state = syn_sent; seq = 8 }

abbrev first : Tcp
first = create_tcp tcp_syn [] (record client { seq = 7 })

abbrev waiting : Packet
waiting = record { id = 3; pid = 4; uid = 0; gid = 0; a = 41; b = 1; c = 0; d = 6 }

abbrev moved : Handle
moved = record client { state = established; ack = 21 }

abbrev answered_line : Line
answered_line = (transmit outside tcp_ack [] moved line).1

on_segment-next_state_example :
    let answer = create_tcp syn_ack [] (accepted listening 20 from_server first) in
    (((fits syn_sent answer client ≡ false)
        × (moved ≡ client)
        × (false ≡ false)
        × (answered_line ≡ line))
      ⊎ ((fits syn_sent answer client ≡ true)
          × (moved.state ≡ established)
          × (false ≡ (is_over moved.state && true))))
    × (moved.local ≡ client.local)
    × (moved.remote ≡ client.remote)
    × (moved.seq ≡ client.seq)
    × (moved.todo_dup ≡ client.todo_dup)
    × (moved.todo_read ≡ client.todo_read)
    × (moved.todo_write ≡ client.todo_write)
unfolding on_segment create_tcp transmit create_ip
on_segment-next_state_example =
    on_segment-next_state outside syn_sent from_server
      (create_tcp syn_ack [] (accepted listening 20 from_server first)) client moved false line
      answered_line refl refl

abbrev dup_path : List ℕ
dup_path = b'1' ∷ b'.' ∷ b'2' ∷ b'.' ∷ b'3' ∷ b'.' ∷ b'4' ∷ b':' ∷ b'8' ∷ b'0' ∷ []

abbrev duplicate : Handle
duplicate = record (copy_of listening) {
  remote = ((1, 2, 3, 4), 80);
  seq = 100;
  ack = 0;
  state = syn_sent;
}

abbrev dup_line : Line
dup_line = (transmit outside tcp_syn [] duplicate (record line { drawn = 1 })).1

dup_connect-stuck_example :
    (ip : Ipv4) × (syn : Tcp) × Sent line dup_line ip syn
    × (duplicate.state ≡ syn_sent)
    × (on_segment outside duplicate.state from_server
          (create_tcp syn_ack [] (accepted listening 20 ip syn))
          duplicate
          line
        ≡ some (duplicate, false, line))
unfolding dup_connect is_connected parse_socket address_from_str split parse_digits unmatched
    matched transmit
dup_connect-stuck_example =
    dup_connect-stuck outside line listening duplicate listening listening dup_path 20 from_server
      dup_line line refl

-- The path `/` opens a socket that listens on a port that is drawn.
abbrev open_packet : Packet
open_packet = record {
  id = 1;
  pid = 2;
  uid = 0;
  gid = 0;
  a = sys_open;
  b = b'/';
  c = 1;
  d = o_rdwr;
}

abbrev after_open : Tcpd
after_open = (serve_packet outside open_packet (new_tcpd line)).1

abbrev socket : Handle
socket = record listening { local = ((0, 0, 0, 0), 32868); seq = 0; ack = 0 }

after_open-socket : lookup 1 after_open.handles ≡ some socket
unfolding serve_packet handle decode tcp_call open_tcp start_open is_connected parse_socket
    address_from_str split parse_digits new_tcpd contains_key lookup insert mux
after_open-socket = refl

Reach-IsServed_example :
    ((socket.todo_read ≡ []) ⊎ ((socket.segments ≡ []) × (read_closed socket ≡ false)))
    × (is_listen socket.state ≡ true → (is_connected socket ≡ false) × (socket.todo_read ≡ []))
Reach-IsServed_example =
    Reach-IsServed outside line after_open 1 socket
      (next here (serves open_packet (omega arith) refl)) after_open-socket

-- Bytes that are no packet change nothing, and a read that gives nothing ends the loop.
drops_noise : tcp_event outside ((1 ∷ 2 ∷ []) ∷ [] ∷ (3 ∷ []) ∷ []) serving ≡ some (serving, [])
unfolding tcp_event ip_from_bytes
drops_noise = refl

-- A number that no packet of a call has.
answers_unknown : (scheme_event outside (record open_packet { a = 0 } ∷ []) serving).1 ≡ serving
unfolding scheme_event handle decode decode_file mux
answers_unknown = refl
