-- ===== src/Net/Wire/Tests.antt =====
-- Runs of the calls on packets, and the theorems about them.
use origel.Base.{◌≡◌, refl, none, some, [], ◌∷◌, ◌++◌}
use origel.Net.Wire.{Ipv4, Tcp, Udp, sum, compile, ip_from_bytes, udp_from_bytes, udp_to_bytes}
use origel.Net.Wire.Parse.{udp_from_bytes-to_bytes}

abbrev packet : Ipv4
packet = record {
  header = record {
    ver_hlen = 0x46;
    services = 0;
    len = 27;
    id = 300;
    flags_fragment = 0;
    ttl = 127;
    proto = 6;
    checksum = 0;
    src = (10, 0, 0, 1);
    dst = (10, 0, 0, 2);
  };
  options = 1 ∷ 1 ∷ 1 ∷ 0 ∷ [];
  payload = 7 ∷ 8 ∷ 9 ∷ [];
}

abbrev segment : Tcp
segment = record {
  header = record {
    src = 80;
    dst = 4000;
    sequence = 70000;
    ack_num = 5;
    flags = 0x5010;
    window_size = 8192;
    checksum = 0;
    urgent_pointer = 0;
  };
  options = [];
  payload = 1 ∷ 2 ∷ 3 ∷ [];
}

sums : sum (1 ∷ 2 ∷ 3 ∷ []) ≡ 516
unfolding sum
sums = refl

folds : compile 0x1_FFFF ≡ some 0xFFFE
unfolding compile
folds = refl

too_short : ip_from_bytes (0x45 ∷ 0 ∷ []) ≡ none
unfolding ip_from_bytes
too_short = refl

abbrev datagram : Udp
datagram = record { header = record { src = 1; dst = 2; len = 9; checksum = 0 }; payload = 4 ∷ [] }

reads_datagram : udp_from_bytes (udp_to_bytes datagram ++ (6 ∷ [])) ≡ some datagram
reads_datagram = udp_from_bytes-to_bytes datagram (6 ∷ []) refl
