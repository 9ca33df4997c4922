-- ===== src/Net/Address.antt =====
-- programs/netutils/src/lib/ip/addr.rs and `parse_socket` of schemes/tcpd: addresses as text. `split`, `parse`
-- and the printing of numbers are those of the standard library.
pub mod RoundTrip
mod Tests
use origel.Base.{
  ltb, leb, ◌==◌, if◌then◌else◌, ℕ, zero, suc, ◌+◌, ◌-◌, ◌*◌, ◌/◌, ◌%◌, ◌^◌, ◌&&◌, Option, none,
  some, List, [], ◌∷◌, ◌++◌,
}
use origel.Base.Text.{split}
use origel.Net.Wire.{Ipv4Addr}

-- `next().unwrap_or("")` at the place `i`.
abbrev pub part : ℕ → List (List ℕ) → List ℕ
part i [] = []
part zero (p ∷ ps) = p
part (suc i) (p ∷ ps) = part i ps

-- `parse` of a number below `limit`: digits, behind an optional sign.
unfoldable pub parse_digits : ℕ → ℕ → List ℕ → Option ℕ
parse_digits limit value [] = some value
parse_digits limit value (c ∷ cs) =
    let value' = value * 10 + (c - b'0') in
    let rest = parse_digits limit value' cs in
    if leb b'0' c && leb c b'9' && ltb value' limit then rest else none

abbrev pub some_digits : ℕ → List ℕ → Option ℕ
some_digits limit [] = none
some_digits limit (c ∷ cs) = parse_digits limit 0 (c ∷ cs)

abbrev pub parse : ℕ → List ℕ → Option ℕ
parse limit [] = none
parse limit (c ∷ cs) = if c == b'+' then some_digits limit cs else parse_digits limit 0 (c ∷ cs)

abbrev pub or_zero : Option ℕ → ℕ
or_zero none = 0
or_zero (some n) = n

-- The digits of a number, on fuel; its own size is enough.
pub put_digits : ℕ → ℕ → List ℕ → List ℕ
put_digits zero n cs = cs
put_digits (suc fuel) n cs =
    let cs' = (b'0' + n % 10) ∷ cs in
    let rest = put_digits fuel (n / 10) cs' in if n / 10 == 0 then cs' else rest

pub decimal : ℕ → List ℕ
unfolding put_digits
decimal n = put_digits (suc n) n []

-- `Ipv4Addr::from_str` and `to_string`
unfoldable pub address_from_str : List ℕ → Ipv4Addr
address_from_str cs =
    let parts = split b'.' cs in
    let octet = λ (i : ℕ). or_zero (parse (2 ^ 8) (part i parts)) in
    (octet 0, octet 1, octet 2, octet 3)

pub address_to_string : Ipv4Addr → List ℕ
address_to_string (a, b, c, d) =
    decimal a ++ (b'.' ∷ (decimal b ++ (b'.' ∷ (decimal c ++ (b'.' ∷ decimal d)))))

-- An address with a port.
abbrev pub Socket : Type 0
Socket = Ipv4Addr × ℕ

-- `parse_socket`
unfoldable pub parse_socket : List ℕ → Socket
parse_socket cs =
    let parts = split b':' cs in
    (address_from_str (part 0 parts), or_zero (parse (2 ^ 16) (part 1 parts)))

-- One half of the text that `fpath` of tcpd writes.
pub socket_to_string : Socket → List ℕ
socket_to_string (address, port) = address_to_string address ++ (b':' ∷ decimal port)
