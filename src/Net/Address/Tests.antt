-- ===== src/Net/Address/Tests.antt =====
-- Runs of the calls on addresses, and the theorems about them.
use origel.Base.{◌≡◌, refl, [], ◌∷◌, arith}
use origel.Base.Text.{split}
use origel.Net.Address.{
  parse_digits, decimal, address_from_str, address_to_string, parse_socket, socket_to_string,
}
use origel.Net.Address.RoundTrip.{parse_socket-to_string}

prints :
    address_to_string (10, 0, 2, 255)
    ≡ b'1' ∷ b'0' ∷ b'.' ∷ b'0' ∷ b'.' ∷ b'2' ∷ b'.' ∷ b'2' ∷ b'5' ∷ b'5' ∷ []
unfolding address_to_string decimal
prints = refl

-- A part that is no number below 256 is 0, and so is one that is missing.
reads : address_from_str (b'+' ∷ b'7' ∷ b'.' ∷ b'2' ∷ b'5' ∷ b'6' ∷ b'.' ∷ b'x' ∷ []) ≡ (7, 0, 0, 0)
unfolding address_from_str split parse_digits
reads = refl

reads_nothing : parse_socket [] ≡ ((0, 0, 0, 0), 0)
unfolding parse_socket address_from_str split
reads_nothing = refl

parse_socket-to_string_example :
    parse_socket (socket_to_string ((127, 0, 0, 1), 8080)) ≡ ((127, 0, 0, 1), 8080)
parse_socket-to_string_example =
    parse_socket-to_string ((127, 0, 0, 1), 8080) (omega arith) (omega arith)
