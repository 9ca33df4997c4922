-- ===== src/Net/Address/RoundTrip.antt =====
-- Addresses that are printed are read again.
use origel.Base.{
  ◌==◌, Bool-cases, length, All, ℕ, zero, suc, ◌+◌, ◌-◌, ◌*◌, ◌/◌, ◌%◌, ◌^◌, ◌≤◌, ◌<◌, ◌≡◌, refl,
  ap, ◌∙◌, ◌≢◌, ◌⊎◌, inl, inr, some, List, [], ◌∷◌, ◌++◌, arith,
}
use origel.Net.Wire.{Ipv4Addr, IsAddress}
use origel.Base.Text.{split}
use origel.Net.Address.{
  parse_digits, parse, put_digits, decimal, address_from_str, address_to_string, Socket,
  parse_socket, socket_to_string,
}

abbrev IsDigit : ℕ → Type 0
IsDigit c = (b'0' ≤ c) × (c ≤ b'9')

put_digits-IsDigit :
    (fuel n : ℕ) (cs : List ℕ) → All IsDigit cs → All IsDigit (put_digits fuel n cs)
unfolding put_digits
put_digits-IsDigit zero n cs h = h
put_digits-IsDigit (suc fuel) n cs h =
    let cs' = (b'0' + n % 10) ∷ cs in
    let all : All IsDigit cs' = (omega arith, h) in
    elim (Bool-cases (n / 10 == 0)) [
      | inl e ↦ rw e all
      | inr e ↦ rw e (put_digits-IsDigit fuel (n / 10) cs' all)
    ]

parse_digits-next :
    (limit value n : ℕ) (cs : List ℕ)
    → value * 10 + n % 10 ≡ n
    → n < limit
    → parse_digits limit value ((b'0' + n % 10) ∷ cs) ≡ parse_digits limit n cs
unfolding parse_digits
parse_digits-next limit value n cs e k =
    let same : value * 10 + (b'0' + n % 10 - b'0') ≡ n = omega (arith, e) in rw same (ground arith)

parse_digits-put_digits :
    (limit fuel n : ℕ) (cs : List ℕ)
    → n < fuel
    → n < limit
    → parse_digits limit 0 (put_digits fuel n cs) ≡ parse_digits limit n cs
unfolding put_digits
parse_digits-put_digits limit zero n cs h k = absurd (omega arith)
parse_digits-put_digits limit (suc fuel) n cs h k =
    let cs' = (b'0' + n % 10) ∷ cs in
    elim (Bool-cases (n / 10 == 0)) [
      | inl e ↦ rw e (parse_digits-next limit 0 n cs (ground (arith, e)) k)
      | inr e ↦ rw e (
          parse_digits-put_digits limit fuel (n / 10) cs' (ground (arith, e)) (omega arith)
          ∙ parse_digits-next limit (n / 10) n cs (omega arith) k)
    ]

parse_first :
    (limit : ℕ) (cs : List ℕ)
    → All IsDigit cs
    → 0 < length cs
    → parse limit cs ≡ parse_digits limit 0 cs
parse_first limit [] d h = absurd (omega arith)
parse_first limit (c ∷ cs) d h = ground (arith, d.0)

length-put_digits : (fuel n : ℕ) (cs : List ℕ) → length cs ≤ length (put_digits fuel n cs)
unfolding put_digits
length-put_digits zero n cs = omega arith
length-put_digits (suc fuel) n cs =
    ground (arith, length-put_digits fuel (n / 10) ((b'0' + n % 10) ∷ cs))

decimal-ne-nil : (n : ℕ) → 0 < length (decimal n)
unfolding decimal put_digits
decimal-ne-nil n = ground (arith, length-put_digits n (n / 10) ((b'0' + n % 10) ∷ []))

decimal-IsDigit : (n : ℕ) → All IsDigit (decimal n)
unfolding decimal
decimal-IsDigit n = put_digits-IsDigit (suc n) n [] tt

-- A printed number is read again.
pub parse-decimal : (limit n : ℕ) → n < limit → parse limit (decimal n) ≡ some n
unfolding decimal parse_digits
parse-decimal limit n h =
    parse_first limit (decimal n) (decimal-IsDigit n) (decimal-ne-nil n)
    ∙ parse_digits-put_digits limit (suc n) n [] (omega arith) h

-- What `split` makes of a part without the separator.
abbrev Without : ℕ → List ℕ → Type 0
Without sep cs = All (λ c. c ≢ sep) cs

split_last : (sep : ℕ) (cs : List ℕ) → Without sep cs → split sep cs ≡ cs ∷ []
unfolding split
split_last sep [] h = refl
split_last sep (c ∷ cs) h = rw (split_last sep cs h.1) (ground (arith, h.0))

split_first :
    (sep : ℕ) (cs ds : List ℕ) → Without sep cs → split sep (cs ++ (sep ∷ ds)) ≡ cs ∷ split sep ds
unfolding split
split_first sep [] ds h = ground arith
split_first sep (c ∷ cs) ds h = rw (split_first sep cs ds h.1) (ground (arith, h.0))

digits-Without :
    (sep : ℕ) (cs : List ℕ) → (sep < b'0') ⊎ (b'9' < sep) → All IsDigit cs → Without sep cs
digits-Without sep [] h d = tt
digits-Without sep (c ∷ cs) h (d, ds) = (ground (arith, h, d), digits-Without sep cs h ds)

Without-append :
    (sep : ℕ) (cs ds : List ℕ) → Without sep cs → Without sep ds → Without sep (cs ++ ds)
Without-append sep [] ds h k = k
Without-append sep (c ∷ cs) ds h k = (h.0, Without-append sep cs ds h.1 k)

split-address :
    (a b c d : ℕ)
    → split b'.' (address_to_string (a, b, c, d))
      ≡ decimal a ∷ (decimal b ∷ (decimal c ∷ (decimal d ∷ [])))
unfolding address_to_string
split-address a b c d =
    let no_dot = λ (n : ℕ). digits-Without b'.' (decimal n) (omega arith) (decimal-IsDigit n) in
    split_first b'.' (decimal a) _ (no_dot a)
    ∙ ap (◌∷◌ (decimal a)) (
        split_first b'.' (decimal b) _ (no_dot b)
        ∙ ap (◌∷◌ (decimal b)) (
            split_first b'.' (decimal c) _ (no_dot c)
            ∙ ap (◌∷◌ (decimal c)) (split_last b'.' (decimal d) (no_dot d))))

-- An address that is printed is read again.
pub address_from_str-to_string :
    (a : Ipv4Addr) → IsAddress a → address_from_str (address_to_string a) ≡ a
unfolding address_from_str
address_from_str-to_string (a, b, c, d) (ha, hb, hc, hd) =
    rw
      (
        split-address a b c d,
        parse-decimal (2 ^ 8) a ha,
        parse-decimal (2 ^ 8) b hb,
        parse-decimal (2 ^ 8) c hc,
        parse-decimal (2 ^ 8) d hd,
      )
      refl

no_colon : (a : Ipv4Addr) → Without b':' (address_to_string a)
unfolding address_to_string
no_colon (a, b, c, d) =
    let digits = λ (n : ℕ). digits-Without b':' (decimal n) (omega arith) (decimal-IsDigit n) in
    Without-append b':' (decimal a) _ (digits a) (
      omega arith,
      Without-append b':' (decimal b) _ (digits b)
          (omega arith, Without-append b':' (decimal c) _ (digits c) (omega arith, digits d)),
    )

-- An address and a port that are printed, as `fpath` does, are what `parse_socket` reads.
pub parse_socket-to_string :
    (s : Socket) → IsAddress s.0 → s.1 < 2 ^ 16 → parse_socket (socket_to_string s) ≡ s
unfolding parse_socket socket_to_string
parse_socket-to_string (address, port) h k =
    rw
      (
        split_first b':' (address_to_string address) (decimal port) (no_colon address),
        split_last b':' (decimal port)
            (digits-Without b':' (decimal port) (omega arith) (decimal-IsDigit port)),
        address_from_str-to_string address h,
        parse-decimal (2 ^ 16) port k,
      )
      refl
