-- ===== src/Net/Wire/Sum.antt =====
-- The sums that protect headers: what `compile` gives, and that a receiver finds them.
use origel.Base.{
  ltb, ◌==◌, if◌then◌else◌, ltb→lt, Bool-cases, ℕ, zero, suc, ◌+◌, ◌-◌, ◌/◌, ◌%◌, ◌^◌, ◌≤◌, ◌<◌,
  ◌≡◌, refl, ap, ◌∙◌, inl, inr, some, List, [], ◌∷◌, arith,
}
use origel.Net.Wire.{Ipv4, Tcp, Ipv4Addr, sum, fold_carries, compile, ip_header_bytes, ip_checksum}

-- The sum with the carries added in again: the representative from 1 to 65535, or 0 for 0.
abbrev pub residue : ℕ → ℕ
residue s = if s == 0 then 0 else (s - 1) % 65535 + 1

carried : (s : ℕ) → 2 ^ 16 ≤ s → residue (s % 2 ^ 16 + s / 2 ^ 16) ≡ residue s
carried s h = ground arith

fold_carries-residue : (fuel s : ℕ) → s < fuel → fold_carries fuel s ≡ some (0xFFFF - residue s)
unfolding fold_carries
fold_carries-residue zero s h = absurd (omega arith)
fold_carries-residue (suc fuel) s h = elim (Bool-cases (ltb 0 (s / 2 ^ 16))) [
  | inl b ↦
      let large : 2 ^ 16 ≤ s = omega (arith, ltb→lt 0 (s / 2 ^ 16) b) in
      rw b (
        fold_carries-residue fuel (s % 2 ^ 16 + s / 2 ^ 16) (omega arith)
        ∙ ap (λ r. some (0xFFFF - r)) (carried s large))
  | inr b ↦
      let small : s < 2 ^ 16 = ground (arith, b) in
      rw b
        (ap (λ r. some (0xFFFF - r)) (let e : s % 2 ^ 16 ≡ residue s = ground (arith, small) in e))
]

-- `compile` ends, and gives the complement of the sum with its carries added in.
pub compile_lem : (s : ℕ) → compile s ≡ some (0xFFFF - residue s)
unfolding compile
compile_lem s = fold_carries-residue (suc s) s (omega arith)

complement : (s c : ℕ) → compile s ≡ some c → c ≡ 0xFFFF - residue s
complement s c h = ground (arith, compile_lem s)

-- The sum of everything, the checksum included, has the complement 0.
pub compile_checked : (s c : ℕ) → compile s ≡ some c → compile (s + c) ≡ some 0
compile_checked s c h =
    let all : residue (s + c) ≡ 0xFFFF = ground (arith, complement s c h) in
    rw (compile_lem (s + c), all) refl

abbrev pub with_ip_checksum : ℕ → Ipv4 → Ipv4
with_ip_checksum c p = record p { header = record p.header { checksum = c } }

abbrev pub with_tcp_checksum : ℕ → Tcp → Tcp
with_tcp_checksum c t = record t { header = record t.header { checksum = c } }

ip_sum :
    (p : Ipv4) (c : ℕ)
    → sum (ip_header_bytes (with_ip_checksum c p).header)
      ≡ sum (ip_header_bytes (with_ip_checksum 0 p).header) + c
unfolding sum ip_header_bytes
ip_sum p c = omega arith

-- `Ipv4::checksum` ends, changes the checksum alone, and a receiver that takes the sum of the header with
-- the checksum in it gets 0.
pub ip_checksum_lem :
    (p : Ipv4)
    → (c : ℕ) × (ip_checksum p ≡ some (with_ip_checksum c p))
      × (compile (sum (ip_header_bytes (with_ip_checksum c p).header)) ≡ some 0)
unfolding ip_checksum
ip_checksum_lem p =
    let s = sum (ip_header_bytes (with_ip_checksum 0 p).header) in
    let c = 0xFFFF - residue s in
    (c, rw (compile_lem s) refl, ap compile (ip_sum p c) ∙ compile_checked s c (compile_lem s))

-- The pseudo header of RFC 793 for a segment of `n` bytes: the addresses, a zero, the number of the
-- protocol, and the length.
abbrev pub pseudo_header : Ipv4Addr → Ipv4Addr → (n : ℕ) → List ℕ
pseudo_header (a, b, c, d) (e, f, g, h) n =
    a ∷ b ∷ c ∷ d ∷ e ∷ f ∷ g ∷ h ∷ 0 ∷ 6 ∷ n / 2 ^ 8 ∷ n % 2 ^ 8 ∷ []
