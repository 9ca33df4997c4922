-- ===== src/Syscall/Scheme/Answer.antt =====
-- syscall/src/scheme.rs: the answer to a packet.
use origel.Base.{ℕ, ◌-◌, ◌%◌, ◌^◌, ◌≤◌, ◌<◌, ◌≡◌, refl, ap, ◌∙◌, arith}
use origel.Syscall.Error.{Result, ok, err, mux, demux}
use origel.Syscall.Error.Mux.{demux-mux_err, demux-mux_ok}
use origel.Syscall.Scheme.{Packet, Call, decode_file, decode, handle}

decode_file-refused : (p : Packet) (e : ℕ) → decode_file p ≡ err e → (1 ≤ e) × (e < 132)
unfolding decode_file
decode_file-refused p e h = ground arith

decode-refused : (p : Packet) (e : ℕ) → decode p ≡ err e → (1 ≤ e) × (e < 132)
unfolding decode
decode-refused p e h = ground (arith, decode_file-refused p e)

-- What an answer is to a packet and a scheme in a state, as the one who sent the packet reads it.
pub data Answers {ℓ} {S : Type ℓ} (scheme : Call → S → Result ℕ × S) (p : Packet) (s : S)
    (r : Packet × S) : Type ℓ where
  refused :
      (e : ℕ)
      → decode p ≡ err e
      → demux r.0.a ≡ err e
      → r ≡ (record p { a = r.0.a }, s)
      → Answers scheme p s r
  called :
      (call : Call)
      → decode p ≡ ok call
      → ((e : ℕ) → (scheme call s).0 ≡ err e → 1 ≤ e → e < 132 → demux r.0.a ≡ err e)
      → ((v : ℕ) → (scheme call s).0 ≡ ok v → v % 2 ^ 32 ≤ 2 ^ 32 - 132 → demux r.0.a ≡ ok v)
      → r ≡ (record p { a = r.0.a }, (scheme call s).1)
      → Answers scheme p s r

answers {ℓ} :
    {S : Type ℓ} (scheme : Call → S → Result ℕ × S) (p : Packet) (s : S) (d : Result Call)
    → decode p ≡ d
    → Answers scheme p s (handle scheme p s)
unfolding handle
answers scheme p s (err e) q =
    let (low, high) = decode-refused p e q in
    rw (q, handle) (refused e q (demux-mux_err e low high) refl)
answers scheme p s (ok call) q =
    rw (q, handle)
      (called call q (λ e h low high. ap (λ r. demux (mux r)) h ∙ demux-mux_err e low high)
        (λ v h low. ap (λ r. demux (mux r)) h ∙ (demux-mux_ok v).0 low) refl)

pub handle-Answers {ℓ} :
    {S : Type ℓ} (scheme : Call → S → Result ℕ × S) (p : Packet) (s : S)
    → Answers scheme p s (handle scheme p s)
handle-Answers scheme p s = answers scheme p s (decode p) refl
