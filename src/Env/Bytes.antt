-- ===== src/Env/Bytes.antt =====
-- kernel/scheme/env.rs: the bytes that `read` takes and `write` stores.
use origel.Base.{
  length, set, take, drop, ℕ, zero, suc, ◌+◌, ◌≤◌, ◌≡◌, refl, ap, ◌∙◌, List, [], ◌∷◌, ◌++◌, arith,
}
use origel.Env.{get_bytes, put_bytes}

get_bytes-suc :
    (n seek x : ℕ) (bytes : List ℕ) → get_bytes n (suc seek) (x ∷ bytes) ≡ get_bytes n seek bytes
unfolding get_bytes
get_bytes-suc zero seek x bytes = refl
get_bytes-suc (suc n) seek x bytes = ground (arith, get_bytes-suc n (seek + 1) x bytes)

-- The loop of `read` takes the bytes from the position on, as many as the buffer holds and there are.
pub get_bytes-take :
    (n seek : ℕ) (bytes : List ℕ) → get_bytes n seek bytes ≡ take n (drop seek bytes)
unfolding get_bytes
get_bytes-take zero seek bytes = refl
get_bytes-take (suc n) zero [] = refl
get_bytes-take (suc n) (suc seek) [] = refl
get_bytes-take (suc n) zero (x ∷ bytes) =
    ap (λ rest. x ∷ rest) (get_bytes-suc n 0 x bytes ∙ get_bytes-take n 0 bytes)
get_bytes-take (suc n) (suc seek) (x ∷ bytes) =
    get_bytes-suc (suc n) seek x bytes ∙ get_bytes-take (suc n) seek bytes

put_bytes-suc :
    (seek x : ℕ) (buffer bytes : List ℕ)
    → put_bytes (suc seek) buffer (x ∷ bytes) ≡ x ∷ put_bytes seek buffer bytes
unfolding put_bytes
put_bytes-suc seek x [] bytes = refl
put_bytes-suc seek x (b ∷ buffer) bytes = ground (
  arith,
  put_bytes-suc (seek + 1) x buffer (set bytes seek b),
  put_bytes-suc (seek + 1) x buffer (bytes ++ (b ∷ [])),
)

drop-nil : (n : ℕ) → drop {A = ℕ} n [] ≡ []
drop-nil zero = refl
drop-nil (suc n) = refl

put_bytes-start :
    (buffer bytes : List ℕ) → put_bytes 0 buffer bytes ≡ buffer ++ drop (length buffer) bytes
unfolding put_bytes
put_bytes-start [] bytes = refl
put_bytes-start (b ∷ buffer) [] =
    put_bytes-suc 0 b buffer []
    ∙ ap (λ rest. b ∷ rest)
        (put_bytes-start buffer [] ∙ ap (λ rest. buffer ++ rest) (drop-nil (length buffer)))
put_bytes-start (b ∷ buffer) (x ∷ bytes) =
    ground (arith, put_bytes-suc 0 b buffer bytes, put_bytes-start buffer bytes)

-- The loops of `write`, at a position within the vector, put the buffer there, over what was there.
pub put_bytes-within :
    (seek : ℕ) (buffer bytes : List ℕ)
    → seek ≤ length bytes
    → put_bytes seek buffer bytes
      ≡ take seek bytes ++ (buffer ++ drop (length buffer) (drop seek bytes))
put_bytes-within zero buffer bytes h = put_bytes-start buffer bytes
put_bytes-within (suc seek) buffer [] h = absurd (omega arith)
put_bytes-within (suc seek) buffer (x ∷ bytes) h =
    put_bytes-suc seek x buffer bytes
    ∙ ap (λ rest. x ∷ rest) (put_bytes-within seek buffer bytes (omega arith))

put_bytes-empty : (seek : ℕ) (buffer : List ℕ) → put_bytes seek buffer [] ≡ buffer
unfolding put_bytes
put_bytes-empty seek [] = refl
put_bytes-empty seek (b ∷ buffer) =
    ground (arith, put_bytes-suc seek b buffer [], put_bytes-empty seek buffer)

-- At a position behind the end of the vector they put it at the end, and not at the position.
pub put_bytes-behind :
    (seek : ℕ) (buffer bytes : List ℕ)
    → length bytes ≤ seek
    → put_bytes seek buffer bytes ≡ bytes ++ buffer
put_bytes-behind seek buffer [] h = put_bytes-empty seek buffer
put_bytes-behind zero buffer (x ∷ bytes) h = absurd (omega arith)
put_bytes-behind (suc seek) buffer (x ∷ bytes) h =
    put_bytes-suc seek x buffer bytes
    ∙ ap (λ rest. x ∷ rest) (put_bytes-behind seek buffer bytes (omega arith))
