-- ===== src/RedoxFs/Bytes/Slices.antt =====
-- schemes/redoxfs/src/filesystem.rs: a part of an extent holds a slice of its bytes.

use origel.Base.{
  leb, leb→le, Bool-cases, length, take, drop, length-take, ℕ, zero, suc, ◌+◌, ◌-◌, ◌*◌, ◌^◌, ◌≤◌,
  ◌<◌, min, ◌≡◌, refl, sym, ap, ◌∙◌, inl, inr, List, [], ◌∷◌, ◌++◌, arith,
}
use origel.RedoxFs.Extents.{Extent, add64}
use origel.RedoxFs.Bytes.{Disk, sectors}
use origel.RedoxFs.Bytes.Content.{
  IsDisk, bytes_of, blocks_for, content, bytes_of-same, bytes_of-sectors, length-sectors,
  bytes_of-one,
}
use origel.RedoxFs.Bytes.Reads.{IsExtent}
use origel.RedoxFs.Bytes.Pick.{part_from}

module _ {ℓ} {A : Type ℓ} where
  pub take-append_within : (n : ℕ) (xs ys : List A) → n ≤ length xs → take n (xs ++ ys) ≡ take n xs
  take-append_within zero xs ys h = refl
  take-append_within (suc n) [] ys h = absurd (omega arith)
  take-append_within (suc n) (x ∷ xs) ys h = ap (◌∷◌ x) (take-append_within n xs ys (omega arith))

  pub take-append_behind :
      (n m : ℕ) (xs ys : List A) → n ≡ length xs + m → take n (xs ++ ys) ≡ xs ++ take m ys
  take-append_behind n m [] ys h = ap (λ k. take k ys) (omega (arith, h))
  take-append_behind zero m (x ∷ xs) ys h = absurd (omega arith)
  take-append_behind (suc n) m (x ∷ xs) ys h =
      ap (◌∷◌ x) (take-append_behind n m xs ys (omega (arith, h)))

  pub drop-append_behind :
      (n m : ℕ) (xs ys : List A) → n ≡ length xs + m → drop n (xs ++ ys) ≡ drop m ys
  drop-append_behind n m [] ys h = ap (λ k. drop k ys) (omega (arith, h))
  drop-append_behind zero m (x ∷ xs) ys h = absurd (omega arith)
  drop-append_behind (suc n) m (x ∷ xs) ys h = drop-append_behind n m xs ys (omega (arith, h))

  pub take-take : (n m : ℕ) (xs : List A) → n ≤ m → take n (take m xs) ≡ take n xs
  take-take zero m xs h = refl
  take-take (suc n) zero xs h = absurd (omega arith)
  take-take (suc n) (suc m) [] h = refl
  take-take (suc n) (suc m) (x ∷ xs) h = ap (◌∷◌ x) (take-take n m xs (omega arith))

  pub drop-take : (a n m : ℕ) (xs : List A) → m ≡ a + n → drop a (take m xs) ≡ take n (drop a xs)
  drop-take zero n m xs h = ap (λ k. take k xs) (omega (arith, h))
  drop-take (suc a) n zero xs h = absurd (omega arith)
  drop-take (suc a) zero (suc m) [] h = refl
  drop-take (suc a) (suc n) (suc m) [] h = refl
  drop-take (suc a) n (suc m) (x ∷ xs) h = drop-take a n m xs (omega (arith, h))

take_nil : (n : ℕ) → take {A = ℕ} n [] ≡ []
take_nil zero = refl
take_nil (suc n) = refl

module _ (disk : Disk) (is_disk : IsDisk disk) where
  one_block : (b n : ℕ) → n ≤ 512 → bytes_of disk (blocks_for n) b n ≡ take n (disk b)
  unfolding bytes_of
  one_block b zero h = refl
  one_block b (suc n) h =
      bytes_of-same disk is_disk (blocks_for (suc n)) 1 b b (suc n) (suc n) (omega arith) refl refl
      ∙ bytes_of-one disk is_disk b (suc n) h
      ∙ (let same : min 512 (suc n) ≡ suc n = omega arith in ap (λ k. take k (disk b)) same)

  -- The first block of some bytes, and the others.
  next_block :
      (b size left len : ℕ)
      → size ≡ min 512 len
      → left ≡ len - 512
      → b < 2 ^ 64
      → take size (disk b) ++ bytes_of disk (blocks_for left) (add64 b 1) left
        ≡ bytes_of disk (blocks_for len) b len
  unfolding bytes_of
  next_block b size left zero s l w =
      ap (λ k. take k (disk b) ++ bytes_of disk (blocks_for left) (add64 b 1) left) s
      ∙ bytes_of-same disk is_disk (blocks_for left) 0 (add64 b 1) (add64 b 1) left 0
          (omega (arith, l)) refl l
  next_block b size left (suc len) s l w =
      let more : suc (blocks_for left) ≡ blocks_for (suc len) = omega (arith, l) in
      ap (λ k. take k (disk b) ++ bytes_of disk (blocks_for left) (add64 b 1) left) s
      ∙ ap (λ r. take (min 512 (suc len)) (disk b) ++ bytes_of disk (blocks_for left) (add64 b 1) r)
          l
      ∙ ap (λ n. bytes_of disk n b (suc len)) more

  -- The first bytes of some blocks.
  pub take-bytes_of :
      (c b len n : ℕ)
      → len ≤ c * 512
      → b + c < 2 ^ 64
      → take n (bytes_of disk c b len) ≡ bytes_of disk (blocks_for (min n len)) b (min n len)
  unfolding bytes_of
  take-bytes_of zero b len n h w =
      take_nil n
      ∙ bytes_of-same disk is_disk 0 (blocks_for (min n len)) b b 0 (min n len) (omega (arith, h))
          refl (omega (arith, h))
  take-bytes_of (suc c) b len n h w =
      let first = take (min 512 len) (disk b) in
      let rest = bytes_of disk c (add64 b 1) (len - 512) in
      let size : length first ≡ min 512 len =
        omega (arith, length-take (min 512 len) (disk b), is_disk b) in
      elim (Bool-cases (leb n (min 512 len))) [
        | inl e ↦
            let within : n ≤ min 512 len = leb→le n (min 512 len) e in
            take-append_within n first rest (omega (arith, size))
            ∙ take-take n (min 512 len) (disk b) within
            ∙ sym (one_block b n (omega arith))
            ∙ bytes_of-same disk is_disk (blocks_for n) (blocks_for (min n len)) b b n (min n len)
                (omega arith) refl (omega arith)
        | inr e ↦
            let behind : min 512 len < n = ground (arith, e) in
            let m = n - min 512 len in
            let left = min m (len - 512) in
            take-append_behind n m first rest (omega (arith, size))
            ∙ ap (λ l. first ++ l)
                (take-bytes_of c (add64 b 1) (len - 512) m (omega arith) (omega arith))
            ∙ next_block b (min 512 len) left (min n len) (omega arith) (omega arith) (omega arith)
      ]

  -- A part of an extent holds the bytes from its first block on.
  pub content-part_from :
      (e : Extent) (offset n : ℕ)
      → IsExtent e
      → offset < blocks_for e.length
      → content disk (part_from e offset n) ≡ take n (drop (offset * 512) (content disk e))
  content-part_from e offset n v h =
      let left = blocks_for e.length - offset in
      let len = e.length - offset * 512 in
      let rest = bytes_of disk left (e.block + offset) len in
      let split =
        bytes_of-sectors disk is_disk offset left (blocks_for e.length) e.block e.length
          (omega arith) (omega arith) (omega (arith, v)) in
      let dropped =
        drop-append_behind (offset * 512) 0 (sectors disk offset e.block) rest
          (omega (arith, length-sectors disk is_disk offset e.block)) in
      sym (
        ap (λ l. take n (drop (offset * 512) l)) split
        ∙ ap (take n) dropped
        ∙ take-bytes_of left (e.block + offset) len n (omega arith) (omega (arith, v)))
