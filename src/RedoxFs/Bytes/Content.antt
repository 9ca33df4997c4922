-- ===== src/RedoxFs/Bytes/Content.antt =====
-- schemes/redoxfs/src/filesystem.rs: the bytes that an extent holds, block by block.
use mathlib.Core.List.{append_assoc, append-nil}
use origel.Base.{
  ltb, ltb→lt, Bool-cases, length, take, drop, length-append, length-take, ℕ, zero, suc, ◌+◌, ◌-◌,
  ◌*◌, ◌/◌, ◌^◌, ◌≤◌, ◌<◌, min, ◌≡◌, refl, sym, ap, ◌∙◌, inl, inr, List, [], ◌∷◌, ◌++◌, arith,
}
use origel.RedoxFs.Extents.{Extent, add64}
use origel.RedoxFs.Bytes.{Disk, sectors, Part, read_whole, read_last, read_rest}

-- A sector is 512 bytes.
abbrev pub IsDisk : Disk → Type 0
IsDisk disk = (b : ℕ) → length (disk b) ≡ 512

-- The bytes in `n` blocks of which `len` are in use.
unfoldable pub bytes_of : Disk → (n b len : ℕ) → List ℕ
bytes_of disk zero b len = []
bytes_of disk (suc n) b len = take (min 512 len) (disk b) ++ bytes_of disk n (add64 b 1) (len - 512)

-- The blocks of some bytes.
abbrev pub blocks_for : ℕ → ℕ
blocks_for len = (len + 511) / 512

-- The bytes of an extent, and of a list of them.
abbrev pub content : Disk → Extent → List ℕ
content disk e = bytes_of disk (blocks_for e.length) e.block e.length

unfoldable pub contents : Disk → List Extent → List ℕ
contents disk [] = []
contents disk (e ∷ es) = content disk e ++ contents disk es

pub take_all {ℓ} : {A : Type ℓ} (n : ℕ) (xs : List A) → length xs ≤ n → take n xs ≡ xs
take_all zero [] h = refl
take_all zero (x ∷ xs) h = absurd (omega arith)
take_all (suc n) [] h = refl
take_all (suc n) (x ∷ xs) h = ap (◌∷◌ x) (take_all n xs (omega arith))

pub drop-append {ℓ} :
    {A : Type ℓ} (n : ℕ) (xs ys : List A) → n ≤ length xs → drop n (xs ++ ys) ≡ drop n xs ++ ys
drop-append zero xs ys h = refl
drop-append (suc n) [] ys h = absurd (omega arith)
drop-append (suc n) (x ∷ xs) ys h = drop-append n xs ys (omega arith)

module _ (disk : Disk) (is_disk : IsDisk disk) where
  pub bytes_of-same :
      (n n' b b' len len' : ℕ)
      → n ≡ n'
      → b ≡ b'
      → len ≡ len'
      → bytes_of disk n b len ≡ bytes_of disk n' b' len'
  bytes_of-same n n' b b' len len' e f g =
      ap (λ n. bytes_of disk n b len) e
      ∙ ap (λ b. bytes_of disk n' b len) f
      ∙ ap (λ l. bytes_of disk n' b' l) g

  -- The bytes of `k` full blocks, and of the rest.
  pub bytes_of-sectors :
      (k n c b len : ℕ)
      → c ≡ k + n
      → k * 512 ≤ len
      → b + k < 2 ^ 64
      → bytes_of disk c b len ≡ sectors disk k b ++ bytes_of disk n (b + k) (len - k * 512)
  unfolding bytes_of sectors
  bytes_of-sectors zero n c b len e h w =
      bytes_of-same c n b (b + 0) len (len - 0 * 512) (omega arith) (omega arith) (omega arith)
  bytes_of-sectors (suc k) n zero b len e h w = absurd (omega arith)
  bytes_of-sectors (suc k) n (suc c) b len e h w =
      let next : add64 b 1 ≡ b + 1 = omega arith in
      let full : take (min 512 len) (disk b) ≡ disk b =
        take_all (min 512 len) (disk b) (omega (arith, is_disk b)) in
      let rest =
        bytes_of-sectors k n c (add64 b 1) (len - 512) (omega arith) (omega arith) (omega arith) in
      ap (λ l. l ++ bytes_of disk c (add64 b 1) (len - 512)) full
      ∙ ap (λ l. disk b ++ l) rest
      ∙ ap (λ l. disk b ++ (sectors disk k (add64 b 1) ++ l))
          (bytes_of-same n n (add64 b 1 + k) (b + suc k) (len - 512 - k * 512) (len - suc k * 512)
            refl (omega arith) (omega arith))
      ∙ sym (
          append_assoc (disk b) (sectors disk k (add64 b 1))
            (bytes_of disk n (b + suc k) (len - suc k * 512)))

  pub length-sectors : (k b : ℕ) → length (sectors disk k b) ≡ k * 512
  unfolding sectors
  length-sectors zero b = refl
  length-sectors (suc k) b = omega (
    arith,
    length-append (disk b) (sectors disk k (add64 b 1)),
    is_disk b,
    length-sectors k (add64 b 1),
  )

  pub length-bytes_of : (n b len : ℕ) → len ≤ n * 512 → length (bytes_of disk n b len) ≡ len
  unfolding bytes_of
  length-bytes_of zero b len h = omega arith
  length-bytes_of (suc n) b len h =
      let first = take (min 512 len) (disk b) in
      omega (
        arith,
        length-append first (bytes_of disk n (add64 b 1) (len - 512)),
        length-take (min 512 len) (disk b),
        is_disk b,
        length-bytes_of n (add64 b 1) (len - 512) (omega arith),
      )

  -- The bytes of one block that is not full.
  pub bytes_of-one : (b len : ℕ) → len ≤ 512 → bytes_of disk 1 b len ≡ take (min 512 len) (disk b)
  unfolding bytes_of
  bytes_of-one b len h = append-nil (take (min 512 len) (disk b))

  pub part_same :
      (xs ys : List ℕ) (b b' n n' : ℕ)
      → xs ≡ ys
      → b ≡ b'
      → n ≡ n'
      → Path Part (xs, b, n) (ys, b', n')
  part_same xs ys b b' n n' e f g =
      ap (λ l. (l, b, n)) e ∙ ap (λ c. (ys, c, n)) f ∙ ap (λ m. (ys, b', m)) g

  read_last-bytes_of :
      (room b r : ℕ)
      → r < 512
      → r ≤ room
      → b + blocks_for r < 2 ^ 64
      → read_last disk room b r ≡ (bytes_of disk (blocks_for r) b r, b + blocks_for r, 0)
  unfolding read_last bytes_of
  read_last-bytes_of room b r h k w = elim (Bool-cases (ltb 0 r)) [
    | inl e ↦
        let pos : 0 < r = ltb→lt 0 r e in
        let one : 1 ≡ blocks_for r = omega arith in
        let size = length-take (min 512 r) (disk b) in
        rw (read_last, e)
          (part_same (take room (take (min 512 r) (disk b))) (bytes_of disk (blocks_for r) b r)
            (add64 b 1) (b + blocks_for r) (r - min 512 r) 0
            (take_all room (take (min 512 r) (disk b)) (omega (arith, size))
              ∙ sym (bytes_of-one b r (omega arith))
              ∙ ap (λ n. bytes_of disk n b r) one)
            (omega arith) (omega arith))
    | inr e ↦
        let none_left : r ≡ 0 = ground (arith, e) in
        let none_for : 0 ≡ blocks_for r = omega (arith, none_left) in
        rw (read_last, e)
          (part_same [] (bytes_of disk (blocks_for r) b r) b (b + blocks_for r) r 0
            (ap (λ n. bytes_of disk n b r) none_for) (omega arith) none_left)
  ]

  -- The sectors and the last one hold all of the bytes, if the buffer has room for these.
  pub read_rest-bytes_of :
      (room b len : ℕ)
      → len ≤ room
      → b + blocks_for len < 2 ^ 64
      → read_rest disk room b len ≡ (bytes_of disk (blocks_for len) b len, b + blocks_for len, 0)
  unfolding read_rest read_whole
  read_rest-bytes_of room b len h w =
      let k = len / 512 in
      let r = len - k * 512 in
      let same : min len room / 512 ≡ k = omega arith in
      let whole : Path Part (read_whole disk room b len) (sectors disk k b, b + k, r) =
        part_same (sectors disk (min len room / 512) b) (sectors disk k b)
          (add64 b (min len room / 512)) (b + k) (len - min len room / 512 * 512) r
          (ap (λ n. sectors disk n b) same) (omega arith) (omega arith) in
      let size = length-sectors k b in
      let last =
        read_last-bytes_of (room - length (sectors disk k b)) (b + k) r (omega arith)
          (omega (arith, size)) (omega arith) in
      ap
        (λ (p : Part).
          let (xs, c, n) = p in
          let (ys, c', n') = read_last disk (room - length xs) c n in (xs ++ ys, c', n'))
        whole
      ∙ ap (λ (q : Part). (sectors disk k b ++ q.0, q.1, q.2)) last
      ∙ part_same (sectors disk k b ++ bytes_of disk (blocks_for r) (b + k) r)
          (bytes_of disk (blocks_for len) b len) (b + k + blocks_for r) (b + blocks_for len) 0 0
          (sym (
            bytes_of-sectors k (blocks_for r) (blocks_for len) b len (omega arith) (omega arith)
              (omega arith)))
          (omega arith) refl
