-- ===== src/RedoxFs/Bytes/Picked.antt =====
-- schemes/redoxfs/src/filesystem.rs: what `node_extents` picks holds the bytes that are wanted.
use mathlib.Core.Path.{subst}
use mathlib.Core.List.{append-nil}
use origel.Base.{
  ltb, ◌==◌, ltb→lt, Bool-cases, length, take, drop, All, length-append, length-drop, ℕ, zero, suc,
  ◌+◌, ◌-◌, ◌*◌, ◌%◌, ◌≤◌, ◌<◌, min, ◌≡◌, refl, sym, ap, ◌∙◌, ◌≢◌, ◌⊎◌, inl, inr, true, List, [],
  ◌∷◌, ◌++◌, arith,
}
use origel.RedoxFs.Extents.{Extent, empty, blocks}
use origel.RedoxFs.Extents.Size.{total}
use origel.RedoxFs.Bytes.{Disk, part_blocks, then_pick, pick_extents}
use origel.RedoxFs.Bytes.Content.{
  IsDisk, blocks_for, content, contents, drop-append, take_all, length-bytes_of,
}
use origel.RedoxFs.Bytes.Reads.{IsExtent, IsRange, Reaches}
use origel.RedoxFs.Bytes.Pick.{part_from, part_blocks_lem}
use origel.RedoxFs.Bytes.Slices.{
  take-append_within, take-append_behind, drop-append_behind, content-part_from,
}

-- The extents of a file: each has numbers for its blocks, and none of them is 0.
abbrev pub IsPlaced : Extent → Type 0
IsPlaced e = IsExtent e × (0 < e.length → e.block ≢ 0)

-- Each extent is full to the end of a sector, or no byte follows it.
abbrev pub IsPacked : List Extent → Type 0
IsPacked [] = Unit
IsPacked (e ∷ es) = ((e.length % 512 ≡ 0) ⊎ (total es ≡ 0)) × IsPacked es

drop_nil : (n : ℕ) → drop {A = ℕ} n [] ≡ []
drop_nil zero = refl
drop_nil (suc n) = refl

take_nil : (n : ℕ) → take {A = ℕ} n [] ≡ []
take_nil zero = refl
take_nil (suc n) = refl

drop_all : (n : ℕ) (xs : List ℕ) → length xs ≤ n → drop n xs ≡ []
drop_all zero [] h = refl
drop_all zero (x ∷ xs) h = absurd (omega arith)
drop_all (suc n) [] h = refl
drop_all (suc n) (x ∷ xs) h = drop_all n xs (omega arith)

module _ (disk : Disk) (is_disk : IsDisk disk) where
  -- The parts that are picked: their bytes, and their lengths.
  pub record Picks (es : List Extent) (offset n : ℕ) (r : List Extent × ℕ × ℕ) : Type 0 where
    pub bytes : contents disk r.0 ≡ take n (drop (offset * 512) (contents disk es))
    pub few : total r.0 ≤ n
    pub ranges : All IsRange r.0
    pub reach : (a : ℕ) → a ≤ 512 → a ≤ n → offset * 512 + a ≤ total es → Reaches a r.0

  length-content : (e : Extent) → length (content disk e) ≡ e.length
  length-content e =
      length-bytes_of disk is_disk (blocks_for e.length) e.block e.length (omega arith)

  pub length-contents : (es : List Extent) → length (contents disk es) ≡ total es
  unfolding contents
  length-contents [] = refl
  length-contents (e ∷ es) = omega (
    arith,
    length-append (content disk e) (contents disk es),
    length-content e,
    length-contents es,
  )

  -- Where the blocks to skip are those of the extent or more.
  drop-contents :
      (e : Extent) (es : List Extent) (offset : ℕ)
      → IsPacked (e ∷ es)
      → blocks_for e.length ≤ offset
      → drop (offset * 512) (contents disk (e ∷ es))
        ≡ drop ((offset - blocks_for e.length) * 512) (contents disk es)
  unfolding contents
  drop-contents e es offset (inl full, p) h =
      drop-append_behind (offset * 512) ((offset - blocks_for e.length) * 512) (content disk e)
        (contents disk es) (omega (arith, length-content e, full))
  drop-contents e es offset (inr none_left, p) h =
      let nothing = drop_all 0 (contents disk es) (omega (arith, length-contents es, none_left)) in
      ap (λ l. drop (offset * 512) (content disk e ++ l)) nothing
      ∙ ap (drop (offset * 512)) (append-nil (content disk e))
      ∙ drop_all (offset * 512) (content disk e) (omega (arith, length-content e))
      ∙ sym (
          ap (drop ((offset - blocks_for e.length) * 512)) nothing
          ∙ drop_nil ((offset - blocks_for e.length) * 512))

  module _ (e : Extent) (es : List Extent) (offset n : ℕ) (v : IsPlaced e)
      (within : offset < blocks_for e.length) where
    -- The bytes of the extent and of those behind it.
    split_contents :
        drop (offset * 512) (contents disk (e ∷ es))
        ≡ drop (offset * 512) (content disk e) ++ contents disk es
    unfolding contents
    split_contents =
        drop-append (offset * 512) (content disk e) (contents disk es)
          (omega (arith, length-content e))

    length-dropped : length (drop (offset * 512) (content disk e)) ≡ e.length - offset * 512
    length-dropped = omega (arith, length-drop (offset * 512) (content disk e), length-content e)

    part-IsRange : 0 < n → IsRange (part_from e offset n)
    part-IsRange pos = (omega arith, (omega (arith, v), omega (arith, v)))

    Picks-last :
        (o k : ℕ)
        → 0 < n
        → n ≤ e.length - offset * 512
        → Picks (e ∷ es) offset n (part_from e offset n ∷ [], o, k)
    unfolding contents
    Picks-last o k pos h = record {
      bytes =
          append-nil (content disk (part_from e offset n))
          ∙ content-part_from disk is_disk e offset n v.0 within
          ∙ sym (
              ap (take n) split_contents
              ∙ take-append_within n (drop (offset * 512) (content disk e)) (contents disk es)
                  (omega (arith, length-dropped, h)));
      few = omega arith;
      ranges = (part-IsRange pos, tt);
      reach = λ a small le in_file. omega (arith, le, h);
    }

    Picks-more :
        (r : List Extent × ℕ × ℕ)
        → IsPacked (e ∷ es)
        → e.length - offset * 512 < n
        → Picks es 0 (n - (e.length - offset * 512)) r
        → Picks (e ∷ es) offset n (part_from e offset n ∷ r.0, r.1, r.2)
    unfolding contents
    Picks-more r p h k = record {
      bytes =
          ap (λ l. l ++ contents disk r.0)
            (content-part_from disk is_disk e offset n v.0 within
              ∙ take_all n (drop (offset * 512) (content disk e))
                  (omega (arith, length-dropped, h)))
          ∙ ap (λ l. drop (offset * 512) (content disk e) ++ l) k.bytes
          ∙ sym (
              ap (take n) split_contents
              ∙ take-append_behind n (n - (e.length - offset * 512))
                  (drop (offset * 512) (content disk e)) (contents disk es)
                  (omega (arith, length-dropped, h)));
      few = omega (arith, k.few);
      ranges = (part-IsRange (omega (arith, h)), k.ranges);
      reach = λ a small le in_file. elim p.0 [
        | inl full ↦ omega (arith, full, h, small, within)
        | inr none_left ↦ omega (arith, none_left, h, in_file)
      ];
    }

  Picks-skipped :
      (e : Extent) (es : List Extent) (offset n : ℕ) (r : List Extent × ℕ × ℕ)
      → IsPacked (e ∷ es)
      → blocks_for e.length ≤ offset
      → Picks es (offset - blocks_for e.length) n r
      → Picks (e ∷ es) offset n r
  Picks-skipped e es offset n r p h k = record {
    bytes = k.bytes ∙ ap (take n) (sym (drop-contents e es offset p h));
    few = k.few;
    ranges = k.ranges;
    reach = λ a small le in_file. k.reach a small le (elim p.0 [
      | inl full ↦ omega (arith, full, h, in_file)
      | inr none_left ↦ omega (arith, none_left, h, in_file)
    ]);
  }

  Picks-none : (es : List Extent) (offset n o k : ℕ) → n ≡ 0 → Picks es offset n ([], o, k)
  unfolding contents
  Picks-none es offset n o k h = record {
    bytes = ap (λ m. take m (drop (offset * 512) (contents disk es))) (sym h);
    few = omega (arith, h);
    ranges = tt;
    reach = λ a small le in_file. tt;
  }

  -- The rest of the extents follows.
  abbrev goes_on : List Extent → ℕ × Extent × ℕ → List Extent × ℕ × ℕ
  goes_on es q = then_pick q (pick_extents es q.0 q.2)

  Picks-within :
      (e : Extent) (es : List Extent) (offset n : ℕ)
      → IsPlaced e
      → IsPacked (e ∷ es)
      → offset < blocks_for e.length
      → ((m : ℕ) → Picks es 0 m (pick_extents es 0 m))
      → Picks
          (e ∷ es)
          offset
          n
          (goes_on es (0, part_from e offset n, n - min n (e.length - offset * 512)))
  Picks-within e es offset n v p within rest =
      let m = e.length - offset * 512 in
      elim (Bool-cases (n - min n m == 0)) [
        | inl last ↦ elim (Bool-cases (ltb 0 (min n m))) [
          | inl some_bytes ↦
              rw (last, some_bytes)
                (Picks-last e es offset n v within 0 (n - min n m)
                  (omega (arith, ltb→lt 0 (min n m) some_bytes)) (ground (arith, last)))
          | inr no_bytes ↦
              rw (last, no_bytes)
                (Picks-none (e ∷ es) offset n 0 (n - min n m) (ground (arith, no_bytes, within)))
        ]
        | inr more ↦
            let behind : m < n = ground (arith, more) in
            let some_bytes : ltb 0 (min n m) ≡ true = ground (arith, behind, within) in
            let left : n - m ≡ n - min n m = omega (arith, behind) in
            rw (more, some_bytes)
              (Picks-more e es offset n v within (pick_extents es 0 (n - min n m)) p behind (
                subst (λ k. Picks es 0 k (pick_extents es 0 (n - min n m))) (sym left)
                  (rest (n - min n m))))
      ]

  Picks-behind :
      (e : Extent) (es : List Extent) (offset n : ℕ)
      → IsPacked (e ∷ es)
      → blocks_for e.length ≤ offset
      → Picks es (offset - blocks_for e.length) n (pick_extents es (offset - blocks_for e.length) n)
      → Picks (e ∷ es) offset n (goes_on es (offset - blocks_for e.length, empty, n))
  Picks-behind e es offset n p h rest = elim (Bool-cases (n == 0)) [
    | inl z ↦
        rw z (Picks-none (e ∷ es) offset n (offset - blocks_for e.length) n (ground (arith, z)))
    | inr z ↦
        rw z
          (Picks-skipped e es offset n (pick_extents es (offset - blocks_for e.length) n) p h rest)
  ]

  pub pick_extents-Picks :
      (es : List Extent) (offset n : ℕ)
      → All IsPlaced es
      → IsPacked es
      → Picks es offset n (pick_extents es offset n)
  unfolding pick_extents contents
  pick_extents-Picks [] offset n v p = record {
    bytes = sym (ap (take n) (drop_nil (offset * 512)) ∙ take_nil n);
    few = omega arith;
    ranges = tt;
    reach = λ a small le in_file. tt;
  }
  pick_extents-Picks (e ∷ es) offset n (v, vs) p =
      elim (Bool-cases (ltb offset (blocks_for e.length))) [
        | inl b ↦
            let comes : part_blocks (blocks e) offset empty n
                ≡ (0, part_from e offset n, n - min n (e.length - offset * 512)) =
              part_blocks_lem e offset n v.0 v.1 ∙ rw b refl in
            subst (λ q. Picks (e ∷ es) offset n (goes_on es q)) (sym comes)
              (Picks-within e es offset n v p (ltb→lt offset (blocks_for e.length) b)
                (λ m. pick_extents-Picks es 0 m vs p.1))
        | inr b ↦
            let comes : part_blocks (blocks e) offset empty n
                ≡ (offset - blocks_for e.length, empty, n) =
              part_blocks_lem e offset n v.0 v.1 ∙ rw b refl in
            subst (λ q. Picks (e ∷ es) offset n (goes_on es q)) (sym comes)
              (Picks-behind e es offset n p (ground (arith, b))
                (pick_extents-Picks es (offset - blocks_for e.length) n vs p.1))
      ]
