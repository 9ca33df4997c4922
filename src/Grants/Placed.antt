-- ===== src/Grants/Placed.antt =====
-- kernel/scheme/user.rs: where `capture_inner` places a grant.
use origel.Base.{
  ltb, Bool-cases, ℕ, ◌+◌, ◌%◌, ◌^◌, ◌≤◌, ◌<◌, ◌≡◌, inl, inr, some, List, [], ◌∷◌, arith,
}
use origel.Grants.{Grant, add_word, end_of, place, remove_grant}

-- A grant of whole pages that ends by `limit`.
abbrev pub IsGrant : ℕ → Grant → Type 0
IsGrant limit g =
    (0 < g.size) × (g.size % 4096 ≡ 0) × (g.start % 4096 ≡ 0) × (g.start + g.size ≤ limit)

-- The grants lie one behind the other from `base` on, and no two of them share a byte.
abbrev pub IsPlaced : ℕ → ℕ → List Grant → Type 0
IsPlaced limit base [] = Unit {0}
IsPlaced limit base (g ∷ gs) =
    (base ≤ g.start) × IsGrant limit g × IsPlaced limit (g.start + g.size) gs

pub IsPlaced-weaken :
    (limit limit' base : ℕ) (gs : List Grant)
    → limit ≤ limit'
    → IsPlaced limit base gs
    → IsPlaced limit' base gs
IsPlaced-weaken limit limit' base [] h p = tt
IsPlaced-weaken limit limit' base (g ∷ gs) h p = (
  p.0,
  (p.1.0, p.1.1, p.1.2, omega arith),
  IsPlaced-weaken limit limit' (g.start + g.size) gs h p.2,
)

end_of-IsGrant :
    (limit : ℕ) (g : Grant) → limit ≤ 2 ^ 62 → IsGrant limit g → end_of g ≡ g.start + g.size
end_of-IsGrant limit g h v = omega arith

-- What `place` gives: a page address from `to` on, a place for it in the list with nothing else
-- there, and a list from which any byte of the new grant takes it out again.
pub record Places (limit size to : ℕ) (gs : List Grant) (r : ℕ × List Grant) : Type 0 where
  pub above : to ≤ r.0
  pub page : r.0 % 4096 ≡ 0
  pub below : r.0 ≤ limit
  pub placed : IsPlaced (limit + size) to r.1
  pub removed : (offset : ℕ) → offset < size → remove_grant (r.0 + offset) r.1 ≡ some gs

module _ (limit size : ℕ) (small : limit ≤ 2 ^ 62) (pages : size % 4096 ≡ 0) (some_pages : 0 < size)
    (few : size ≤ 2 ^ 62) where
  remove_first :
      (to offset : ℕ) (gs : List Grant)
      → to ≤ limit
      → offset < size
      → remove_grant (to + offset) (record { start = to; size = size } ∷ gs) ≡ some gs
  unfolding remove_grant
  remove_first to offset gs h k = ground arith

  remove_later :
      (address : ℕ) (g : Grant) (gs : List Grant) (gs' : List Grant)
      → IsGrant limit g
      → g.start + g.size ≤ address
      → remove_grant address gs' ≡ some gs
      → remove_grant address (g ∷ gs') ≡ some (g ∷ gs)
  unfolding remove_grant
  remove_later address g gs gs' v h e = ground arith

  Places-here :
      (to : ℕ) (gs : List Grant)
      → to % 4096 ≡ 0
      → to ≤ limit
      → IsPlaced limit (to + size) gs
      → Places limit size to gs (to, record { start = to; size = size } ∷ gs)
  Places-here to gs page h v = record {
    above = omega arith;
    page = page;
    below = h;
    placed = (
      omega arith,
      (some_pages, pages, page, omega arith),
      IsPlaced-weaken limit (limit + size) (to + size) gs (omega arith) v,
    );
    removed = λ offset k. remove_first to offset gs h k;
  }

  Places-later :
      (to : ℕ) (g : Grant) (gs : List Grant) (r : ℕ × List Grant)
      → to ≤ g.start
      → IsGrant limit g
      → Places limit size (g.start + g.size) gs r
      → Places limit size to (g ∷ gs) (r.0, g ∷ r.1)
  Places-later to g gs r h v p = record {
    above = omega (arith, p.above);
    page = p.page;
    below = p.below;
    placed = (h, (v.0, v.1, v.2, omega arith), p.placed);
    removed = λ offset k.
        remove_later (r.0 + offset) g gs r.1 v (omega (arith, p.above)) (p.removed offset k);
  }

  -- `capture_inner` finds a place for any number of pages: behind or between the grants, sharing no
  -- byte with any of them; and a release of any address in the new grant restores the grants.
  pub place-Places :
      (to : ℕ) (gs : List Grant)
      → to % 4096 ≡ 0
      → to ≤ limit
      → IsPlaced limit to gs
      → Places limit size to gs (place size to gs)
  unfolding place
  place-Places to [] page h v = Places-here to [] page h tt
  place-Places to (g ∷ gs) page h v = elim (Bool-cases (ltb (add_word to size) g.start)) [
    | inl e ↦ rw e (Places-here to (g ∷ gs) page h (ground arith, v.1, v.2))
    | inr e ↦
        let next = end_of-IsGrant limit g small v.1 in
        let later = place-Places (g.start + g.size) gs (omega arith) v.1.3 v.2 in
        rw (e, next) (Places-later to g gs (place size (g.start + g.size) gs) v.0 v.1 later)
  ]
