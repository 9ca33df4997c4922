-- ===== src/Grants/Release.antt =====
-- kernel/scheme/user.rs: a buffer that is captured and released.
use origel.Base.{ℕ, ◌+◌, ◌-◌, ◌/◌, ◌%◌, ◌^◌, ◌≤◌, ◌<◌, ◌≡◌, ap, ◌∙◌, Bool, true, some, List, arith}
use origel.Syscall.Error.{ok}
use origel.Grants.{
  Grant, returns, place, all_mapped, from_address, full_size, user_grant_offset, capture_inner,
  remove_grant, release, funmap, add_word,
}
use origel.Grants.Placed.{IsPlaced, place-Places}

full_size_lem :
    (address size : ℕ)
    → size < 2 ^ 61
    → (full_size address size % 4096 ≡ 0)
      × (address - from_address address + size ≤ full_size address size)
      × (full_size address size ≤ size + 8192)
full_size_lem address size h = omega arith

-- Whole pages for the bytes of a buffer: the address in them that stands for the buffer's first byte,
-- with the grants apart, and every address of the bytes leading back to the grants before.
pub record PlacedBytes (address size limit : ℕ) (gs : List Grant) (r : ℕ × List Grant)
    : Type 0 where
  pub no_wrap :
      add_word r.0 (address - from_address address) ≡ r.0 + (address - from_address address)
  pub page : (r.0 + (address - from_address address)) % 4096 ≡ address % 4096
  pub above : 0 < r.0
  pub placed : IsPlaced (limit + full_size address size) user_grant_offset r.1
  pub removed :
      (i : ℕ) → i < size → remove_grant (r.0 + (address - from_address address) + i) r.1 ≡ some gs

pub place-PlacedBytes :
    (address size limit : ℕ) (gs : List Grant)
    → 0 < size
    → size < 2 ^ 61
    → user_grant_offset ≤ limit
    → limit ≤ 2 ^ 61
    → IsPlaced limit user_grant_offset gs
    → PlacedBytes address size limit gs (place (full_size address size) user_grant_offset gs)
place-PlacedBytes address size limit gs some_bytes small room high v =
    let full = full_size address size in
    let (whole, fits, few) = full_size_lem address size small in
    let offset = address - from_address address in
    let p =
      place-Places limit full (omega arith) whole (omega arith) (omega arith) user_grant_offset gs
        (omega arith) room v in
    let (to, gs') = place full user_grant_offset gs in
    record {
      no_wrap = omega (arith, p.below);
      page = omega (arith, p.page);
      above = omega (arith, p.above);
      placed = p.placed;
      removed =
          λ i k. ap (λ a. remove_grant a gs') (omega arith) ∙ p.removed (offset + i) (omega arith);
    }

capture_inner-place :
    (is_mapped : ℕ → Bool) (address size : ℕ) (gs : List Grant)
    → 0 < size
    → all_mapped is_mapped (address / 4096) (full_size address size / 4096) ≡ true
    → let (to, gs') = place (full_size address size) user_grant_offset gs in
      capture_inner true is_mapped address size gs
      ≡ returns (ok (add_word to (address - from_address address))) gs'
unfolding capture_inner
capture_inner-place is_mapped address size gs h e = ground arith

release-removed :
    (address : ℕ) (gs gs' : List Grant)
    → 0 < address
    → remove_grant address gs' ≡ some gs
    → release true address gs' ≡ (ok 0, gs)
unfolding release
release-removed address gs gs' h e = ground arith

-- A buffer of mapped pages is always captured: at an address with the same place in its page, with
-- the grants still apart from one another. A release of any of its addresses restores the grants.
pub capture-release :
    (is_mapped : ℕ → Bool) (address size limit : ℕ) (gs : List Grant)
    → 0 < size
    → size < 2 ^ 61
    → user_grant_offset ≤ limit
    → limit ≤ 2 ^ 61
    → all_mapped is_mapped (address / 4096) (full_size address size / 4096) ≡ true
    → IsPlaced limit user_grant_offset gs
    → (a : ℕ) × (gs' : List Grant) × (capture_inner true is_mapped address size gs
        ≡ returns (ok a) gs')
      × (a % 4096 ≡ address % 4096)
      × IsPlaced (limit + full_size address size) user_grant_offset gs'
      × ((i : ℕ) → i < size → release true (a + i) gs' ≡ (ok 0, gs))
capture-release is_mapped address size limit gs some_bytes small room high mapped v =
    let p = place-PlacedBytes address size limit gs some_bytes small room high v in
    let (to, gs') = place (full_size address size) user_grant_offset gs in
    let a = to + (address - from_address address) in
    (
      a,
      gs',
      capture_inner-place is_mapped address size gs some_bytes mapped
          ∙ ap (λ a. returns (ok a) gs') p.no_wrap,
      p.page,
      p.placed,
      λ i k. release-removed (a + i) gs gs' (omega (arith, p.above)) (p.removed i k),
    )

-- `funmap` and `release` remove the same grant, the first one that holds the address, and both fail
-- with `EFAULT` when there is none: on a live context the two agree, at every address.
pub funmap-release :
    (address : ℕ) (gs : List Grant)
    → funmap address (some gs) ≡ ((release true address gs).0, some (release true address gs).1)
unfolding funmap release
funmap-release address gs = ground arith
