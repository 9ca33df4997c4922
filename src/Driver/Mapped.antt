-- ===== src/Driver/Mapped.antt =====
-- kernel/syscall/driver.rs: memory that is mapped and unmapped.
use origel.Base.{ℕ, ◌+◌, ◌-◌, ◌%◌, ◌^◌, ◌≤◌, ◌<◌, ◌≡◌, ap, ◌∙◌, some, List, arith}
use origel.Syscall.Error.{ok}
use origel.Context.Machine.{Machine}
use origel.Grants.{Grant, place, full_size, from_address, add_word, user_grant_offset, remove_grant}
use origel.Grants.Placed.{IsPlaced}
use origel.Grants.Release.{place-PlacedBytes}
use origel.Driver.{enforce_root, physmap, physunmap}

abbrev pub IsRoot : Machine → Type 0
IsRoot m = enforce_root m ≡ ok tt

physmap-place :
    (address size : ℕ) (m : Machine) (gs : List Grant)
    → IsRoot m
    → 0 < size
    → let (to, gs') = place (full_size address size) user_grant_offset gs in
      physmap address size m gs ≡ (ok (add_word to (address - from_address address)), gs')
unfolding physmap
physmap-place address size m gs root h = ground (arith, root)

physunmap-removed :
    (address : ℕ) (m : Machine) (gs gs' : List Grant)
    → IsRoot m
    → 0 < address
    → remove_grant address gs' ≡ some gs
    → physunmap address m gs' ≡ (ok 0, gs)
unfolding physunmap
physunmap-removed address m gs gs' root h e = ground (arith, root)

-- The super-user's `physmap` of some bytes always succeeds: it gives an address with the same place in
-- its page as the physical one, and the grants still lie apart from one another. A `physunmap` of any
-- address of these bytes restores the grants.
pub physmap-physunmap :
    (address size limit : ℕ) (m : Machine) (gs : List Grant)
    → IsRoot m
    → 0 < size
    → size < 2 ^ 61
    → user_grant_offset ≤ limit
    → limit ≤ 2 ^ 61
    → IsPlaced limit user_grant_offset gs
    → (a : ℕ) × (gs' : List Grant) × (physmap address size m gs ≡ (ok a, gs'))
      × (a % 4096 ≡ address % 4096)
      × IsPlaced (limit + full_size address size) user_grant_offset gs'
      × ((i : ℕ) → i < size → physunmap (a + i) m gs' ≡ (ok 0, gs))
physmap-physunmap address size limit m gs root some_bytes small room high v =
    let p = place-PlacedBytes address size limit gs some_bytes small room high v in
    let (to, gs') = place (full_size address size) user_grant_offset gs in
    let a = to + (address - from_address address) in
    (
      a,
      gs',
      physmap-place address size m gs root some_bytes ∙ ap (λ a. (ok a, gs')) p.no_wrap,
      p.page,
      p.placed,
      λ i k. physunmap-removed (a + i) m gs gs' root (omega (arith, p.above)) (p.removed i k),
    )
