-- ===== src/Grants.antt =====
-- kernel/scheme/user.rs, kernel/context/memory.rs and kernel/syscall/fs.rs: the memory of one context that
-- a scheme in another one may see. A grant is its first address and its size; the page tables behind
-- it are left out, save that a page of the caller that is not mapped is a panic. Addresses are
-- `usize`: a sum wraps.
pub mod Placed
pub mod Release
mod Tests
use origel.Base.{
  ltb, leb, ◌==◌, if◌then◌else◌, ℕ, zero, suc, ◌+◌, ◌-◌, ◌*◌, ◌/◌, ◌%◌, ◌^◌, Bool, true, ◌&&◌, not,
  Option, none, some, List, [], ◌∷◌,
}
use origel.Syscall.Error.{Result, ok, err, esrch, efault}

-- `Grant`
pub record Grant : Type 0 where
  pub start : ℕ
  pub size : ℕ

-- arch/x86_64/src/lib.rs
abbrev pub pml4_size : ℕ
pml4_size = 0x8000000000

abbrev pub user_grant_offset : ℕ
user_grant_offset = 2 * pml4_size

abbrev pub add_word : ℕ → ℕ → ℕ
add_word a b = (a + b) % 2 ^ 64

-- The address behind the last page of a grant, as the loop of `capture_inner` finds it.
abbrev pub end_of : Grant → ℕ
end_of g = add_word g.start (add_word g.size 4095 / 4096 * 4096)

-- The loop of `capture_inner` from the address `to` on: the address of the new grant, and the grants.
pub place : ℕ → ℕ → List Grant → ℕ × List Grant
place size to [] = (to, record { start = to; size = size } ∷ [])
place size to (g ∷ gs) =
    let (address, rest) = place size (end_of g) gs in
    if ltb (add_word to size) g.start
    then (to, record { start = to; size = size } ∷ g ∷ gs)
    else (address, g ∷ rest)

-- The pages of a range that `Grant::map_inactive` translates: all are mapped.
pub all_mapped : (ℕ → Bool) → ℕ → ℕ → Bool
all_mapped is_mapped page zero = true
all_mapped is_mapped page (suc n) = is_mapped page && all_mapped is_mapped (page + 1) n

-- A call returns a result and the grants, or panics.
pub data Captured {ℓ} (A : Type ℓ) : Type ℓ where
  returns : Result A → List Grant → Captured A
  panics : Captured A

-- The first byte of the page of an address, and the whole pages from there.
abbrev pub from_address : ℕ → ℕ
from_address address = address / 4096 * 4096

abbrev pub full_size : ℕ → ℕ → ℕ
full_size address size = add_word (address - from_address address + size) 4095 / 4096 * 4096

-- `UserInner::capture_inner` for a context that is alive or not; the caller's mapped pages are given.
pub capture_inner : Bool → (ℕ → Bool) → ℕ → ℕ → List Grant → Captured ℕ
unfolding place all_mapped
capture_inner is_alive is_mapped address size gs =
    if size == 0
    then returns (ok 0) gs
    else if not is_alive
    then returns (err esrch) gs
    else if all_mapped is_mapped (address / 4096) (full_size address size / 4096)
    then (let (to, gs') = place (full_size address size) user_grant_offset gs in
        returns (ok (add_word to (address - from_address address))) gs')
    else panics

-- The loop of `release` and of `funmap`: the grants without the first one that holds the address.
unfoldable pub remove_grant : ℕ → List Grant → Option (List Grant)
remove_grant address [] = none
remove_grant address (g ∷ gs) =
    let rest = remove_grant address gs in
    if leb g.start address && ltb address (add_word g.start g.size)
    then some gs
    else elim rest [ none ↦ none | some gs' ↦ some (g ∷ gs') ]

abbrev pub or_fault : List Grant → Option (List Grant) → Result ℕ × List Grant
or_fault gs none = (err efault, gs)
or_fault gs (some gs') = (ok 0, gs')

-- `UserInner::release`; its `()` is 0.
pub release : Bool → ℕ → List Grant → Result ℕ × List Grant
unfolding remove_grant
release is_alive address gs =
    if address == 0
    then (ok 0, gs)
    else if is_alive
    then or_fault gs (remove_grant address gs)
    else (err esrch, gs)

-- `funmap`, on the grants of the running context, if there is one.
pub funmap : ℕ → Option (List Grant) → Result ℕ × Option (List Grant)
unfolding remove_grant
funmap address current = if address == 0 then (ok 0, current) else elim current [
  | none ↦ (err esrch, none)
  | some gs ↦
      ((or_fault gs (remove_grant address gs)).0, some (or_fault gs (remove_grant address gs)).1)
]
