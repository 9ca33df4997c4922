-- ===== src/Driver.antt =====
-- kernel/syscall/driver.rs: the calls by which a driver gets physical memory. All of them are for the
-- super-user. Page tables are left out: `translate` stands for the active one, and the flags of
-- `physmap`, which go into its entries, have no effect here.
pub mod Root
pub mod Mapped
mod Tests
use origel.Base.{◌==◌, if◌then◌else◌, ℕ, ◌-◌, ◌/◌, Option, none, some, List}
use origel.Base.Map.{lookup}
use origel.Syscall.Error.{Result, ok, err, eperm, esrch, efault, enomem}
use origel.Context.Machine.{Machine}
use origel.Memory.{
  Allocator, Allocated, frame, exhausted, loops, allocate_frames, deallocate_frames,
  containing_address, start_address,
}
use origel.Grants.{
  Grant, place, full_size, from_address, add_word, user_grant_offset, remove_grant, or_fault,
}

-- `enforce_root`
pub enforce_root : Machine → Result (Unit {0})
enforce_root m = elim (lookup m.current m.contexts) [
  | none ↦ err esrch
  | some c ↦ if c.euid == 0 then ok tt else err eperm
]

-- A call that goes on if it is the super-user's: `enforce_root()?`.
abbrev pub as_root {ℓ κ} :
    {A : Type ℓ} {S : Type κ} → Result (Unit {0}) → S → Result A × S → Result A × S
as_root (err e) s r = (err e, s)
as_root (ok _) s r = r

pub iopl : (level stack_base : ℕ) → Machine → Result ℕ
unfolding enforce_root
iopl level stack_base m = (as_root (enforce_root m) tt (ok 0, tt {0})).0

-- The result of a call that may not return.
abbrev pub frame_result : Allocated → Result (Option ℕ)
frame_result (frame f) = ok (some (start_address f))
frame_result exhausted = err enomem
frame_result loops = ok none

-- `(size + 4095)/4096`
abbrev pub frames_for : ℕ → ℕ
frames_for size = add_word size 4095 / 4096

-- `physalloc`, with fuel for `allocate_frames`; the result `ok none` is that of fuel that ran out.
pub physalloc : (fuel size : ℕ) → Machine → Allocator → Result (Option ℕ) × Allocator
unfolding enforce_root
physalloc fuel size m s =
    let (allocated, s') = allocate_frames fuel (frames_for size) s in
    as_root (enforce_root m) s (frame_result allocated, s')

pub physfree : (physical_address size : ℕ) → Machine → Allocator → Result ℕ × Allocator
unfolding enforce_root
physfree physical_address size m s =
    as_root (enforce_root m) s
      (ok 0, deallocate_frames (containing_address physical_address) (frames_for size) s)

-- `physmap` on the grants of the running context.
pub physmap : (physical_address size : ℕ) → Machine → List Grant → Result ℕ × List Grant
unfolding enforce_root
physmap physical_address size m gs = as_root (enforce_root m) gs (
    if size == 0
    then (ok 0, gs)
    else (let (to, gs') = place (full_size physical_address size) user_grant_offset gs in
        (ok (add_word to (physical_address - from_address physical_address)), gs')))

pub physunmap : (virtual_address : ℕ) → Machine → List Grant → Result ℕ × List Grant
unfolding enforce_root
physunmap virtual_address m gs =
    as_root (enforce_root m) gs
      (if virtual_address == 0 then (ok 0, gs) else or_fault gs (remove_grant virtual_address gs))

pub virttophys : (ℕ → Option ℕ) → (virtual_address : ℕ) → Machine → Result ℕ
unfolding enforce_root
virttophys translate virtual_address m =
    (as_root (enforce_root m) tt
      (elim (translate virtual_address) [ none ↦ err efault | some a ↦ ok a ], tt {0})).0
