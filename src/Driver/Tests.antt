-- ===== src/Driver/Tests.antt =====
-- Runs of the calls for drivers, and the theorems about them at concrete contexts and grants.
use origel.Base.{◌==◌, if◌then◌else◌, ℕ, ◌*◌, ◌≡◌, refl, none, some, List, [], ◌∷◌, arith}
use origel.Base.Map.{lookup}
use origel.Syscall.Error.{ok, err, efault, enomem}
use origel.Context.{Context, new_context}
use origel.Context.Machine.{Machine}
use origel.Memory.{Allocator, allocate_frames}
use origel.Grants.{Grant, remove_grant, user_grant_offset}
use origel.Grants.Placed.{IsPlaced}
use origel.Driver.{enforce_root, iopl, physalloc, physfree, physmap, physunmap, virttophys}
use origel.Driver.Mapped.{IsRoot}

abbrev user : ℕ → Context
user euid = record (new_context 1) { euid = euid }

abbrev machine : ℕ → Machine
machine euid = record { contexts = (1, user euid) ∷ []; current = 1; cpu = 0; interrupts = [] }

abbrev allocator : Allocator
allocator = record {
  next_free_frame = 9;
  current_area = none;
  areas = [];
  kernel_start = 1;
  kernel_end = 2;
}

abbrev grants : List Grant
grants = record { start = user_grant_offset; size = 8192 } ∷ []

machine-IsRoot : IsRoot (machine 0)
unfolding enforce_root lookup
machine-IsRoot = refl

translates : virttophys (λ a. if a == 5 then some 7 else none) 5 (machine 0) ≡ ok 7
unfolding virttophys lookup
translates = refl

permits_ports : iopl 3 0 (machine 0) ≡ ok 0
unfolding iopl lookup
permits_ports = refl

frees_nothing : (physfree 4096 1 (machine 0) allocator).0 ≡ ok 0
unfolding physfree lookup
frees_nothing = refl

allocates_nothing : physalloc 4 0 (machine 0) allocator ≡ (err enomem, allocator)
unfolding physalloc allocate_frames lookup
allocates_nothing = refl

unmaps_unknown : physunmap 5 (machine 0) grants ≡ (err efault, grants)
unfolding physunmap lookup remove_grant
unmaps_unknown = refl

maps_nothing : physmap 5 0 (machine 0) grants ≡ (ok 0, grants)
unfolding physmap lookup
maps_nothing = refl

grants-IsPlaced : IsPlaced (2 * user_grant_offset) user_grant_offset grants
grants-IsPlaced = omega arith
