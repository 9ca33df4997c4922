-- ===== src/Memory/Tests.antt =====
-- Runs of the frame allocator, and the theorems about it at concrete states.
use origel.Base.{ℕ, ◌*◌, ◌≤◌, ◌<◌, ◌≡◌, refl, inl, some, [], ◌∷◌, arith}
use origel.Memory.{
  MemoryArea, Allocator, frame, loops, new, areas_of, reaching, min_by_base, allocate_frames,
  deallocate_frames,
}
use origel.Memory.Valid.{IsValid, Good}
use origel.Memory.Single.{allocate_one}
use origel.Memory.Range.{allocate_over_kernel, allocate_never_returns}

-- An area of `n` frames.
abbrev area : ℕ → ℕ → MemoryArea
area first n = record { base_addr = first * 4096; length = n * 4096; kind = 1; acpi = 0 }

-- The kernel lies in the frames 4 to 6.
abbrev fresh : Allocator
fresh = record {
  next_free_frame = 3;
  current_area = some (area 2 20);
  areas = area 2 20 ∷ area 100 8 ∷ [];
  kernel_start = 4;
  kernel_end = 6;
}

abbrev nearly_full : Allocator
nearly_full = record fresh { next_free_frame = 20 }

new_skips : new 0x4000 0x6FFF (area 100 8 ∷ area 2 20 ∷ []) ≡ record {
  next_free_frame = 2;
  current_area = some (area 2 20);
  areas = area 100 8 ∷ area 2 20 ∷ [];
  kernel_start = 4;
  kernel_end = 6;
}
unfolding new
new_skips = refl

areas_of_free : areas_of 1 (area 0 1 ∷ record (area 1 1) { kind = 2 } ∷ []) ≡ area 0 1 ∷ []
unfolding areas_of
areas_of_free = refl

deallocate_keeps : (f count : ℕ) → deallocate_frames f count fresh ≡ fresh
unfolding deallocate_frames
deallocate_keeps f count = refl

skips_kernel : (allocate_frames 4 1 (record fresh { next_free_frame = 4 })).0 ≡ frame 7
unfolding allocate_frames
skips_kernel = refl

fresh-IsValid : IsValid fresh
fresh-IsValid = record {
  areas = ((omega arith, omega arith), ((omega arith, omega arith), tt));
  kernel = omega arith;
  kernel_small = omega arith;
  next_small = omega arith;
  current = (inl refl, omega arith);
}

allocate_one_example : Good fresh (allocate_frames 4 1 fresh)
allocate_one_example = allocate_one 4 fresh fresh-IsValid (omega arith)

allocate_over_kernel_example :
    ((allocate_frames 1 5 fresh).0 ≡ frame 3) × ((f : ℕ) → 4 ≤ f → f ≤ 6 → (3 ≤ f) × (f < 8))
allocate_over_kernel_example =
    allocate_over_kernel 0 5 (area 2 20) fresh refl (omega arith) (omega arith) (omega arith)
      (omega arith)

allocate_never_returns_example : (allocate_frames 1000 4 nearly_full).0 ≡ loops
unfolding reaching min_by_base
allocate_never_returns_example =
    allocate_never_returns 1000 4 (area 2 20) nearly_full (omega arith) refl refl (omega arith)
      (omega arith) (omega arith)
