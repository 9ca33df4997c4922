-- ===== src/Memory/Range.antt =====
-- arch/x86_64/src/memory/area_frame_allocator.rs: allocation of several frames at once.

use origel.Base.{ℕ, zero, suc, ◌+◌, ◌-◌, ◌^◌, ◌≤◌, ◌<◌, ◌≡◌, refl, ◌≢◌, none, some, arith}
use origel.Memory.{
  MemoryArea, start_frame, last_frame, Allocator, reaching, min_by_base, choose_next_area, frame,
  loops, try_area, allocate_from, allocate_frames,
}

-- A range that begins below the kernel and ends above it, within the current area, is handed out,
-- although every frame of the kernel lies in it: the code tests only its two ends.
pub allocate_over_kernel :
    (fuel count : ℕ) (a : MemoryArea) (s : Allocator)
    → s.current_area ≡ some a
    → s.kernel_start ≤ s.kernel_end
    → s.next_free_frame < s.kernel_start
    → s.kernel_end < s.next_free_frame + (count - 1)
    → s.next_free_frame + (count - 1) ≤ last_frame a
    → ((allocate_frames (suc fuel) count s).0 ≡ frame s.next_free_frame)
      × ((f : ℕ)
          → s.kernel_start ≤ f
          → f ≤ s.kernel_end
          → (s.next_free_frame ≤ f) × (f < s.next_free_frame + count))
unfolding allocate_frames allocate_from try_area
allocate_over_kernel fuel count a s e k lo hi within =
    let small : s.next_free_frame + (count - 1) < 2 ^ 64 = omega arith in
    (ground arith, λ f h g. omega arith)

stays_put :
    (a : MemoryArea) (s : Allocator)
    → s.current_area ≡ some a
    → min_by_base (reaching s.next_free_frame s.areas) ≡ some a
    → start_frame a ≤ s.next_free_frame
    → choose_next_area s ≡ s
unfolding choose_next_area
stays_put a s e m h = ground arith

try_stuck :
    (count : ℕ) (a : MemoryArea) (s : Allocator)
    → last_frame a < s.next_free_frame + (count - 1)
    → s.next_free_frame + (count - 1) < 2 ^ 64
    → try_area a count s ≡ (none, choose_next_area s)
unfolding try_area
try_stuck count a s h k = ground arith

retry_stuck :
    (fuel count : ℕ) (a : MemoryArea) (s : Allocator)
    → s.current_area ≡ some a
    → try_area a count s ≡ (none, s)
    → (allocate_from fuel count s).0 ≡ loops
unfolding allocate_from
retry_stuck zero count a s e q = refl
retry_stuck (suc fuel) count a s e q = ground (arith, retry_stuck fuel count a s e q)

-- If the current area has a free frame left, but fewer than are asked for, and it is the lowest such
-- area, then `allocate_frames` chooses it again and again, and never returns.
pub allocate_never_returns :
    (fuel count : ℕ) (a : MemoryArea) (s : Allocator)
    → count ≢ 0
    → s.current_area ≡ some a
    → min_by_base (reaching s.next_free_frame s.areas) ≡ some a
    → start_frame a ≤ s.next_free_frame
    → last_frame a < s.next_free_frame + (count - 1)
    → s.next_free_frame + (count - 1) < 2 ^ 64
    → (allocate_frames fuel count s).0 ≡ loops
unfolding allocate_frames
allocate_never_returns fuel count a s c e m h k b =
    ground (arith, retry_stuck fuel count a s e, try_stuck count a s k b, stays_put a s e m h)
