-- ===== src/Memory/Count.antt =====
-- arch/x86_64/src/memory/area_frame_allocator.rs: `free_frames` and `used_frames`.
use origel.Base.{ℕ, zero, suc, ◌+◌, ◌-◌, ◌≡◌, List, [], ◌∷◌, arith}
use origel.Memory.{
  MemoryArea, start_frame, last_frame, Allocator, count_from, count_areas, is_free, is_used,
  free_frames, used_frames,
}

-- The frames that the areas touch, counted by area.
total_frames : List MemoryArea → ℕ
total_frames [] = 0
total_frames (a ∷ tail) = (last_frame a + 1 - start_frame a) + total_frames tail

count_split :
    (s : Allocator) (start n : ℕ)
    → count_from (is_free s) start n + count_from (is_used s) start n ≡ n
unfolding count_from
count_split s start zero = omega arith
count_split s start (suc n) = ground (arith, count_split s (start + 1) n)

areas_split :
    (s : Allocator) (l : List MemoryArea)
    → count_areas (is_free s) l + count_areas (is_used s) l ≡ total_frames l
unfolding count_areas total_frames
areas_split s [] = omega arith
areas_split s (a ∷ tail) =
    omega
      (arith, count_split s (start_frame a) (last_frame a + 1 - start_frame a), areas_split s tail)

-- Every frame of the areas is counted as free or as used, and none as both.
free-add-used : (s : Allocator) → free_frames s + used_frames s ≡ total_frames s.areas
unfolding free_frames used_frames
free-add-used s = areas_split s s.areas
