-- ===== src/Memory.antt =====
-- arch/x86_64/src/memory: frames, the memory map and the area frame allocator. A frame is its
-- number. The allocator of the source sits behind a global lock; here it is a value.
pub mod Valid
pub mod Single
pub mod Range
pub mod Count
mod Tests
use origel.Base.{
  ltb, leb, ◌==◌, if◌then◌else◌, ℕ, zero, suc, ◌+◌, ◌-◌, ◌*◌, ◌/◌, ◌%◌, ◌^◌, Bool, true, false,
  ◌&&◌, ◌||◌, Option, none, some, List, [], ◌∷◌,
}

abbrev pub page_size : ℕ
page_size = 4096

abbrev pub memory_area_free : ℕ
memory_area_free = 1

pub record MemoryArea : Type 0 where
  pub base_addr : ℕ
  pub length : ℕ
  pub kind : ℕ
  pub acpi : ℕ

-- `MemoryAreaIter`, run to its end: the areas of one type, in the order of the memory map.
pub areas_of : ℕ → List MemoryArea → List MemoryArea
areas_of kind [] = []
areas_of kind (a ∷ tail) =
    let rest = areas_of kind tail in if a.kind == kind then a ∷ rest else rest

-- `Frame::containing_address` and `start_address`
abbrev pub containing_address : ℕ → ℕ
containing_address address = address / page_size

abbrev pub start_address : ℕ → ℕ
start_address frame = frame * page_size % 2 ^ 64

-- The frame of an area's first byte, and of the byte at `base_addr + length - 1`.
abbrev pub start_frame : MemoryArea → ℕ
start_frame a = containing_address a.base_addr

abbrev pub last_frame : MemoryArea → ℕ
last_frame a = containing_address ((a.base_addr + a.length + (2 ^ 64 - 1)) % 2 ^ 64)

-- `AreaFrameAllocator`
pub record Allocator : Type 0 where
  pub next_free_frame : ℕ
  pub current_area : Option MemoryArea
  pub areas : List MemoryArea
  pub kernel_start : ℕ
  pub kernel_end : ℕ

-- The areas whose last frame is not below `next`.
pub reaching : ℕ → List MemoryArea → List MemoryArea
reaching next [] = []
reaching next (a ∷ tail) =
    let rest = reaching next tail in if leb next (last_frame a) then a ∷ rest else rest

-- `min_by_key(|area| area.base_addr)`: the first of the least.
abbrev pub lower : MemoryArea → Option MemoryArea → Option MemoryArea
lower a none = some a
lower a (some b) = if leb a.base_addr b.base_addr then some a else some b

pub min_by_base : List MemoryArea → Option MemoryArea
min_by_base [] = none
min_by_base (a ∷ tail) = lower a (min_by_base tail)

-- `choose_next_area`
pub choose_next_area : Allocator → Allocator
unfolding reaching min_by_base
choose_next_area s = elim (min_by_base (reaching s.next_free_frame s.areas)) [
  | none ↦ record s { current_area = none }
  | some a ↦ record s {
    current_area = some a;
    next_free_frame =
        if ltb s.next_free_frame (start_frame a) then start_frame a else s.next_free_frame;
  }
]

-- `AreaFrameAllocator::new`
pub new : ℕ → ℕ → List MemoryArea → Allocator
unfolding choose_next_area
new kernel_start kernel_end areas = choose_next_area (record {
  next_free_frame = 0;
  current_area = none;
  areas = areas;
  kernel_start = containing_address kernel_start;
  kernel_end = containing_address kernel_end;
})

-- The result of `allocate_frames`: `loops` stands for fuel that ran out.
pub data Allocated : Type 0 where
  frame : ℕ → Allocated
  exhausted loops : Allocated

abbrev pub in_kernel : Allocator → ℕ → Bool
in_kernel s f = leb s.kernel_start f && leb f s.kernel_end

-- The last of `count` frames from the next free one on.
abbrev pub end_frame : Allocator → ℕ → ℕ
end_frame s count = (s.next_free_frame + (count - 1)) % 2 ^ 64

-- One call of `allocate_frames` in the area `a`, up to its recursive call: the next state, and the
-- frame if it is done.
pub try_area : MemoryArea → ℕ → Allocator → Option ℕ × Allocator
unfolding choose_next_area
try_area a count s =
    if ltb (last_frame a) (end_frame s count)
    then (none, choose_next_area s)
    else if in_kernel s s.next_free_frame || in_kernel s (end_frame s count)
    then (none, record s { next_free_frame = (s.kernel_end + 1) % 2 ^ 64 })
    else (
      some s.next_free_frame,
      record s { next_free_frame = (s.next_free_frame + count) % 2 ^ 64 },
    )

-- `allocate_frames` for a count that is not 0, on fuel: a call for each unit.
pub allocate_from : ℕ → ℕ → Allocator → Allocated × Allocator
unfolding try_area
allocate_from zero count s = (loops, s)
allocate_from (suc fuel) count s = elim s.current_area [
  | none ↦ (exhausted, s)
  | some a ↦ elim (try_area a count s).0 [
    | some f ↦ (frame f, (try_area a count s).1)
    | none ↦ allocate_from fuel count (try_area a count s).1
  ]
]

-- `allocate_frames`
unfoldable pub allocate_frames : ℕ → ℕ → Allocator → Allocated × Allocator
unfolding allocate_from
allocate_frames fuel count s = if count == 0 then (exhausted, s) else allocate_from fuel count s

-- `deallocate_frames` does nothing.
pub deallocate_frames : ℕ → ℕ → Allocator → Allocator
deallocate_frames f count s = s

-- The frames of `Frame::range_inclusive(start, start + n - 1)` that pass a test.
pub count_from : (ℕ → Bool) → ℕ → ℕ → ℕ
count_from test start zero = 0
count_from test start (suc n) = (if test start then 1 else 0) + count_from test (start + 1) n

pub count_areas : (ℕ → Bool) → List MemoryArea → ℕ
unfolding count_from
count_areas test [] = 0
count_areas test (a ∷ tail) =
    count_from test (start_frame a) (last_frame a + 1 - start_frame a) + count_areas test tail

-- The tests of the loops of `free_frames` and `used_frames`.
abbrev pub is_free : Allocator → ℕ → Bool
is_free s f = if in_kernel s f then false else leb s.next_free_frame f

abbrev pub is_used : Allocator → ℕ → Bool
is_used s f = if in_kernel s f then true else if leb s.next_free_frame f then false else true

pub free_frames : Allocator → ℕ
unfolding count_areas
free_frames s = count_areas (is_free s) s.areas

pub used_frames : Allocator → ℕ
unfolding count_areas
used_frames s = count_areas (is_used s) s.areas
