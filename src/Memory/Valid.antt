-- ===== src/Memory/Valid.antt =====
-- arch/x86_64/src/memory/area_frame_allocator.rs: valid allocators, and what a choice of an area and an
-- allocation may change of them.

use origel.Base.{
  leb, leb→le, Bool-cases, All, ℕ, ◌+◌, ◌^◌, ◌≤◌, ◌<◌, ◌≡◌, refl, sym, ◌∙◌, ◌⊎◌, inl, inr, false,
  Option, none, some, List, [], ◌∷◌, arith,
}
use origel.Memory.{
  MemoryArea, start_frame, last_frame, Allocator, reaching, lower, min_by_base, choose_next_area,
  Allocated, frame, exhausted, loops, in_kernel,
}

-- An area that is not empty and ends within the address space.
abbrev pub IsArea : MemoryArea → Type 0
IsArea a = (1 ≤ a.length) × (a.base_addr + a.length < 2 ^ 64)

abbrev pub In : MemoryArea → List MemoryArea → Type 0
In a [] = ⊥
In a (b ∷ tail) = (a ≡ b) ⊎ In a tail

abbrev pub Current : Allocator → Option MemoryArea → Type 0
Current s none = Unit {0}
Current s (some a) = In a s.areas × (start_frame a ≤ s.next_free_frame)

pub record IsValid (s : Allocator) : Type 0 where
  pub areas : All IsArea s.areas
  pub kernel : s.kernel_start ≤ s.kernel_end
  pub kernel_small : s.kernel_end < 2 ^ 52
  pub next_small : s.next_free_frame ≤ 2 ^ 52
  pub current : Current s s.current_area

pub IsArea-of : (a : MemoryArea) (l : List MemoryArea) → All IsArea l → In a l → IsArea a
IsArea-of a [] h i = absurd i
IsArea-of a (b ∷ tail) h (inl e) = ground arith
IsArea-of a (b ∷ tail) h (inr i) = IsArea-of a tail h.1 i

-- The chosen area is one of the list, and its last frame is not below `next`.
abbrev Chosen : ℕ → List MemoryArea → Option MemoryArea → Type 0
Chosen next l none = Unit {0}
Chosen next l (some a) = In a l × (next ≤ last_frame a)

Chosen-weaken :
    (next : ℕ) (b : MemoryArea) (l : List MemoryArea) (o : Option MemoryArea)
    → Chosen next l o
    → Chosen next (b ∷ l) o
Chosen-weaken next b l none h = tt
Chosen-weaken next b l (some a) h = (inr h.0, h.1)

lower-Chosen :
    (next : ℕ) (a : MemoryArea) (l : List MemoryArea) (o : Option MemoryArea)
    → next ≤ last_frame a
    → Chosen next l o
    → Chosen next (a ∷ l) (lower a o)
lower-Chosen next a l none k h = (inl refl, k)
lower-Chosen next a l (some b) k h = elim (Bool-cases (leb a.base_addr b.base_addr)) [
  | inl e ↦ rw (e, lower, Chosen) (inl refl, k)
  | inr e ↦ rw (e, lower, Chosen) (inr h.0, h.1)
]

min_by_base-Chosen :
    (next : ℕ) (l : List MemoryArea) → Chosen next l (min_by_base (reaching next l))
unfolding min_by_base reaching
min_by_base-Chosen next [] = tt
min_by_base-Chosen next (a ∷ tail) = elim (Bool-cases (leb next (last_frame a))) [
  | inl e ↦ rw e (
      lower-Chosen next a tail (min_by_base (reaching next tail)) (leb→le next (last_frame a) e)
        (min_by_base-Chosen next tail))
  | inr e ↦
      rw e (
        Chosen-weaken next a tail (min_by_base (reaching next tail)) (min_by_base-Chosen next tail))
]

abbrev pub IsReaching : Allocator → Option MemoryArea → Type 0
IsReaching s none = Unit {0}
IsReaching s (some a) = s.next_free_frame ≤ last_frame a

-- The state with the same areas and kernel, and a next frame that is not lower.
pub record Follows (s s' : Allocator) : Type 0 where
  pub same_areas : s'.areas ≡ s.areas
  pub same_start : s'.kernel_start ≡ s.kernel_start
  pub same_end : s'.kernel_end ≡ s.kernel_end
  pub not_lower : s.next_free_frame ≤ s'.next_free_frame

pub record Advanced (s s' : Allocator) : Type 0 where
  pub valid : IsValid s'
  pub follows : Follows s s'
  pub reaches : IsReaching s' s'.current_area

Chosen-step :
    (s : Allocator) (o : Option MemoryArea)
    → IsValid s
    → Chosen s.next_free_frame s.areas o
    → min_by_base (reaching s.next_free_frame s.areas) ≡ o
    → Advanced s (choose_next_area s)
unfolding choose_next_area
Chosen-step s none v h e =
    rw (e, choose_next_area)
      (record {
        valid = record {
          areas = v.areas;
          kernel = v.kernel;
          kernel_small = v.kernel_small;
          next_small = v.next_small;
          current = tt;
        };
        follows = record {
          same_areas = refl;
          same_start = refl;
          same_end = refl;
          not_lower = omega arith;
        };
        reaches = tt;
      })
Chosen-step s (some a) v h e =
    let (ha, hb) = IsArea-of a s.areas v.areas h.0 in
    rw (e, choose_next_area)
      (record {
        valid = record {
          areas = v.areas;
          kernel = v.kernel;
          kernel_small = v.kernel_small;
          next_small = ground arith;
          current = (h.0, ground arith);
        };
        follows = record {
          same_areas = refl;
          same_start = refl;
          same_end = refl;
          not_lower = ground arith;
        };
        reaches = ground arith;
      })

pub choose-Advanced : (s : Allocator) → IsValid s → Advanced s (choose_next_area s)
choose-Advanced s v = Chosen-step s _ v (min_by_base-Chosen s.next_free_frame s.areas) refl

-- The frame has bytes in one of the areas: it is between the frames of the area's first and last byte.
abbrev pub IsTouched : ℕ → List MemoryArea → Type 0
IsTouched f [] = ⊥
IsTouched f (a ∷ tail) = ((start_frame a ≤ f) × (f ≤ last_frame a)) ⊎ IsTouched f tail

pub IsTouched-of :
    (f : ℕ) (a : MemoryArea) (l : List MemoryArea)
    → In a l
    → start_frame a ≤ f
    → f ≤ last_frame a
    → IsTouched f l
IsTouched-of f a [] i h k = absurd i
IsTouched-of f a (b ∷ tail) (inl e) h k = inl (ground arith)
IsTouched-of f a (b ∷ tail) (inr i) h k = inr (IsTouched-of f a tail i h k)

-- What a result promises: a frame at or above the next free one, with bytes in one of the areas and outside
-- the kernel, with the next free frame just behind it.
abbrev pub Gives : Allocator → Allocator → Allocated → Type 0
Gives s s' (frame f) =
    (s.next_free_frame ≤ f)
    × (s'.next_free_frame ≡ f + 1)
    × (in_kernel s f ≡ false)
    × IsTouched f s.areas
Gives s s' exhausted = Unit {0}
Gives s s' loops = ⊥

pub record Good (s : Allocator) (r : Allocated × Allocator) : Type 0 where
  pub gives : Gives s r.1 r.0
  pub valid : IsValid r.1
  pub follows : Follows s r.1

Gives-later : (s s1 s' : Allocator) (r : Allocated) → Follows s s1 → Gives s1 s' r → Gives s s' r
Gives-later s s1 s' (frame f) w g = (
  omega (arith, w.not_lower, g.0),
  g.1,
  rw (sym w.same_start, sym w.same_end) g.2,
  rw (sym w.same_areas) g.3,
)
Gives-later s s1 s' exhausted w g = tt
Gives-later s s1 s' loops w g = g

pub Follows-trans : (s s1 s' : Allocator) → Follows s s1 → Follows s1 s' → Follows s s'
Follows-trans s s1 s' a b = record {
  same_areas = b.same_areas ∙ a.same_areas;
  same_start = b.same_start ∙ a.same_start;
  same_end = b.same_end ∙ a.same_end;
  not_lower = omega (arith, a.not_lower, b.not_lower);
}

pub Good-later :
    (s s1 : Allocator) (r : Allocated × Allocator) → Follows s s1 → Good s1 r → Good s r
Good-later s s1 r w g = record {
  gives = Gives-later s s1 r.1 r.0 w g.gives;
  valid = g.valid;
  follows = Follows-trans s s1 r.1 w g.follows;
}
