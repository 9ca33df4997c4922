-- ===== src/Memory/Single.antt =====
-- arch/x86_64/src/memory/area_frame_allocator.rs: allocation of single frames.
use mathlib.Core.Path.{subst}
use origel.Base.{
  ltb, ltb→lt, Bool-cases, Option-cases, ℕ, zero, suc, ◌+◌, ◌≤◌, ◌<◌, ◌≡◌, refl, sym, ap, inl, inr,
  false, Option, none, some, arith,
}
use origel.Memory.Valid.{
  Current, IsValid, IsArea-of, IsReaching, Follows, choose-Advanced, IsTouched-of, Good, Good-later,
}
use origel.Memory.{
  MemoryArea, last_frame, Allocator, choose_next_area, frame, exhausted, in_kernel, end_frame,
  try_area, allocate_from, allocate_frames,
}

-- What one call of `try_area` for one frame does: it finds one, moves to another area, or skips
-- the kernel.
data Tried (a : MemoryArea) (s : Allocator) (r : Option ℕ × Allocator) : Type 0 where
  finds :
      s.next_free_frame ≤ last_frame a
      → in_kernel s s.next_free_frame ≡ false
      → r ≡ (some s.next_free_frame, record s { next_free_frame = s.next_free_frame + 1 })
      → Tried a s r
  moves : last_frame a < s.next_free_frame → r ≡ (none, choose_next_area s) → Tried a s r
  skips :
      s.next_free_frame ≤ last_frame a
      → s.next_free_frame ≤ s.kernel_end
      → r ≡ (none, record s { next_free_frame = s.kernel_end + 1 })
      → Tried a s r

end_single : (s : Allocator) → IsValid s → end_frame s 1 ≡ s.next_free_frame
end_single s v = omega (arith, v.next_small)

try_single : (a : MemoryArea) (s : Allocator) → IsValid s → Tried a s (try_area a 1 s)
unfolding try_area
try_single a s v = elim (Bool-cases (ltb (last_frame a) s.next_free_frame)) [
  | inl e ↦ moves (ltb→lt (last_frame a) s.next_free_frame e) (rw (end_single s v, e))
  | inr e ↦ elim (Bool-cases (in_kernel s s.next_free_frame)) [
    | inl k ↦ skips (ground arith) (ground arith) (
        rw (end_single s v, e, k)
          (ap (λ (n : ℕ). (none, record s { next_free_frame = n }))
            (omega (arith, v.kernel_small))))
    | inr k ↦ finds (ground arith) k (
        rw (end_single s v, e, k)
          (ap (λ (n : ℕ). (some s.next_free_frame, record s { next_free_frame = n }))
            (omega (arith, v.next_small))))
  ]
]

abbrev skipped : Allocator → Allocator
skipped s = record s { next_free_frame = s.kernel_end + 1 }

Follows-refl : (s : Allocator) → Follows s s
Follows-refl s = record {
  same_areas = refl;
  same_start = refl;
  same_end = refl;
  not_lower = omega arith;
}

Current-of :
    (s : Allocator) (a : MemoryArea) → IsValid s → s.current_area ≡ some a → Current s (some a)
Current-of s a v e = subst (Current s) e v.current

found-Good :
    (a : MemoryArea) (s : Allocator)
    → IsValid s
    → s.current_area ≡ some a
    → s.next_free_frame ≤ last_frame a
    → in_kernel s s.next_free_frame ≡ false
    → Good s (frame s.next_free_frame, record s { next_free_frame = s.next_free_frame + 1 })
found-Good a s v e h k =
    let (i, l) = Current-of s a v e in
    let (ha, hb) = IsArea-of a s.areas v.areas i in
    record {
      gives = (omega arith, refl, k, IsTouched-of s.next_free_frame a s.areas i l h);
      valid = record {
        areas = v.areas;
        kernel = v.kernel;
        kernel_small = v.kernel_small;
        next_small = omega arith;
        current =
            subst (Current (record s { next_free_frame = s.next_free_frame + 1 })) (sym e)
              (i, omega arith);
      };
      follows = record {
        same_areas = refl;
        same_start = refl;
        same_end = refl;
        not_lower = omega arith;
      };
    }

skipped-IsValid :
    (s : Allocator) → IsValid s → s.next_free_frame ≤ s.kernel_end → IsValid (skipped s)
skipped-IsValid s v h = record {
  areas = v.areas;
  kernel = v.kernel;
  kernel_small = v.kernel_small;
  next_small = omega (arith, v.kernel_small);
  current = raise s.current_area v.current;
}
  where
    raise : (o : Option MemoryArea) → Current s o → Current (skipped s) o
    raise none c = tt
    raise (some a) c = (c.0, omega arith)

skipped-Follows : (s : Allocator) → s.next_free_frame ≤ s.kernel_end → Follows s (skipped s)
skipped-Follows s h = record {
  same_areas = refl;
  same_start = refl;
  same_end = refl;
  not_lower = omega arith;
}

-- A round of the allocation of one frame, given what its two retries come to.
module _ (fuel : ℕ) (s : Allocator) (v : IsValid s) where
  from_found :
      (a : MemoryArea)
      → s.current_area ≡ some a
      → (f : ℕ) (s' : Allocator) → try_area a 1 s ≡ (some f, s')
      → allocate_from (suc fuel) 1 s ≡ (frame f, s')
  unfolding allocate_from
  from_found a e f s' q = ground arith

  from_retry :
      (a : MemoryArea)
      → s.current_area ≡ some a
      → (s' : Allocator) → try_area a 1 s ≡ (none, s')
      → allocate_from (suc fuel) 1 s ≡ allocate_from fuel 1 s'
  unfolding allocate_from
  from_retry a e s' q = ground arith

  from_none : s.current_area ≡ none → allocate_from (suc fuel) 1 s ≡ (exhausted, s)
  unfolding allocate_from
  from_none e = ground arith

  round_in :
      (a : MemoryArea)
      → s.current_area ≡ some a
      → (last_frame a < s.next_free_frame
          → Good (choose_next_area s) (allocate_from fuel 1 (choose_next_area s)))
      → (s.next_free_frame ≤ s.kernel_end → Good (skipped s) (allocate_from fuel 1 (skipped s)))
      → Tried a s (try_area a 1 s)
      → Good s (allocate_from (suc fuel) 1 s)
  round_in a e move skip (finds h k q) =
      subst (Good s) (sym (from_found a e s.next_free_frame _ q)) (found-Good a s v e h k)
  round_in a e move skip (moves h q) =
      subst (Good s) (sym (from_retry a e (choose_next_area s) q)) (
        Good-later s (choose_next_area s) (allocate_from fuel 1 (choose_next_area s))
          (choose-Advanced s v).follows (move h))
  round_in a e move skip (skips h k q) =
      subst (Good s) (sym (from_retry a e (skipped s) q))
        (Good-later s (skipped s) (allocate_from fuel 1 (skipped s)) (skipped-Follows s k) (skip k))

  round :
      ((a : MemoryArea)
        → s.current_area ≡ some a
        → last_frame a < s.next_free_frame
        → Good (choose_next_area s) (allocate_from fuel 1 (choose_next_area s)))
      → (s.next_free_frame ≤ s.kernel_end → Good (skipped s) (allocate_from fuel 1 (skipped s)))
      → Good s (allocate_from (suc fuel) 1 s)
  round move skip = elim (Option-cases s.current_area) [
    | inl e ↦
        subst (Good s) (sym (from_none e))
          (record { gives = tt; valid = v; follows = Follows-refl s })
    | inr (a, e) ↦ round_in a e (move a e) skip (try_single a s v)
  ]

-- Past the kernel and within the current area, the round is the last.
last_round :
    (fuel : ℕ) (s : Allocator)
    → IsValid s
    → IsReaching s s.current_area
    → s.kernel_end < s.next_free_frame
    → Good s (allocate_from (suc fuel) 1 s)
last_round fuel s v r k =
    round fuel s v
      (λ a e h. absurd (let q : IsReaching s (some a) = subst (IsReaching s) e r in omega arith))
      (λ h. absurd (omega arith))

past_round :
    (fuel : ℕ) (s : Allocator)
    → IsValid s
    → s.kernel_end < s.next_free_frame
    → Good s (allocate_from (suc (suc fuel)) 1 s)
past_round fuel s v k =
    round (suc fuel) s v
      (λ a e h.
        let d = choose-Advanced s v in
        last_round fuel (choose_next_area s) d.valid d.reaches
          (omega (arith, d.follows.same_end, d.follows.not_lower)))
      (λ h. absurd (omega arith))

reaching_round :
    (fuel : ℕ) (s : Allocator)
    → IsValid s
    → IsReaching s s.current_area
    → Good s (allocate_from (suc (suc (suc fuel))) 1 s)
reaching_round fuel s v r =
    round (suc (suc fuel)) s v
      (λ a e h. absurd (let q : IsReaching s (some a) = subst (IsReaching s) e r in omega arith))
      (λ h. past_round fuel (skipped s) (skipped-IsValid s v h) (omega arith))

any_round :
    (fuel : ℕ) (s : Allocator) → IsValid s → Good s (allocate_from (suc (suc (suc (suc fuel)))) 1 s)
any_round fuel s v =
    round (suc (suc (suc fuel))) s v
      (λ a e h.
        let d = choose-Advanced s v in reaching_round fuel (choose_next_area s) d.valid d.reaches)
      (λ h. reaching_any (skipped-IsValid s v h) (omega arith))
  where
    reaching_any :
        IsValid (skipped s)
        → s.kernel_end < (skipped s).next_free_frame
        → Good (skipped s) (allocate_from (suc (suc (suc fuel))) 1 (skipped s))
    reaching_any w k = past_round (suc fuel) (skipped s) w k

-- From a valid state, the allocation of one frame ends within four calls, whatever the areas. It
-- keeps the state valid, and the frame that it gives, if any, is not below the next free one, has bytes in a
-- free area, is not one of the kernel, and the next free frame is then the one behind it. The frame may reach
-- beyond the area, where the area does not begin or end with a frame.
pub allocate_one :
    (fuel : ℕ) (s : Allocator) → IsValid s → 4 ≤ fuel → Good s (allocate_frames fuel 1 s)
unfolding allocate_frames
allocate_one zero s v h = absurd (omega arith)
allocate_one (suc zero) s v h = absurd (omega arith)
allocate_one (suc (suc zero)) s v h = absurd (omega arith)
allocate_one (suc (suc (suc zero))) s v h = absurd (omega arith)
allocate_one (suc (suc (suc (suc fuel)))) s v h = any_round fuel s v
