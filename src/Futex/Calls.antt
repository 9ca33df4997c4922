-- ===== src/Futex/Calls.antt =====
-- kernel/syscall/futex.rs: what `FUTEX_WAKE` does.

use origel.Base.{
  ltb, ◌==◌, if◌then◌else◌, ltb→lt, Bool-cases, Option-cases, length, get_elem?, drop, ℕ, zero, suc,
  ◌+◌, ◌%◌, ◌^◌, ◌≤◌, ◌<◌, min, ◌≡◌, refl, ◌∙◌, ◌≢◌, ◌⊎◌, inl, inr, Bool, ◌&&◌, some, arith,
}
use origel.Base.Map.{lookup}
use origel.Context.Machine.{Machine}
use origel.Context.Machine.Wake.{woken?, woken-woken, lookup-unblock_context}
use origel.Futex.{FutexList, Round, wake_entry, wake_loop, first, less_i32, futex_wake_call}
use origel.Futex.Count.{
  count, swap_remove_back-Removed, drop-swap_remove_back, get_elem?-drop, count-drop-some,
  count-drop-none,
}

-- The tests for the entries at an address, and for the context `id` at an address.
abbrev pub at : ℕ → ℕ × ℕ → Bool
at addr e = e.0 == addr

abbrev pub is : ℕ → ℕ → ℕ × ℕ → Bool
is addr id e = e.0 == addr && e.1 == id

-- What wakings on an address change from one state to another: as many entries of this address are
-- gone as contexts were woken; no entry of another address is gone; just the contexts that have
-- lost an entry run again.
record Wakes (addr : ℕ) (r r' : Round) : Type 0 where
  gone : count (at addr) r'.list + r'.woken ≡ count (at addr) r.list + r.woken
  others : (a id : ℕ) → a ≢ addr → count (is a id) r'.list ≡ count (is a id) r.list
  fewer : (id : ℕ) → count (is addr id) r'.list ≤ count (is addr id) r.list
  contexts :
      (id : ℕ)
      → lookup id r'.machine.contexts ≡ (
          if count (is addr id) r'.list == count (is addr id) r.list
          then lookup id r.machine.contexts
          else woken? (lookup id r.machine.contexts))

-- The state in which the loop ends.
abbrev IsEnd : ℕ → ℕ → Round → Type 0
IsEnd addr val r = (r.woken ≡ val) ⊎ (count (at addr) r.list ≡ 0)

-- The entries before the index do not match, and the limit is not passed.
record IsRound (addr val : ℕ) (r : Round) : Type 0 where
  before : count (at addr) (drop r.i r.list) ≡ count (at addr) r.list
  limit : r.woken ≤ val
  within : r.i ≤ length r.list

Wakes-refl : (addr : ℕ) (r : Round) → Wakes addr r r
Wakes-refl addr r = record {
  gone = refl;
  others = λ a id h. refl;
  fewer = λ id. omega arith;
  contexts = λ id. ground arith;
}

Wakes-trans : (addr : ℕ) (r s t : Round) → Wakes addr r s → Wakes addr s t → Wakes addr r t
Wakes-trans addr r s t a b = record {
  gone = b.gone ∙ a.gone;
  others = λ x id h. b.others x id h ∙ a.others x id h;
  fewer = λ id. omega (arith, a.fewer id, b.fewer id);
  contexts = λ id. ground (
    arith,
    a.fewer id,
    b.fewer id,
    a.contexts id,
    b.contexts id,
    woken-woken (lookup id r.machine.contexts),
  );
}

module _ (addr val : ℕ) (e : ℕ × ℕ) (r : Round) (h : get_elem? r.list r.i ≡ some e) where
  Wakes-entry : Wakes addr r (wake_entry addr e r)
  unfolding wake_entry
  Wakes-entry = record {
    gone = ground (arith, swap_remove_back-Removed (at addr) r.i e r.list h);
    others = λ a id ne. ground (arith, swap_remove_back-Removed (is a id) r.i e r.list h);
    fewer = λ id. ground (arith, swap_remove_back-Removed (is addr id) r.i e r.list h);
    contexts = λ id. ground (
      arith,
      swap_remove_back-Removed (is addr id) r.i e r.list h,
      lookup-unblock_context id e.1 r.machine,
    );
  }

  IsRound-entry : r.woken < val → IsRound addr val r → IsRound addr val (wake_entry addr e r)
  unfolding wake_entry
  IsRound-entry less v = record {
    before = ground (
      arith,
      v.before,
      swap_remove_back-Removed (at addr) r.i e r.list h,
      drop-swap_remove_back r.i r.list,
      swap_remove_back-Removed (at addr) 0 e (drop r.i r.list) (get_elem?-drop r.i r.list ∙ h),
      count-drop-some (at addr) r.i e r.list h,
    );
    limit = ground (arith, v.limit);
    within = ground (
      arith,
      swap_remove_back-Removed (at addr) r.i e r.list h,
      count-drop-some (at addr) r.i e r.list h,
    );
  }

  shorter : length r.list + (wake_entry addr e r).i ≡ length (wake_entry addr e r).list + r.i + 1
  unfolding wake_entry
  shorter = ground (arith, swap_remove_back-Removed (at addr) r.i e r.list h)

less_i32_small : (a b : ℕ) → a ≤ b → b < 2 ^ 31 → less_i32 (a % 2 ^ 32) b ≡ ltb a b
less_i32_small a b h k = ground arith

wake_loop_lem :
    (fuel addr val : ℕ) (r : Round)
    → IsRound addr val r
    → val < 2 ^ 31
    → length r.list < r.i + fuel
    → (r' : Round) × (wake_loop fuel addr val r ≡ some r')
      × Wakes addr r r'
      × IsEnd addr val r'
      × (r'.woken ≤ val)
unfolding wake_loop
wake_loop_lem zero addr val r v b f = absurd (omega (arith, v.within))
wake_loop_lem (suc fuel) addr val r v b f = elim (Bool-cases (ltb r.woken val)) [
  | inr e ↦ (
    r,
    ground (arith, less_i32_small r.woken val v.limit b),
    Wakes-refl addr r,
    inl (ground (arith, v.limit)),
    v.limit,
  )
  | inl e ↦ elim (Option-cases (get_elem? r.list r.i)) [
    | inl none_left ↦ (
      r,
      ground (arith, less_i32_small r.woken val v.limit b),
      Wakes-refl addr r,
      inr (omega (arith, v.before, count-drop-none (at addr) r.i r.list none_left)),
      v.limit,
    )
    | inr (x, here) ↦
        let (r', q, w, end, small) =
          wake_loop_lem fuel addr val (wake_entry addr x r)
            (IsRound-entry addr val x r here (ltb→lt r.woken val e) v) b
            (omega (arith, shorter addr val x r here)) in
        (
          r',
          ground (arith, less_i32_small r.woken val v.limit b),
          Wakes-trans addr r (wake_entry addr x r) r' (Wakes-entry addr val x r here) w,
          end,
          small,
        )
  ]
]

-- `FUTEX_WAKE` ends. It wakes as many contexts as wait on the address, but no more than asked for,
-- and returns their number; just as many entries of this address go, and none of another; a context
-- that has lost an entry runs again, if it was blocked, and every other context is as it was.
pub futex_wake_lem :
    (addr val : ℕ) (l : FutexList) (m : Machine)
    → val < 2 ^ 31
    → (n : ℕ) × (l' : FutexList) × (m' : Machine) × (futex_wake_call addr val l m
        ≡ some (n, l', m'))
      × (n ≡ min val (count (at addr) l))
      × (count (at addr) l' + n ≡ count (at addr) l)
      × ((a id : ℕ) → a ≢ addr → count (is a id) l' ≡ count (is a id) l)
      × ((id : ℕ)
          → lookup id m'.contexts ≡ (
              if count (is addr id) l' == count (is addr id) l
              then lookup id m.contexts
              else woken? (lookup id m.contexts)))
unfolding futex_wake_call
futex_wake_lem addr val l m b =
    let (r, q, w, end, small) =
      wake_loop_lem (suc (length l)) addr val (first l m)
        (record { before = refl; limit = omega arith; within = omega arith }) b (omega arith) in
    (
      r.woken,
      r.list,
      r.machine,
      rw (q, futex_wake_call) refl,
      elim end [ inl e ↦ omega (arith, w.gone, e) | inr e ↦ omega (arith, w.gone, e, small) ],
      omega (arith, w.gone),
      λ a id h. w.others a id h,
      λ id. w.contexts id,
    )
