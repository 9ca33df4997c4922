-- ===== src/Driver/Root.antt =====
-- kernel/syscall/driver.rs: who may make the calls.
use origel.Base.{ℕ, ◌≡◌, refl, ◌≢◌, Option, some, List, arith}
use origel.Base.Map.{lookup}
use origel.Syscall.Error.{err, eperm}
use origel.Context.{Context}
use origel.Context.Machine.{Machine}
use origel.Memory.{Allocator}
use origel.Grants.{Grant}
use origel.Driver.{enforce_root, iopl, physalloc, physfree, physmap, physunmap, virttophys}

enforce_root-refuses :
    (m : Machine) (c : Context)
    → lookup m.current m.contexts ≡ some c
    → c.euid ≢ 0
    → enforce_root m ≡ err eperm
unfolding enforce_root
enforce_root-refuses m c h ne = ground arith

-- A context whose effective user is not 0 gets `EPERM` from every one of these calls, and the frames
-- and its grants stay as they were.
pub driver_calls-refuse :
    (m : Machine) (c : Context)
    → lookup m.current m.contexts ≡ some c
    → c.euid ≢ 0
    → ((level stack_base : ℕ) → iopl level stack_base m ≡ err eperm)
      × ((fuel size : ℕ) (s : Allocator) → physalloc fuel size m s ≡ (err eperm, s))
      × ((address size : ℕ) (s : Allocator) → physfree address size m s ≡ (err eperm, s))
      × ((address size : ℕ) (gs : List Grant) → physmap address size m gs ≡ (err eperm, gs))
      × ((address : ℕ) (gs : List Grant) → physunmap address m gs ≡ (err eperm, gs))
      × ((translate : ℕ → Option ℕ) (address : ℕ) → virttophys translate address m ≡ err eperm)
unfolding iopl physalloc physfree physmap physunmap virttophys
driver_calls-refuse m c h ne =
    let e = enforce_root-refuses m c h ne in
    (
      λ level stack_base. rw (iopl, e) refl,
      λ fuel size s. rw (physalloc, e) refl,
      λ address size s. rw (physfree, e) refl,
      λ address size gs. rw (physmap, e) refl,
      λ address gs. rw (physunmap, e) refl,
      λ translate address. rw (virttophys, e) refl,
    )
