-- ===== src/Net/Tcpd/Waiting.antt =====
-- What holds of the handles of tcpd in whatever order packets of callers and of the network arrive.
pub mod Handles
pub mod Steps
pub mod Calls
pub mod Files
pub mod Serve
pub mod Runs
use mathlib.Core.Path.{subst}
use origel.Base.{ltb, ◌==◌, Bool-cases, ℕ, ◌≡◌, ◌⊎◌, inl, inr, true, false, some, [], ◌∷◌, arith}
use origel.Base.Map.{Map, lookup, insert, remove}
use origel.Net.Tcpd.{Handle, is_connected, read_closed, listen, Tcpd}
use origel.Net.Tcpd.Receive.{is_listen}

-- A read waits only if there is nothing to read, and more may come; and a handle that listens is not
-- connected, and no read waits in it.
pub record IsServed (h : Handle) : Type 0 where
  pub waits : (h.todo_read ≡ []) ⊎ ((h.segments ≡ []) × (read_closed h ≡ false))
  pub listens : is_listen h.state ≡ true → (is_connected h ≡ false) × (h.todo_read ≡ [])

abbrev pub Every : Map Handle → Type 0
Every [] = Unit {0}
Every ((id, h) ∷ hs) = IsServed h × Every hs

abbrev pub IsSound : Tcpd → Type 0
IsSound t = Every t.handles

pub lookup-Every :
    (id : ℕ) (hs : Map Handle) (h : Handle) → Every hs → lookup id hs ≡ some h → IsServed h
unfolding lookup
lookup-Every id [] h e p = cc
lookup-Every id ((j, g) ∷ hs) h e p = elim (Bool-cases (id == j)) [
  | inl b ↦ let same : g ≡ h = ground (arith, b, p) in subst IsServed same e.0
  | inr b ↦ lookup-Every id hs h e.1 (ground (arith, b, p))
]

pub insert-Every :
    (id : ℕ) (h : Handle) (hs : Map Handle) → IsServed h → Every hs → Every (insert id h hs)
unfolding insert
insert-Every id h [] s e = (s, tt)
insert-Every id h ((j, g) ∷ hs) s e = elim (Bool-cases (id == j)) [
  | inl b ↦ rw b (s, e.1)
  | inr b ↦ elim (Bool-cases (ltb id j)) [
    | inl c ↦ rw (b, c) (s, e)
    | inr c ↦ rw (b, c) (e.0, insert-Every id h hs s e.1)
  ]
]

pub remove-Every : (id : ℕ) (hs : Map Handle) → Every hs → Every (remove id hs)
unfolding remove
remove-Every id [] e = tt
remove-Every id ((j, g) ∷ hs) e = elim (Bool-cases (id == j)) [
  | inl b ↦ rw b (remove-Every id hs e.1)
  | inr b ↦ rw b (e.0, remove-Every id hs e.1)
]
