-- ===== src/Context/Machine/Block.antt =====
-- kernel/context/context.rs: `block`, on the running context.
use origel.Base.{◌≡◌, ◌≢◌, some, arith}
use origel.Base.Map.{lookup, insert, lookup-insert}
use origel.Context.{Context, runnable, block}
use origel.Context.Machine.{Machine, block_current}

not_runnable : (c : Context) → (block c).1.status ≢ runnable
unfolding block
not_runnable c h = ground arith

-- The running context is not runnable after `block`.
pub block_current_lem :
    (m : Machine) (c : Context)
    → lookup m.current m.contexts ≡ some c
    → (m' : Machine) × (block_current m ≡ some m')
      × ((d : Context) → lookup m'.current m'.contexts ≡ some d → d.status ≢ runnable)
unfolding block_current
block_current_lem m c e = (
  record m { contexts = insert m.current (block c).1 m.contexts },
  rw (e, block_current),
  λ d h. ground (arith, not_runnable c, lookup-insert m.current m.current (block c).1 m.contexts),
)
