-- ===== src/Sync/Race.antt =====
-- kernel/sync/wait_queue.rs with several processors: `receive` gives up the lock on the queue between
-- its look at the queue and its wait, and a `send` may fall between the two.
use origel.Base.{ℕ, ◌≡◌, refl, ◌≢◌, some, List, [], ◌∷◌}
use origel.Base.Map.{lookup}
use origel.Context.{Context, runnable}
use origel.Context.Machine.{Machine}
use origel.Context.Machine.Block.{block_current_lem}
use origel.Sync.{unblock_all, notify, wait, WaitQueue, send_from, send}

-- Where the receiver stands: before its look at the queue, after a look at an empty queue, in its
-- sleep, or behind the loop with an entry.
pub data Phase : Type 0 where
  looks misses sleeps : Phase
  returns : ℕ → Phase

pub record System : Type 0 where
  pub phase : Phase
  pub queue : WaitQueue ℕ
  pub machine : Machine

-- A step of the receiver.
pub data Step : System → System → Type 0 where
  look :
      (s : System) (x : ℕ) (rest : List ℕ)
      → s.phase ≡ looks
      → s.queue.inner ≡ x ∷ rest
      → Step s (record s {
        phase = returns x;
        queue = record { inner = rest; condition = s.queue.condition };
      })
  miss : (s : System) → s.phase ≡ looks → s.queue.inner ≡ [] → Step s (record s { phase = misses })
  sleep :
      (s : System) (waiting : List ℕ) (m : Machine)
      → s.phase ≡ misses
      → wait s.queue.condition s.machine ≡ some (waiting, m)
      → Step s (record {
        phase = sleeps;
        queue = record { inner = s.queue.inner; condition = waiting };
        machine = m;
      })
  resume :
      (s : System) (c : Context)
      → s.phase ≡ sleeps
      → lookup s.machine.current s.machine.contexts ≡ some c
      → c.status ≡ runnable
      → Step s (record s { phase = looks })

-- A call of `send` by another processor.
abbrev pub sent : ℕ → System → System
sent x s = record s { queue = (send x s.queue s.machine).1; machine = (send x s.queue s.machine).2 }

-- Steps of the receiver, and calls of `send` by others, with the entries that they send, the last one first.
pub data Reach (s : System) : List ℕ → System → Type 0 where
  here : Reach s [] s
  next : {xs : List ℕ} {t u : System} → Reach s xs t → Step t u → Reach s xs u
  other_sends : {xs : List ℕ} {t : System} (x : ℕ) → Reach s xs t → Reach s (x ∷ xs) (sent x t)

-- The receiver sleeps, and can take no step, on a queue that holds the entry `x` alone.
pub record IsLost (x : ℕ) (s : System) : Type 0 where
  pub asleep : s.phase ≡ sleeps
  pub has_entry : s.queue.inner ≡ x ∷ []
  pub stuck : (t : System) → ¬ Step s t

asleep-stuck :
    (s t : System)
    → s.phase ≡ sleeps
    → ((c : Context) → lookup s.machine.current s.machine.contexts ≡ some c → c.status ≢ runnable)
    → ¬ Step s t
asleep-stuck s t asleep blocked (look _ x rest p q) = cc
asleep-stuck s t asleep blocked (miss _ p q) = cc
asleep-stuck s t asleep blocked (sleep _ waiting m p q) = cc
asleep-stuck s t asleep blocked (resume _ c p q r) = blocked c q r

send_empty :
    (x : ℕ) (m : Machine)
    → send x (record { inner = []; condition = [] }) m
      ≡ (1, record { inner = x ∷ []; condition = [] }, m)
unfolding send send_from notify unblock_all
send_empty x m = refl

abbrev pub start : Machine → System
start m = record { phase = looks; queue = record { inner = []; condition = [] }; machine = m }

-- Whenever a context begins to receive from an empty queue, there is an interleaving with one `send`, of an
-- entry `x`, after which the context sleeps and can take no step by itself, although the queue holds `x`.
pub Reach-IsLost :
    (x : ℕ) (m : Machine) (c : Context)
    → lookup m.current m.contexts ≡ some c
    → (s : System) × Reach (start m) (x ∷ []) s × IsLost x s
unfolding wait
Reach-IsLost x m c e =
    let (m', eq, stays) = block_current_lem m c e in
    let missed : System = record (start m) { phase = misses } in
    let filled : System = record missed { queue = record { inner = x ∷ []; condition = [] } } in
    let s : System = record {
      phase = sleeps;
      queue = record { inner = x ∷ []; condition = m.current ∷ [] };
      machine = m';
    } in
    let went : Reach (start m) (x ∷ []) filled =
      rw (send_empty x m) at (other_sends x (next here (miss (start m) refl refl))) in
    (
      s,
      next went (sleep filled (m.current ∷ []) m' refl (rw (eq, wait))),
      record { asleep = refl; has_entry = refl; stuck = λ t. asleep-stuck s t refl stays },
    )
