-- ===== src/Sync/Tests.antt =====
-- Runs of the waiting objects, and the theorems about them at concrete states.
use origel.Base.{ℕ, refl, true, false, some, List, [], ◌∷◌}
use origel.Base.Map.{lookup}
use origel.Context.{Context, Status, runnable, blocked, exited}
use origel.Context.Machine.{Machine}
use origel.Sync.{WaitQueue, WaitMap}
use origel.Sync.Queue.{Call, sends, receives, reads}
use origel.Sync.Race.{start, Reach, System, IsLost, Reach-IsLost}

abbrev context : ℕ → Status → Context
context id status = record {
  id = id;
  ppid = 0;
  ruid = 0;
  rgid = 0;
  rns = 0;
  euid = 0;
  egid = 0;
  ens = 0;
  status = status;
  cpu_id = some 1;
  vfork = false;
  cwd = [];
  files = [];
}

-- Context 2 runs, on processor 0; context 1 is blocked, and context 3 has exited.
abbrev machine : Machine
machine = record {
  contexts = (1, context 1 blocked) ∷ (2, context 2 runnable) ∷ (3, context 3 (exited 0)) ∷ [];
  current = 2;
  cpu = 0;
  interrupts = [];
}

abbrev queue : WaitQueue ℕ
queue = record { inner = 10 ∷ 11 ∷ []; condition = [] }

abbrev history : List (Call ℕ)
history = sends (12 ∷ []) ∷ reads 2 true ∷ receives ∷ receives ∷ []

Reach-IsLost_example : (s : System) × Reach (start machine) (7 ∷ []) s × IsLost 7 s
unfolding lookup
Reach-IsLost_example = Reach-IsLost 7 machine (context 2 runnable) refl

abbrev replies : WaitMap ℕ
replies = record { inner = (4, 40) ∷ []; condition = 1 ∷ [] }
