-- ===== src/Process/Tests.antt =====
-- Runs of `exit`, `waitpid` and `kill`, and the theorems about them at concrete processes.
use origel.Base.{◌==◌, if◌then◌else◌, ℕ, ◌≡◌, refl, true, none, some, [], ◌∷◌, ◌++◌, arith}
use origel.Base.Map.{lookup}
use origel.Syscall.Error.{Result, ok, err, esrch, eperm, einval}
use origel.Syscall.Flag.{wnohang}
use origel.Context.{Context, new_context}
use origel.Sync.{done, receive_any_nonblock}
use origel.FileCalls.{Schemes, running}
use origel.Process.{Processes, waitpid, exit, reparent, getpid, reap, wait_for, kill}
use origel.Process.Alive.{Lives, LeavesContexts}
use origel.Process.Exit.{as_running, exit-waitpid}
use origel.Process.Signals.{MayKill, pending_of, kill_lem}

-- A scheme that fails no call.
abbrev quiet : Schemes ℕ
quiet = record {
  request = λ id r k. (ok 0, k);
  call = λ id c k. (ok 0, k);
  pipe = λ flags k. ((0, 1), k);
  pipe_scheme_id = 3;
  stat_address = 4096;
  stat_mode = λ k. 0;
}

quiet-LeavesContexts : LeavesContexts quiet
quiet-LeavesContexts = record { request_lives = λ j id r k h. h; request_current = λ id r k. refl }

-- Context 2 runs, a child of context 1 and the parent of context 3.
abbrev child : Context
child = record (new_context 2) {
  ppid = 1;
  ruid = 7;
  euid = 7;
  files = some (record { scheme = 3; number = 5; event = none }) ∷ [];
}

abbrev grandchild : Context
grandchild = record (new_context 3) { ppid = 2; ruid = 7 }

abbrev processes : Processes ℕ
processes = record {
  kernel = record {
    machine = record {
      contexts = (1, new_context 1) ∷ (2, child) ∷ (3, grandchild) ∷ [];
      current = 2;
      cpu = 0;
      interrupts = [];
    };
    schemes = record { map = []; names = []; next_ns = 0; next_id = 1 };
    registry = [];
    state = 0;
  };
  waitpids = [];
  pending = [];
}

abbrev no_check : ℕ → Result (Unit {0})
no_check address = ok tt

runs : running processes.kernel ≡ some child
unfolding lookup
runs = refl

own_number : getpid processes.kernel ≡ ok 2
unfolding getpid lookup new_context
own_number = refl

hands_over :
    lookup 3 (reparent 2 1 processes.kernel.machine.contexts)
    ≡ some (record grandchild { ppid = 1 })
unfolding reparent lookup new_context
hands_over = refl

nothing_yet : (waitpid no_check 0 0 wnohang processes).0 ≡ done (ok 0)
unfolding waitpid wait_for lookup receive_any_nonblock
nothing_yet = refl

reaps_unknown : (reap 9 processes).0 ≡ err esrch
unfolding reap lookup
reaps_unknown = refl

refuses_signal : kill 1 128 processes ≡ (err einval, processes)
unfolding kill lookup
refuses_signal = refl

parent-Lives : Lives 1 processes.kernel.machine
unfolding lookup
parent-Lives e = ground arith

exit-waitpid_example :
    (p' : Processes ℕ) × (exit quiet true 42 processes ≡ some p')
    × let (out, stored, p'') = waitpid no_check 2 0 0 (as_running 1 p') in
      (out ≡ done (ok 2)) × (stored ≡ some 42) × (lookup 2 p''.kernel.machine.contexts ≡ none)
unfolding new_context
exit-waitpid_example =
    exit-waitpid quiet quiet-LeavesContexts no_check true 42 processes child runs refl (omega arith)
      parent-Lives

-- The child may signal its own child, but not context 1.
kill_lem_example :
    (MayKill child grandchild
      → ((kill 3 9 processes).0 ≡ ok 0)
        × ((kill 3 9 processes).1.kernel ≡ processes.kernel)
        × ((j : ℕ)
            → pending_of j (kill 3 9 processes).1
              ≡ (if j == 3 then pending_of j processes ++ (9 ∷ []) else pending_of j processes)))
    × (¬ MayKill child grandchild → kill 3 9 processes ≡ (err eperm, processes))
unfolding lookup
kill_lem_example = kill_lem 3 9 processes child grandchild runs found (omega arith) (omega arith)
  where
    found : lookup 3 processes.kernel.machine.contexts ≡ some grandchild
    found = refl
