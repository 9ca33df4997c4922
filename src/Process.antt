-- ===== src/Process.antt =====
-- kernel/syscall/process.rs: `exit`, `waitpid`, `kill` and `getpid`, by which a process ends and its
-- parent hears of it. The memory of the process is left out.
pub mod Alive
pub mod Exit
pub mod Signals
mod Tests
use origel.Base.{
  ltb, leb, ◌==◌, if◌then◌else◌, ℕ, suc, bit_and, Bool, false, ◌&&◌, ◌||◌, Option, none, some, List,
  [], ◌∷◌, ◌++◌,
}
use origel.Base.Map.{Map, lookup, insert, remove, contains_key}
use origel.Syscall.Error.{Result, ok, err, esrch, eperm, einval}
use origel.Syscall.Flag.{wnohang}
use origel.Context.{Context, File, Status, exited}
use origel.Context.Machine.{Machine, unblock_context}
use origel.Sync.{
  Outcome, done, sleeps, panics, WaitMap, receive_nonblock, receive_key, receive_any_nonblock,
  receive_any, receive_all, send_key,
}
use origel.FileCalls.{Kernel, Schemes, running, with_files, with_context, forget, close_in_scheme}

-- The kernel, with the fields `waitpid` and `pending` of the contexts by number.
pub record Processes {ℓ} (S : Type ℓ) : Type ℓ where
  pub kernel : Kernel S
  pub waitpids : Map (WaitMap ℕ)
  pub pending : Map (List ℕ)

-- The `waitpid` of a context, and its `pending`; these are empty at first.
abbrev pub waitpid_in {ℓ} : {A : Type ℓ} → Option (WaitMap A) → WaitMap A
waitpid_in none = record { inner = []; condition = [] }
waitpid_in (some w) = w

abbrev pub waitpid_of : ℕ → Map (WaitMap ℕ) → WaitMap ℕ
waitpid_of id waitpids = waitpid_in (lookup id waitpids)

abbrev pub pending_in : Option (List ℕ) → List ℕ
pending_in none = []
pending_in (some signals) = signals

abbrev pub with_machine {ℓ} : {S : Type ℓ} → Machine → Kernel S → Kernel S
with_machine m k = record k { machine = m }

-- The loop of `exit` that closes the files from descriptor `fd` on.
pub close_all {ℓ} : {S : Type ℓ} → Schemes S → ℕ → List (Option File) → Kernel S → Kernel S
close_all schemes fd [] k = k
close_all schemes fd (none ∷ fs) k = close_all schemes (suc fd) fs k
close_all schemes fd (some f ∷ fs) k =
    close_all schemes (suc fd) fs (close_in_scheme schemes f (forget fd f k)).1

-- The loop of `exit` that hands the children over.
pub reparent : (pid ppid : ℕ) → Map Context → Map Context
reparent pid ppid [] = []
reparent pid ppid ((id, c) ∷ m) =
    (id, if c.ppid == pid then record c { ppid = ppid; vfork = false } else c) ∷ reparent pid ppid m

abbrev pub or_else {ℓ} : {A : Type ℓ} → A → Option A → A
or_else a none = a
or_else a (some b) = b

-- The loop of `exit` that passes the states of the children on.
pub send_all : Map ℕ → WaitMap ℕ → Machine → WaitMap ℕ × Machine
send_all [] w m = (w, m)
send_all ((id, status) ∷ rest) w m = let (w', m') = send_key id status w m in send_all rest w' m'

abbrev pub woken_parent : Bool → ℕ → Machine → Machine
woken_parent vfork ppid m = if vfork then unblock_context ppid m else m

abbrev pub keyed : ℕ → Option ℕ → Option (ℕ × ℕ)
keyed pid none = none
keyed pid (some status) = some (pid, status)

abbrev pub keyed_later : ℕ → Outcome ℕ → Outcome (ℕ × ℕ)
keyed_later pid (done status) = done (pid, status)
keyed_later pid sleeps = sleeps
keyed_later pid panics = panics

-- Who may send a signal to a context.
abbrev pub may_kill : Context → Context → Bool
may_kill sender receiver =
    sender.euid == 0 || sender.euid == receiver.ruid || sender.ruid == receiver.ruid

module _ {ℓ} {S : Type ℓ} where
  -- The last part of `exit`: the parent, if there is one, gets the states of the children, and that of
  -- the context.
  pub tell_parent :
      (pid ppid status : ℕ) → Bool → Map ℕ → Processes S → Option Context → Processes S
  unfolding send_all
  tell_parent pid ppid status vfork children p none = p
  tell_parent pid ppid status vfork children p (some _) =
      let (w, m) =
        send_all children (waitpid_of ppid p.waitpids) (woken_parent vfork ppid p.kernel.machine) in
      let (w', m') = send_key pid status w m in
      record p { kernel = with_machine m' p.kernel; waitpids = insert ppid w' p.waitpids }

  -- `exit` behind the loops: the context ends.
  pub end_context : (pid ppid status : ℕ) → Context → Processes S → Processes S
  unfolding tell_parent
  end_context pid ppid status c p =
      let k = with_context (record c { vfork = false; status = exited status }) p.kernel in
      let (children, own) = receive_all (waitpid_of pid p.waitpids) in
      tell_parent pid ppid status c.vfork children
        (record p { kernel = k; waitpids = insert pid own p.waitpids })
        (lookup ppid k.machine.contexts)

  abbrev pub exit_from : Schemes S → Bool → ℕ → Processes S → Option Context → Option (Processes S)
  exit_from schemes alone status p none = none
  exit_from schemes alone status p (some c) =
      let k = with_files c [] p.kernel in
      let k' = if alone then close_all schemes 0 c.files k else k in
      let m = k'.machine in
      let k'' = with_machine (record m { contexts = reparent c.id c.ppid m.contexts }) k' in
      some (end_context c.id c.ppid status (or_else c (running k'')) (record p { kernel = k'' }))

  -- `exit`, up to the switch to another context. `alone` says that no other context has the same
  -- table of files; `none` is the panic without a running context.
  pub exit : Schemes S → Bool → ℕ → Processes S → Option (Processes S)
  unfolding close_all reparent end_context
  exit schemes alone status p = exit_from schemes alone status p (running p.kernel)

  pub getpid : Kernel S → Result ℕ
  getpid k = elim (running k) [ none ↦ err esrch | some c ↦ ok c.id ]

  -- `reap`; its loop ends before its first round.
  pub reap : ℕ → Processes S → Result ℕ × Processes S
  reap pid p =
      let m = p.kernel.machine in
      (
        elim (lookup pid m.contexts) [ none ↦ err esrch | some _ ↦ ok pid ],
        record p { kernel = with_machine (record m { contexts = remove pid m.contexts }) p.kernel },
      )

  abbrev pub with_own : WaitMap ℕ → Machine → Processes S → Processes S
  with_own w m p = record p {
    kernel = with_machine m p.kernel;
    waitpids = insert m.current w p.waitpids;
  }

  -- What `waitpid` answers to an entry, or to none: its result, the state that it stores, and the rest.
  abbrev pub answer_now : Processes S → Option (ℕ × ℕ) → Outcome (Result ℕ) × Option ℕ × Processes S
  answer_now p none = (done (ok 0), none, p)
  answer_now p (some (pid, status)) = let (r, p') = reap pid p in (done r, some status, p')

  abbrev pub answer_later :
      Processes S → Outcome (ℕ × ℕ) → Outcome (Result ℕ) × Option ℕ × Processes S
  answer_later p (done (pid, status)) = let (r, p') = reap pid p in (done r, some status, p')
  answer_later p sleeps = (sleeps, none, p)
  answer_later p panics = (panics, none, p)

  -- `waitpid` of a context that runs, behind the check of its pointer.
  pub wait_for : (pid flags : ℕ) → Processes S → Outcome (Result ℕ) × Option ℕ × Processes S
  unfolding reap
  wait_for pid flags p =
      let m = p.kernel.machine in
      let own = waitpid_of m.current p.waitpids in
      if pid == 0
      then (if bit_and flags wnohang == wnohang
          then (let (entry, w) = receive_any_nonblock own in answer_now (with_own w m p) entry)
          else (let (out, w, m') = receive_any own m in answer_later (with_own w m' p) out))
      else (if bit_and flags wnohang == wnohang
          then (let (status, w) = receive_nonblock pid own in
              answer_now (with_own w m p) (keyed pid status))
          else (let (out, w, m') = receive_key pid own m in
              answer_later (with_own w m' p) (keyed_later pid out)))

  -- `waitpid`, where `writable` is `validate_slice_mut` for one word.
  pub waitpid :
      (ℕ → Result (Unit {0}))
      → (pid status_ptr flags : ℕ) → Processes S
      → Outcome (Result ℕ) × Option ℕ × Processes S
  unfolding wait_for
  waitpid writable pid status_ptr flags p = elim (running p.kernel) [
    | none ↦ (done (err esrch), none, p)
    | some _ ↦ elim (if status_ptr == 0 then ok tt else writable status_ptr) [
      | err e ↦ (done (err e), none, p)
      | ok _ ↦ wait_for pid flags p
    ]
  ]

  pub kill_from : (pid sig : ℕ) → Processes S → Context → Option Context → Result ℕ × Processes S
  kill_from pid sig p sender none = (err esrch, p)
  kill_from pid sig p sender (some receiver) =
      if may_kill sender receiver
      then (
        ok 0,
        record p {
          pending = insert pid (pending_in (lookup pid p.pending) ++ (sig ∷ [])) p.pending;
        },
      )
      else (err eperm, p)

  pub kill : (pid sig : ℕ) → Processes S → Result ℕ × Processes S
  unfolding kill_from
  kill pid sig p = elim (running p.kernel) [
    | none ↦ (err esrch, p)
    | some sender ↦
        if ltb 0 sig && leb sig 0x7f
        then kill_from pid sig p sender (lookup pid p.kernel.machine.contexts)
        else (err einval, p)
  ]
