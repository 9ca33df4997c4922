-- ===== src/Process/Exit.antt =====
-- kernel/syscall/process.rs: the parent of a context that exits.

use origel.Base.{
  ◌==◌, if◌then◌else◌, ℕ, ◌≡◌, refl, ap, ◌∙◌, ◌≢◌, Bool, true, false, Option, none, some, List, [],
  arith,
}
use origel.Base.Map.{Map, lookup, insert, remove, lookup-insert, lookup-remove}
use origel.Syscall.Error.{Result, ok}
use origel.Context.{exited, Context, File}
use origel.Sync.{Outcome, done, send_key}
use origel.Sync.Keyed.{inner-send_key, receive_key-found}
use origel.FileCalls.{Kernel, Schemes, running, with_files, with_context}
use origel.Process.{
  answer_later, with_own, receive_all, Processes, waitpid_of, with_machine, close_all, reparent,
  or_else, send_all, woken_parent, tell_parent, end_context, exit, exit_from, reap, wait_for,
  waitpid,
}
use origel.Process.Alive.{
  Lives, send_key-Lives, send_all-Lives, woken_parent-Lives, LeavesContexts, Later, Later-trans,
  Later-with_context, Later-reparent, Later-close_all,
}

module _ {ℓ} {S : Type ℓ} where
  abbrev pub status_for : (pid ppid : ℕ) → Processes S → Option ℕ
  status_for pid ppid p = lookup pid (waitpid_of ppid p.waitpids).inner

  tell_parent-status :
      (pid ppid status : ℕ) (vfork : Bool) (children : Map ℕ) (p : Processes S) (parent : Context)
      → status_for pid ppid (tell_parent pid ppid status vfork children p (some parent))
        ≡ some status
  unfolding tell_parent
  tell_parent-status pid ppid status vfork children p parent =
      let (w, m) =
        send_all children (waitpid_of ppid p.waitpids) (woken_parent vfork ppid p.kernel.machine) in
      let (w', m') = send_key pid status w m in
      ground (
        arith,
        lookup-insert ppid ppid w' p.waitpids,
        inner-send_key pid status w m,
        lookup-insert pid pid status w.inner,
      )

  tell_parent-Lives :
      (j pid ppid status : ℕ) (vfork : Bool) (children : Map ℕ) (p : Processes S) (parent : Context)
      → Lives j p.kernel.machine
      → Lives j (tell_parent pid ppid status vfork children p (some parent)).kernel.machine
  unfolding tell_parent
  tell_parent-Lives j pid ppid status vfork children p parent h =
      let m = woken_parent vfork ppid p.kernel.machine in
      let (w, m') = send_all children (waitpid_of ppid p.waitpids) m in
      send_key-Lives j pid status w m' (
        send_all-Lives j children (waitpid_of ppid p.waitpids) m
          (woken_parent-Lives j vfork ppid p.kernel.machine h))

  -- What a parent can learn of a context, and that both are in the list.
  pub record Told (pid ppid status : ℕ) (p : Processes S) : Type 0 where
    pub waiting_status : status_for pid ppid p ≡ some status
    pub child_lives : Lives pid p.kernel.machine
    pub parent_lives : Lives ppid p.kernel.machine

  tell_parent-Told :
      (pid ppid status : ℕ) (vfork : Bool) (children : Map ℕ) (p : Processes S) (o : Option Context)
      → o ≢ none
      → Lives pid p.kernel.machine
      → Lives ppid p.kernel.machine
      → Told pid ppid status (tell_parent pid ppid status vfork children p o)
  tell_parent-Told pid ppid status vfork children p none ne h k = absurd (ne refl)
  tell_parent-Told pid ppid status vfork children p (some parent) ne h k = record {
    waiting_status = tell_parent-status pid ppid status vfork children p parent;
    child_lives = tell_parent-Lives pid pid ppid status vfork children p parent h;
    parent_lives = tell_parent-Lives ppid pid ppid status vfork children p parent k;
  }

  end_context-Told :
      (pid ppid status : ℕ) (c : Context) (p : Processes S)
      → Lives pid p.kernel.machine
      → Lives ppid p.kernel.machine
      → Told pid ppid status (end_context pid ppid status c p)
  unfolding end_context
  end_context-Told pid ppid status c p h k =
      let ended = record c { vfork = false; status = exited status } in
      let later = Later-with_context ended p.kernel in
      let (children, own) = receive_all (waitpid_of pid p.waitpids) in
      tell_parent-Told pid ppid status c.vfork children
        (record p { kernel = with_context ended p.kernel; waitpids = insert pid own p.waitpids })
        (lookup ppid (with_context ended p.kernel).machine.contexts) (later.lives ppid k)
        (later.lives pid h) (later.lives ppid k)

  -- The context `id` runs.
  abbrev pub as_running : ℕ → Processes S → Processes S
  as_running id p = record p {
    kernel = with_machine (record p.kernel.machine { current = id }) p.kernel;
  }

  wait_for-found :
      (pid status : ℕ) (p : Processes S)
      → pid ≢ 0
      → let own = waitpid_of p.kernel.machine.current p.waitpids in
        lookup pid own.inner ≡ some status
        → wait_for pid 0 p
          ≡ answer_later
              (with_own (record own { inner = remove pid own.inner }) p.kernel.machine p)
              (done (pid, status))
  unfolding wait_for
  wait_for-found pid status p ne h =
      let m = p.kernel.machine in
      let own = waitpid_of m.current p.waitpids in
      let zero_not : (pid == 0) ≡ false = ground arith in
      rw (wait_for, zero_not, receive_key-found pid status own m h) refl

  waitpid-running :
      (writable : ℕ → Result (Unit {0})) (pid : ℕ) (p : Processes S)
      → running p.kernel ≢ none
      → waitpid writable pid 0 0 p ≡ wait_for pid 0 p
  unfolding waitpid
  waitpid-running writable pid p h = ground arith

  reap-found :
      (pid : ℕ) (p : Processes S)
      → Lives pid p.kernel.machine
      → ((reap pid p).0 ≡ ok pid) × (lookup pid (reap pid p).1.kernel.machine.contexts ≡ none)
  unfolding reap
  reap-found pid p h =
      (ground arith, ground (arith, lookup-remove pid pid p.kernel.machine.contexts))

  waitpid-Told :
      (writable : ℕ → Result (Unit {0})) (pid ppid status : ℕ) (p : Processes S)
      → pid ≢ 0
      → Told pid ppid status p
      → let (out, stored, p') = waitpid writable pid 0 0 (as_running ppid p) in
        (out ≡ done (ok pid))
        × (stored ≡ some status)
        × (lookup pid p'.kernel.machine.contexts ≡ none)
  unfolding waitpid wait_for reap
  waitpid-Told writable pid ppid status p ne told =
      let q = as_running ppid p in
      let own = waitpid_of ppid p.waitpids in
      let here : waitpid writable pid 0 0 q ≡ _ =
        waitpid-running writable pid q told.parent_lives
        ∙ wait_for-found pid status q ne told.waiting_status in
      let (r, gone) =
        reap-found pid (with_own (record own { inner = remove pid own.inner }) q.kernel.machine q)
          told.child_lives in
      (
        ap (λ (r : Outcome (Result ℕ) × Option ℕ × Processes S). r.0) here ∙ ap done r,
        ap (λ (r : Outcome (Result ℕ) × Option ℕ × Processes S). r.1) here,
        ap
              (λ (r : Outcome (Result ℕ) × Option ℕ × Processes S).
                lookup pid r.2.kernel.machine.contexts)
              here
            ∙ gone,
      )

  module _ (schemes : Schemes S) (leaves : LeavesContexts schemes) where
    closed-Later :
        (alone : Bool) (files : List (Option File)) (k : Kernel S)
        → Later k (if alone then close_all schemes 0 files k else k)
    closed-Later true files k = Later-close_all schemes leaves 0 files k
    closed-Later false files k = record { lives = λ j h. h; current = refl }

    exit_from-Told :
        (alone : Bool) (status : ℕ) (c : Context) (p : Processes S)
        → Lives c.id p.kernel.machine
        → Lives c.ppid p.kernel.machine
        → (p' : Processes S) × (exit_from schemes alone status p (some c) ≡ some p')
          × Told c.id c.ppid status p'
    exit_from-Told alone status c p h k =
        let k1 = with_files c [] p.kernel in
        let k2 = if alone then close_all schemes 0 c.files k1 else k1 in
        let k3 =
          with_machine (record k2.machine { contexts = reparent c.id c.ppid k2.machine.contexts })
            k2 in
        let later =
          Later-trans p.kernel k2 k3
            (Later-trans p.kernel k1 k2 (Later-with_context (record c { files = [] }) p.kernel)
              (closed-Later alone c.files k1))
            (Later-reparent c.id c.ppid k2) in
        (
          end_context c.id c.ppid status (or_else c (running k3)) (record p { kernel = k3 }),
          refl,
          end_context-Told c.id c.ppid status (or_else c (running k3)) (record p { kernel = k3 })
              (later.lives c.id h) (later.lives c.ppid k),
        )

    -- When a context exits whose parent is in the list, the parent's next `waitpid` for it returns at
    -- once, with the number of the context and the status that it exited with, and takes it from the list.
    pub exit-waitpid :
        (writable : ℕ → Result (Unit {0})) (alone : Bool) (status : ℕ) (p : Processes S)
        (c : Context)
        → running p.kernel ≡ some c
        → c.id ≡ p.kernel.machine.current
        → c.id ≢ 0
        → Lives c.ppid p.kernel.machine
        → (p' : Processes S) × (exit schemes alone status p ≡ some p')
          × let (out, stored, p'') = waitpid writable c.id 0 0 (as_running c.ppid p') in
            (out ≡ done (ok c.id))
            × (stored ≡ some status)
            × (lookup c.id p''.kernel.machine.contexts ≡ none)
    unfolding exit
    exit-waitpid writable alone status p c runs own ne parent =
        let here : Lives c.id p.kernel.machine = λ e. absurd (ground (arith, runs, own, e)) in
        let (p', e, told) = exit_from-Told alone status c p here parent in
        (
          p',
          ap (exit_from schemes alone status p) runs ∙ e,
          waitpid-Told writable c.id c.ppid status p' ne told,
        )
