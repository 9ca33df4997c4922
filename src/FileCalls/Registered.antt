-- ===== src/FileCalls/Registered.antt =====
-- kernel/syscall/fs.rs: the events of open files. No call stores one in the table, so that `close`,
-- which looks for it there, finds none.
use origel.Base.{ℕ, ◌≡◌, refl, sym, ap, ◌∙◌, Option, none, some, List, [], ◌∷◌, arith}
use origel.Base.Map.{lookup}
use origel.Syscall.Error.{Result}
use origel.SchemeList.{Provider}
use origel.Context.{File, Context, remove_file}
use origel.Context.Table.{remove_file_lem}
use origel.FileCalls.{
  Kernel, Schemes, Ended, returns, panics, running, in_scheme, with_files, forget, forget_event,
  open_file, close, close_removed, close_from, close_in_scheme, dup, pipe2, fevent, file_op,
  close_file,
}
use origel.FileCalls.Table.{table_of, file_in, LeavesTables, Opens}
use origel.FileCalls.Descriptors.{open_file-Opens, close-Removed}
use origel.FileCalls.Quiet.{
  NoEvents, NoEvents-table, NoEvents-Removed, Opened-NoEvents, table-fevent, dup-NoEvents,
  pipe2-NoEvents, table-file_op,
}

-- A call on files.
pub data FileCall : Type 0 where
  opens : List ℕ → ℕ → FileCall
  closes : ℕ → FileCall
  dups : ℕ → List ℕ → FileCall
  fevents : (fd flags : ℕ) → FileCall
  pipes : (n flags : ℕ) → FileCall
  operates : (a fd c d : ℕ) → FileCall

module _ {ℓ} {S : Type ℓ} (schemes : Schemes S) where
  abbrev after : Kernel S → Ended S → Kernel S
  after k panics = k
  after k (returns r k') = k'

  -- One call, and a history of calls; a call that panics leaves the state.
  pub step : FileCall → Kernel S → Kernel S
  step (opens path flags) k = after k (open_file schemes path flags k)
  step (closes fd) k = (close schemes fd k).1
  step (dups fd buf) k = (dup schemes fd buf k).1
  step (fevents fd flags) k = (fevent schemes fd flags k).1
  step (pipes n flags) k = (pipe2 schemes n flags k).1
  step (operates a fd c d) k = (file_op schemes a fd c d k).1

  pub run : List FileCall → Kernel S → Kernel S
  unfolding step
  run [] k = k
  run (c ∷ cs) k = run cs (step c k)

  module _ (leaves : LeavesTables schemes) where
    after-NoEvents : (k : Kernel S) (r : Ended S) → Opens k r → NoEvents k → NoEvents (after k r)
    after-NoEvents k panics o n = n
    after-NoEvents k (returns r k') o n = Opened-NoEvents k (r, k') o n

    step-NoEvents : (c : FileCall) (k : Kernel S) → NoEvents k → NoEvents (step c k)
    unfolding step
    step-NoEvents (opens path flags) k n =
        after-NoEvents k (open_file schemes path flags k)
          (open_file-Opens schemes leaves path flags k) n
    step-NoEvents (closes fd) k n =
        NoEvents-Removed fd k (close schemes fd k).1 (close-Removed schemes leaves fd k) n
    step-NoEvents (dups fd buf) k n = dup-NoEvents schemes leaves fd buf k n
    step-NoEvents (fevents fd flags) k n =
        NoEvents-table k (fevent schemes fd flags k).1 (table-fevent schemes leaves fd flags k) n
    step-NoEvents (pipes m flags) k n = pipe2-NoEvents schemes leaves m flags k n
    step-NoEvents (operates a fd c d) k n =
        NoEvents-table k (file_op schemes a fd c d k).1 (table-file_op schemes leaves a fd c d k) n

    run-NoEvents : (cs : List FileCall) (k : Kernel S) → NoEvents k → NoEvents (run cs k)
    unfolding run
    run-NoEvents [] k n = n
    run-NoEvents (c ∷ cs) k n = run-NoEvents cs (step c k) (step-NoEvents c k n)

    registry-in_scheme :
        (o : Option Provider) (k : Kernel S) (r : Result ℕ × Kernel S)
        → r.1.registry ≡ k.registry
        → (in_scheme o k r).1.registry ≡ k.registry
    registry-in_scheme none k r e = refl
    registry-in_scheme (some p) k r e = e

    registry-close_in_scheme :
        (f : File) (k : Kernel S) → (close_in_scheme schemes f k).1.registry ≡ k.registry
    unfolding close_in_scheme
    registry-close_in_scheme f k =
        let request = close_file f.number in
        registry-in_scheme (lookup f.scheme k.schemes.map) k (schemes.request f.scheme request k)
          (leaves.request_registry f.scheme request k)

    registry-forget_event :
        (fd scheme : ℕ) (o : Option ℕ) (k : Kernel S)
        → o ≡ none
        → (forget_event fd scheme o k).registry ≡ k.registry
    registry-forget_event fd scheme none k e = refl
    registry-forget_event fd scheme (some event) k e = absurd (ground arith)

    registry-close_removed :
        (fd : ℕ) (o : Option File) (k : Kernel S)
        → ((f : File) → o ≡ some f → f.event ≡ none)
        → (close_removed schemes fd o k).1.registry ≡ k.registry
    registry-close_removed fd none k h = refl
    registry-close_removed fd (some f) k h =
        registry-close_in_scheme f (forget fd f k)
        ∙ registry-forget_event fd f.scheme f.event k (h f refl)

    registry-close_from :
        (fd : ℕ) (k : Kernel S) (o : Option Context)
        → running k ≡ o
        → NoEvents k
        → (close_from schemes fd k o).1.registry ≡ k.registry
    registry-close_from fd k none e n = refl
    registry-close_from fd k (some c) e n =
        let (file, files) = remove_file fd c.files in
        registry-close_removed fd file (with_files c files k) (λ f h.
          n fd f (ap (λ o. file_in fd (table_of o)) e ∙ sym (remove_file_lem fd c.files).0 ∙ h))

    -- After any history of calls on files by a context that begins with no event in its table, `close`
    -- takes no registration away, of whatever descriptor: a file that `fevent` has registered stays
    -- registered after it is closed.
    pub close-registry :
        (cs : List FileCall) (fd : ℕ) (k : Kernel S)
        → NoEvents k
        → let k' = run cs k in (close schemes fd k').1.registry ≡ k'.registry
    unfolding close
    close-registry cs fd k n =
        let k' = run cs k in registry-close_from fd k' (running k') refl (run-NoEvents cs k n)
