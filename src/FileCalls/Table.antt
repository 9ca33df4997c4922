-- ===== src/FileCalls/Table.antt =====
-- kernel/syscall/fs.rs: the table of the open files of the running context, and the steps of the calls that write it.
use origel.Base.{ℕ, ◌≡◌, refl, sym, ap, ◌∙◌, ◌≢◌, Option, none, some, List, arith}
use origel.Base.Map.{lookup-insert}
use origel.Syscall.Error.{Result, ok, err}
use origel.Context.{File, Context, add_file, get_file, remove_file}
use origel.Context.Table.{Adds, add_file-Adds, remove_file_lem}
use origel.Syscall.Scheme as Scheme
use origel.SchemeList.{Provider}
use origel.FileCalls.{
  Kernel, Request, Schemes, placed_in, in_scheme, add_from, Ended, returns, panics, running,
  with_files, forget_event, add,
}

abbrev pub table_of : Option Context → Option (List (Option File))
table_of none = none
table_of (some c) = some c.files

-- The open file of a descriptor in a table.
abbrev pub file_in : ℕ → Option (List (Option File)) → Option File
file_in fd none = none
file_in fd (some files) = get_file fd files

module _ {ℓ} {S : Type ℓ} where
  -- The running context's table of files.
  abbrev pub table : Kernel S → Option (List (Option File))
  table k = table_of (running k)

  abbrev pub file_at : ℕ → Kernel S → Option File
  file_at fd k = file_in fd (table k)

  -- The schemes leave the table of the context that calls them and the registry of events alone: only
  -- the calls of fs.rs write these.
  pub record LeavesTables (schemes : Schemes S) : Type ℓ where
    pub request_table :
        (id : ℕ) (r : Request) (k : Kernel S) → table (schemes.request id r k).1 ≡ table k
    pub call_table :
        (id : ℕ) (c : Scheme.Call) (k : Kernel S) → table (schemes.call id c k).1 ≡ table k
    pub pipe_table : (flags : ℕ) (k : Kernel S) → table (schemes.pipe flags k).1 ≡ table k
    pub request_registry :
        (id : ℕ) (r : Request) (k : Kernel S) → (schemes.request id r k).1.registry ≡ k.registry

  -- The file that a call adds to the table.
  pub record AddedFile (fd : ℕ) (f : File) (k k' : Kernel S) : Type 0 where
    pub placed : file_at fd k' ≡ some f
    pub was_free : file_at fd k ≡ none
    pub others : (j : ℕ) → j ≢ fd → file_at j k' ≡ file_at j k

  pub table-with_files :
      (c : Context) (files : List (Option File)) (k : Kernel S)
      → table (with_files c files k) ≡ some files
  table-with_files c files k = ground (
    arith,
    lookup-insert k.machine.current k.machine.current (record c { files = files })
        k.machine.contexts,
  )

  pub file_at-table : (fd : ℕ) (k k' : Kernel S) → table k' ≡ table k → file_at fd k' ≡ file_at fd k
  file_at-table fd k k' e = ap (file_in fd) e

  file_at-with_files :
      (fd : ℕ) (c : Context) (files : List (Option File)) (k : Kernel S)
      → file_at fd (with_files c files k) ≡ get_file fd files
  file_at-with_files fd c files k = ap (file_in fd) (table-with_files c files k)

  file_at-running :
      (fd : ℕ) (c : Context) (k : Kernel S)
      → running k ≡ some c
      → file_at fd k ≡ get_file fd c.files
  file_at-running fd c k e = ap (λ o. file_in fd (table_of o)) e

  -- What has become of the table when `add` returns.
  abbrev pub AddsTo : File → Kernel S → Result ℕ × Kernel S → Type 0
  AddsTo f k (err e, k') = table k' ≡ table k
  AddsTo f k (ok fd, k') = AddedFile fd f k k'

  placed_in-AddsTo :
      (f : File) (c : Context) (k : Kernel S) (o : Option (ℕ × List (Option File)))
      → running k ≡ some c
      → Adds f c.files o
      → AddsTo f k (placed_in c k o)
  placed_in-AddsTo f c k none e a = refl
  placed_in-AddsTo f c k (some (fd, files)) e a =
      let after = λ (j : ℕ). file_at-with_files j c files k in
      let before = λ (j : ℕ). file_at-running j c k e in
      record {
        placed = after fd ∙ a.placed;
        was_free = before fd ∙ a.was_free;
        others = λ j ne. after j ∙ a.others j ne ∙ sym (before j);
      }

  add_from-AddsTo :
      (f : File) (k : Kernel S) (o : Option Context) → running k ≡ o → AddsTo f k (add_from f k o)
  add_from-AddsTo f k none e = refl
  add_from-AddsTo f k (some c) e =
      placed_in-AddsTo f c k (add_file f c.files) e (add_file-Adds f c.files)

  -- `add` gives out a free descriptor, or changes nothing.
  pub add-AddsTo :
      (scheme number : ℕ) (k : Kernel S)
      → AddsTo (record { scheme = scheme; number = number; event = none }) k (add scheme number k)
  unfolding add
  add-AddsTo scheme number k =
      add_from-AddsTo (record { scheme = scheme; number = number; event = none }) k (running k) refl

  -- What becomes of the descriptor that a call closes.
  pub record Removed (fd : ℕ) (k k' : Kernel S) : Type 0 where
    pub emptied : file_at fd k' ≡ none
    pub others : (j : ℕ) → j ≢ fd → file_at j k' ≡ file_at j k

  pub Removed-table :
      (fd : ℕ) (k k' k'' : Kernel S) → Removed fd k k' → table k'' ≡ table k' → Removed fd k k''
  Removed-table fd k k' k'' r e = record {
    emptied = file_at-table fd k' k'' e ∙ r.emptied;
    others = λ j ne. file_at-table j k' k'' e ∙ r.others j ne;
  }

  pub Removed-with_files :
      (fd : ℕ) (c : Context) (k : Kernel S)
      → running k ≡ some c
      → Removed fd k (with_files c (remove_file fd c.files).1 k)
  Removed-with_files fd c k e =
      let files = (remove_file fd c.files).1 in
      let (_, emptied, others) = remove_file_lem fd c.files in
      record {
        emptied = file_at-with_files fd c files k ∙ emptied;
        others =
            λ j ne. file_at-with_files j c files k ∙ others j ne ∙ sym (file_at-running j c k e);
      }

  pub table-forget_event :
      (fd scheme : ℕ) (o : Option ℕ) (k : Kernel S) → table (forget_event fd scheme o k) ≡ table k
  table-forget_event fd scheme none k = refl
  table-forget_event fd scheme (some event) k = refl

  pub table-in_scheme :
      (o : Option Provider) (k : Kernel S) (r : Result ℕ × Kernel S)
      → table r.1 ≡ table k
      → table (in_scheme o k r).1 ≡ table k
  table-in_scheme none k r t = refl
  table-in_scheme (some p) k r t = t

  -- What has become of the table when a call returns that opens a file of a scheme.
  abbrev pub Opened : Kernel S → Result ℕ × Kernel S → Type 0
  Opened k (err e, k') = table k' ≡ table k
  Opened k (ok fd, k') = (f : File) × (f.event ≡ none) × AddedFile fd f k k'

  abbrev pub Opens : Kernel S → Ended S → Type 0
  Opens k panics = Unit
  Opens k (returns r k') = Opened k (r, k')

  pub AddsTo-Opened :
      (f : File) (k k' : Kernel S) (r : Result ℕ × Kernel S)
      → f.event ≡ none
      → table k' ≡ table k
      → AddsTo f k' r
      → Opened k r
  AddsTo-Opened f k k' (err e, k'') n t a = a ∙ t
  AddsTo-Opened f k k' (ok fd, k'') n t a = (
    f,
    n,
    record {
      placed = a.placed;
      was_free = sym (file_at-table fd k k' t) ∙ a.was_free;
      others = λ j ne. a.others j ne ∙ file_at-table j k k' t;
    },
  )
