-- ===== src/FileCalls/Descriptors.antt =====
-- kernel/syscall/fs.rs: what `open` and `close` do to the table of the open files of the running context.
use origel.Base.{
  ◌==◌, Bool-cases, ℕ, ◌≡◌, refl, sym, ap, ◌∙◌, ◌≢◌, inl, inr, Option, none, some, List, arith,
}
use mathlib.Core.Path.{subst}
use origel.Base.Map.{lookup}
use origel.Syscall.Error.{Result, ok, err}
use origel.Context.{File, Context, remove_file}
use origel.FileCalls.{
  Kernel, Schemes, returns, Target, at, fails, crashes, running, with_files, forget, add, resolve,
  open_file, opened, open_at, close, close_removed, close_from, close_in_scheme, open_path,
  close_file,
}
use origel.FileCalls.Table.{
  table, table_of, file_in, file_at, LeavesTables, Removed, Removed-table, Removed-with_files,
  add-AddsTo, AddsTo-Opened, Opened, Opens, table-forget_event, table-in_scheme,
}

module _ {ℓ} {S : Type ℓ} where
  module _ (schemes : Schemes S) (leaves : LeavesTables schemes) where
    table-close_in_scheme :
        (f : File) (k : Kernel S) → table (close_in_scheme schemes f k).1 ≡ table k
    unfolding close_in_scheme
    table-close_in_scheme f k =
        table-in_scheme (lookup f.scheme k.schemes.map) k
          (schemes.request f.scheme (close_file f.number) k)
          (leaves.request_table f.scheme (close_file f.number) k)

    table-close_removed :
        (fd : ℕ) (o : Option File) (k : Kernel S) → table (close_removed schemes fd o k).1 ≡ table k
    table-close_removed fd none k = refl
    table-close_removed fd (some f) k =
        table-close_in_scheme f (forget fd f k) ∙ table-forget_event fd f.scheme f.event k

    close_from-Removed :
        (fd : ℕ) (k : Kernel S) (o : Option Context)
        → running k ≡ o
        → Removed fd k (close_from schemes fd k o).1
    close_from-Removed fd k none e = record {
      emptied = ap (λ o. file_in fd (table_of o)) e;
      others = λ j ne. refl;
    }
    close_from-Removed fd k (some c) e =
        let (file, files) = remove_file fd c.files in
        let k' = with_files c files k in
        Removed-table fd k k' (close_removed schemes fd file k').1 (Removed-with_files fd c k e)
          (table-close_removed fd file k')

    -- `close` empties its descriptor and leaves the others.
    pub close-Removed : (fd : ℕ) (k : Kernel S) → Removed fd k (close schemes fd k).1
    unfolding close
    close-Removed fd k = close_from-Removed fd k (running k) refl

    pub opened-Opened :
        (scheme : ℕ) (r : Result ℕ × Kernel S) (k : Kernel S)
        → table r.1 ≡ table k
        → Opened k (opened schemes scheme r)
    opened-Opened scheme (err e, k') k t = t
    opened-Opened scheme (ok number, k') k t =
        AddsTo-Opened (record { scheme = scheme; number = number; event = none }) k k'
          (add scheme number k') refl t (add-AddsTo scheme number k')

    open_at-Opens : (flags : ℕ) (k : Kernel S) (t : Target) → Opens k (open_at schemes flags k t)
    open_at-Opens flags k crashes = tt
    open_at-Opens flags k (fails e) = refl
    open_at-Opens flags k (at scheme reference uid gid) =
        let r = schemes.request scheme (open_path reference flags uid gid) k in
        opened-Opened scheme r k (leaves.request_table scheme (open_path reference flags uid gid) k)

    pub open_file-Opens :
        (path : List ℕ) (flags : ℕ) (k : Kernel S) → Opens k (open_file schemes path flags k)
    unfolding open_file
    open_file-Opens path flags k = open_at-Opens flags k (resolve path k)

    -- A file that `open` has opened has a descriptor that was free. Once it is closed again, every
    -- descriptor stands for what it stood for before.
    pub open-close :
        (path : List ℕ) (flags fd : ℕ) (k k' : Kernel S)
        → open_file schemes path flags k ≡ returns (ok fd) k'
        → (file_at fd k ≡ none)
          × (file_at fd k' ≢ none)
          × ((j : ℕ) → file_at j (close schemes fd k').1 ≡ file_at j k)
    open-close path flags fd k k' h =
        let (f, _, a) = subst (Opens k) h (open_file-Opens path flags k) in
        let r = close-Removed fd k' in
        (
          a.was_free,
          λ n. absurd (ground (arith, a.placed)),
          λ j. elim (Bool-cases (j == fd)) [
            | inl e ↦
                let same : j ≡ fd = ground arith in
                subst (λ i. file_at i (close schemes fd k').1 ≡ file_at i k) (sym same)
                  (r.emptied ∙ sym a.was_free)
            | inr e ↦ let other : j ≢ fd = ground arith in r.others j other ∙ a.others j other
          ],
        )
