-- ===== src/FileCalls/Quiet.antt =====
-- kernel/syscall/fs.rs: no call stores the event of an open file in the table.

use origel.Base.{
  leb, ◌==◌, Bool-cases, ℕ, ◌≡◌, refl, sym, ap, ◌∙◌, ◌≢◌, inl, inr, Option, none, some, List, arith,
}
use origel.Base.Map.{lookup}
use origel.Syscall.Error.{Result, ok, err}
use origel.SchemeList.{Provider}
use origel.Context.{File, Context}
use origel.Syscall.Scheme.{Packet}
use origel.Syscall.Scheme.Answer.{refused, called, handle-Answers}
use origel.FileCalls.{
  Kernel, Schemes, in_scheme, forget, add, find_file, opened, dup, dup_of, pipe2, add_write_end,
  fevent, fevent_of, register_file, register_found, file_op, op_on, answer, dup_file, fevent_file,
}
use origel.FileCalls.Table.{
  table, file_at, LeavesTables, AddedFile, Removed, Opened, add-AddsTo, AddsTo-Opened,
  table-in_scheme, table-forget_event, file_at-table,
}
use origel.FileCalls.Descriptors.{opened-Opened}

same_event : (f g : File) → some f ≡ some g → f.event ≡ g.event
same_event f g h = ground arith

module _ {ℓ} {S : Type ℓ} where
  -- No file of the running context has an event in the table.
  abbrev pub NoEvents : Kernel S → Type 0
  NoEvents k = (fd : ℕ) (f : File) → file_at fd k ≡ some f → f.event ≡ none

  pub NoEvents-table : (k k' : Kernel S) → table k' ≡ table k → NoEvents k → NoEvents k'
  NoEvents-table k k' t n fd f e = n fd f (sym (file_at-table fd k k' t) ∙ e)

  NoEvents-added :
      (fd : ℕ) (f : File) (k k' : Kernel S)
      → AddedFile fd f k k'
      → f.event ≡ none
      → NoEvents k
      → NoEvents k'
  NoEvents-added fd f k k' a none_yet n j g e = elim (Bool-cases (j == fd)) [
    | inl b ↦
        let same : j ≡ fd = ground arith in
        let here : some g ≡ some f = sym e ∙ ap (λ i. file_at i k') same ∙ a.placed in
        same_event g f here ∙ none_yet
    | inr b ↦ let other : j ≢ fd = ground arith in n j g (sym (a.others j other) ∙ e)
  ]

  pub NoEvents-Removed : (fd : ℕ) (k k' : Kernel S) → Removed fd k k' → NoEvents k → NoEvents k'
  NoEvents-Removed fd k k' r n j g e = elim (Bool-cases (j == fd)) [
    | inl b ↦
        let same : j ≡ fd = ground arith in
        let here : some g ≡ none = sym e ∙ ap (λ i. file_at i k') same ∙ r.emptied in
        absurd (ground arith)
    | inr b ↦ let other : j ≢ fd = ground arith in n j g (sym (r.others j other) ∙ e)
  ]

  pub Opened-NoEvents :
      (k : Kernel S) (r : Result ℕ × Kernel S) → Opened k r → NoEvents k → NoEvents r.1
  Opened-NoEvents k (err e, k') t n = NoEvents-table k k' t n
  Opened-NoEvents k (ok fd, k') (f, none_yet, a) n = NoEvents-added fd f k k' a none_yet n

  add-NoEvents : (scheme number : ℕ) (k : Kernel S) → NoEvents k → NoEvents (add scheme number k).1
  add-NoEvents scheme number k n =
      Opened-NoEvents k (add scheme number k)
        (AddsTo-Opened (record { scheme = scheme; number = number; event = none }) k k
          (add scheme number k) refl refl (add-AddsTo scheme number k))
        n

  in_scheme-NoEvents :
      (o : Option Provider) (k : Kernel S) (r : Result ℕ × Kernel S)
      → NoEvents k
      → NoEvents r.1
      → NoEvents (in_scheme o k r).1
  in_scheme-NoEvents none k r n m = n
  in_scheme-NoEvents (some p) k r n m = m

  module _ (schemes : Schemes S) (leaves : LeavesTables schemes) where
    table-register_found :
        (fd : ℕ) (f : File) (event : ℕ) (k : Kernel S) (r : Result (Context × File))
        → table (register_found schemes fd f event k r).1 ≡ table k
    table-register_found fd f event k (err e) = refl
    table-register_found fd f event k (ok _) = refl

    table-register_file :
        (fd : ℕ) (f : File) (r : Result ℕ × Kernel S)
        → table (register_file schemes fd f r).1 ≡ table r.1
    table-register_file fd f (err e, k) = refl
    table-register_file fd f (ok event, k) = table-register_found fd f event k (find_file fd k)

    table-fevent_of :
        (fd flags : ℕ) (k : Kernel S) (r : Result (Context × File))
        → table (fevent_of schemes fd flags k r).1 ≡ table k
    table-fevent_of fd flags k (err e) = refl
    table-fevent_of fd flags k (ok (_, f)) =
        let k' = forget fd f k in
        let request = fevent_file f.number flags in
        let r = schemes.request f.scheme request k' in
        table-in_scheme (lookup f.scheme k'.schemes.map) k' (register_file schemes fd f r)
          (table-register_file fd f r ∙ leaves.request_table f.scheme request k')
        ∙ table-forget_event fd f.scheme f.event k

    -- `fevent` does not change the table of files, which is where `close` looks for the event.
    pub table-fevent : (fd flags : ℕ) (k : Kernel S) → table (fevent schemes fd flags k).1 ≡ table k
    unfolding fevent
    table-fevent fd flags k = table-fevent_of fd flags k (find_file fd k)

    dup_of-NoEvents :
        (buf : List ℕ) (k : Kernel S) (r : Result (Context × File))
        → NoEvents k
        → NoEvents (dup_of schemes buf k r).1
    dup_of-NoEvents buf k (err e) n = n
    dup_of-NoEvents buf k (ok (_, f)) n =
        let request = dup_file f.number buf in
        let r = opened schemes f.scheme (schemes.request f.scheme request k) in
        in_scheme-NoEvents (lookup f.scheme k.schemes.map) k r n (
          Opened-NoEvents k r
            (opened-Opened schemes leaves f.scheme (schemes.request f.scheme request k) k
              (leaves.request_table f.scheme request k))
            n)

    pub dup-NoEvents :
        (fd : ℕ) (buf : List ℕ) (k : Kernel S) → NoEvents k → NoEvents (dup schemes fd buf k).1
    unfolding dup
    dup-NoEvents fd buf k n = dup_of-NoEvents buf k (find_file fd k) n

    add_write_end-NoEvents :
        (write_id : ℕ) (r : Result ℕ × Kernel S)
        → NoEvents r.1
        → NoEvents (add_write_end schemes write_id r).1
    add_write_end-NoEvents write_id (err e, k) n = n
    add_write_end-NoEvents write_id (ok fd, k) n = add-NoEvents schemes.pipe_scheme_id write_id k n

    pub pipe2-NoEvents :
        (n flags : ℕ) (k : Kernel S) → NoEvents k → NoEvents (pipe2 schemes n flags k).1
    unfolding pipe2
    pipe2-NoEvents n flags k h =
        let ((read_id, write_id), k') = schemes.pipe flags k in
        let both = add_write_end-NoEvents write_id (add schemes.pipe_scheme_id read_id k') (
          add-NoEvents schemes.pipe_scheme_id read_id k'
            (NoEvents-table k k' (leaves.pipe_table flags k) h)) in
        elim (Bool-cases (leb 2 n)) [ inl e ↦ rw e both | inr e ↦ rw e h ]

    table-answer :
        (a c d : ℕ) (context : Context) (f : File) (k : Kernel S)
        → table (answer schemes a c d context f k).1 ≡ table k
    unfolding answer
    table-answer a c d context f k = elim (handle-Answers (schemes.call f.scheme) _ k) [
      | refused e _ _ h ↦ ap (λ (r : Packet × Kernel S). table r.1) h
      | called call _ _ _ h ↦
          ap (λ (r : Packet × Kernel S). table r.1) h ∙ leaves.call_table f.scheme call k
    ]

    table-op_on :
        (a c d : ℕ) (k : Kernel S) (r : Result (Context × File))
        → table (op_on schemes a c d k r).1 ≡ table k
    table-op_on a c d k (err e) = refl
    table-op_on a c d k (ok (context, f)) =
        table-in_scheme (lookup f.scheme k.schemes.map) k (answer schemes a c d context f k)
          (table-answer a c d context f k)

    pub table-file_op :
        (a fd c d : ℕ) (k : Kernel S) → table (file_op schemes a fd c d k).1 ≡ table k
    unfolding file_op
    table-file_op a fd c d k = table-op_on a c d k (find_file fd k)
