-- ===== src/Process/Alive.antt =====
-- kernel/syscall/process.rs: `exit` removes no context from the list.

use origel.Base.{
  ◌==◌, if◌then◌else◌, ℕ, suc, ◌≡◌, refl, sym, ap, ◌∙◌, ◌≢◌, Bool, true, false, Option, none, some,
  List, [], ◌∷◌, arith,
}
use origel.Base.Map.{Map, lookup, insert, lookup-insert}
use origel.Syscall.Error.{Result}
use origel.Context.{Context, File}
use origel.Context.Machine.{Machine}
use origel.Context.Machine.Wake.{woken?, lookup-unblock_context}
use origel.Sync.{WaitMap, send_key}
use origel.Sync.Wake.{notify_lem, mem}
use origel.Sync.Keyed.{machine-send_key}
use origel.SchemeList.{Provider}
use origel.FileCalls.{
  Kernel, Schemes, Request, with_context, forget, forget_event, in_scheme, close_in_scheme,
  close_file,
}
use origel.Process.{with_machine, close_all, reparent, send_all, woken_parent}

abbrev pub Lives : ℕ → Machine → Type 0
Lives id m = lookup id m.contexts ≢ none

woken?-Lives : (b : Bool) (o : Option Context) → o ≢ none → (if b then woken? o else o) ≢ none
woken?-Lives true none h e = h refl
woken?-Lives true (some c) h e = ground arith
woken?-Lives false o h e = h e

insert-Lives :
    (id j : ℕ) (c : Context) (m : Map Context) → lookup j m ≢ none → lookup j (insert id c m) ≢ none
insert-Lives id j c m h e = ground (arith, lookup-insert id j c m)

pub send_key-Lives :
    (j k v : ℕ) (w : WaitMap ℕ) (m : Machine) → Lives j m → Lives j (send_key k v w m).1
send_key-Lives j k v w m h e = woken?-Lives (mem j w.condition) (lookup j m.contexts) h (
    sym ((notify_lem w.condition m).2 j)
    ∙ ap (λ (m : Machine). lookup j m.contexts) (sym (machine-send_key k v w m))
    ∙ e)

pub send_all-Lives :
    (j : ℕ) (children : Map ℕ) (w : WaitMap ℕ) (m : Machine)
    → Lives j m
    → Lives j (send_all children w m).1
unfolding send_all
send_all-Lives j [] w m h = h
send_all-Lives j ((k, v) ∷ rest) w m h =
    let (w', m') = send_key k v w m in send_all-Lives j rest w' m' (send_key-Lives j k v w m h)

pub woken_parent-Lives :
    (j : ℕ) (vfork : Bool) (ppid : ℕ) (m : Machine)
    → Lives j m
    → Lives j (woken_parent vfork ppid m)
woken_parent-Lives j true ppid m h e =
    woken?-Lives (j == ppid) (lookup j m.contexts) h (sym (lookup-unblock_context j ppid m) ∙ e)
woken_parent-Lives j false ppid m h e = h e

reparent-Lives :
    (j pid ppid : ℕ) (m : Map Context) → lookup j m ≢ none → lookup j (reparent pid ppid m) ≢ none
unfolding reparent lookup
reparent-Lives j pid ppid [] h e = h refl
reparent-Lives j pid ppid ((id, c) ∷ m) h e = ground (arith, reparent-Lives j pid ppid m)

module _ {ℓ} {S : Type ℓ} where
  -- The schemes neither end contexts nor change the one that runs.
  pub record LeavesContexts (schemes : Schemes S) : Type ℓ where
    pub request_lives :
        (j id : ℕ) (r : Request) (k : Kernel S)
        → Lives j k.machine
        → Lives j (schemes.request id r k).1.machine
    pub request_current :
        (id : ℕ) (r : Request) (k : Kernel S)
        → (schemes.request id r k).1.machine.current ≡ k.machine.current

  -- A kernel in which the contexts of another one live, with the same one running.
  pub record Later (k k' : Kernel S) : Type 0 where
    pub lives : (j : ℕ) → Lives j k.machine → Lives j k'.machine
    pub current : k'.machine.current ≡ k.machine.current

  pub Later-trans : (a b c : Kernel S) → Later a b → Later b c → Later a c
  Later-trans a b c h k = record {
    lives = λ j l. k.lives j (h.lives j l);
    current = k.current ∙ h.current;
  }

  pub Later-with_context : (c : Context) (k : Kernel S) → Later k (with_context c k)
  Later-with_context c k = record {
    lives = λ j. insert-Lives k.machine.current j c k.machine.contexts;
    current = refl;
  }

  pub Later-reparent :
      (pid ppid : ℕ) (k : Kernel S)
      → Later k
          (with_machine (record k.machine { contexts = reparent pid ppid k.machine.contexts }) k)
  Later-reparent pid ppid k = record {
    lives = λ j. reparent-Lives j pid ppid k.machine.contexts;
    current = refl;
  }

  module _ (schemes : Schemes S) (leaves : LeavesContexts schemes) where
    Later-request : (id : ℕ) (r : Request) (k : Kernel S) → Later k (schemes.request id r k).1
    Later-request id r k = record {
      lives = λ j. leaves.request_lives j id r k;
      current = leaves.request_current id r k;
    }

    Later-in_scheme :
        (o : Option Provider) (k : Kernel S) (r : Result ℕ × Kernel S)
        → Later k r.1
        → Later k (in_scheme o k r).1
    Later-in_scheme none k r l = record { lives = λ j h. h; current = refl }
    Later-in_scheme (some p) k r l = l

    Later-forget_event :
        (fd scheme : ℕ) (o : Option ℕ) (k : Kernel S) → Later k (forget_event fd scheme o k)
    Later-forget_event fd scheme none k = record { lives = λ j h. h; current = refl }
    Later-forget_event fd scheme (some event) k = record { lives = λ j h. h; current = refl }

    Later-close_in_scheme : (f : File) (k : Kernel S) → Later k (close_in_scheme schemes f k).1
    unfolding close_in_scheme
    Later-close_in_scheme f k =
        let request = close_file f.number in
        Later-in_scheme (lookup f.scheme k.schemes.map) k (schemes.request f.scheme request k)
          (Later-request f.scheme request k)

    pub Later-close_all :
        (fd : ℕ) (files : List (Option File)) (k : Kernel S)
        → Later k (close_all schemes fd files k)
    unfolding close_all
    Later-close_all fd [] k = record { lives = λ j h. h; current = refl }
    Later-close_all fd (none ∷ fs) k = Later-close_all (suc fd) fs k
    Later-close_all fd (some f ∷ fs) k =
        let k' = forget fd f k in
        let k'' = (close_in_scheme schemes f k').1 in
        Later-trans k k'' (close_all schemes (suc fd) fs k'')
          (Later-trans k k' k'' (Later-forget_event fd f.scheme f.event k)
            (Later-close_in_scheme f k'))
          (Later-close_all (suc fd) fs k'')
