-- ===== src/Sync/Queue.antt =====
-- kernel/sync/wait_queue.rs: entries leave the queue in the order in which they came.
use mathlib.Core.List.{append_assoc, append-nil}
use origel.Base.{
  ltb, Bool-cases, take, drop, take-append-drop, ℕ, zero, suc, ◌-◌, ◌≡◌, refl, ap, ◌⊎◌, inl, inr,
  Bool, ◌&&◌, Option, none, some, List, [], ◌∷◌, ◌++◌, arith,
}
use origel.Context.Machine.{Machine}
use origel.Sync.{
  Outcome, done, sleeps, panics, wait, notify, WaitQueue, asleep, drain, receive, receive_rest,
  receive_first, receive_into, send, send_from,
}

pub drain_lem {ℓ} : {A : Type ℓ} (n : ℕ) (q : List A) → drain n q ≡ (take n q, drop n q)
unfolding drain
drain_lem zero q = refl
drain_lem (suc n) [] = refl
drain_lem (suc n) (x ∷ q) = rw (drain_lem n q)

-- What a call hands out.
abbrev pub got {ℓ} : {A : Type ℓ} → Outcome (List A) → List A
got (done xs) = xs
got sleeps = []
got panics = []

-- A call on the queue: `send_from` (and `send`), `receive`, or `receive_into` for a buffer.
pub data Call {ℓ} (A : Type ℓ) : Type ℓ where
  sends : List A → Call A
  receives : Call A
  reads : ℕ → Bool → Call A

abbrev single {ℓ} : {A : Type ℓ} → Outcome A → Outcome (List A)
single (done x) = done (x ∷ [])
single sleeps = sleeps
single panics = panics

module _ {ℓ} {A : Type ℓ} where
  -- One call: what it puts in, what it hands out, and the state after it.
  pub step : Call A → WaitQueue A → Machine → List A × List A × WaitQueue A × Machine
  step (sends buf) q m = let (_, q', m') = send_from buf q m in (buf, [], q', m')
  step receives q m = let (out, q', m') = receive q m in ([], got (single out), q', m')
  step (reads n block) q m = let (out, q', m') = receive_into n block q m in ([], got out, q', m')

  -- A history of calls: all that was put in, all that was handed out, and the last state.
  pub run : List (Call A) → WaitQueue A → Machine → List A × List A × WaitQueue A × Machine
  run [] q m = ([], [], q, m)
  run (c ∷ cs) q m =
      let (ins, outs, q', m') = step c q m in
      let (ins', outs', q'', m'') = run cs q' m' in (ins ++ ins', outs ++ outs', q'', m'')

  -- Nobody waits on a queue that holds an entry.
  abbrev pub IsQuiet : WaitQueue A → Type ℓ
  IsQuiet q = (q.condition ≡ []) ⊎ (q.inner ≡ [])

  abbrev queue : List A → List ℕ → WaitQueue A
  queue inner waiting = record { inner = inner; condition = waiting }

  abbrev Keeps : List A → List A → WaitQueue A → WaitQueue A → Type ℓ
  Keeps ins outs q q' = (outs ++ q'.inner ≡ q.inner ++ ins) × (IsQuiet q → IsQuiet q')

  asleep-Keeps :
      (waiting : List ℕ) (o : Option (List ℕ × Machine)) (m : Machine)
      → let q = queue [] waiting in
        let (out, q', m') = asleep {A = A} q (λ w. record q { condition = w }) o m in
        Keeps [] (got (single out)) q q'
  asleep-Keeps waiting none m = (refl, λ h. h)
  asleep-Keeps waiting (some r) m = (refl, λ h. inr refl)

  receive-Keeps :
      (inner : List A) (waiting : List ℕ) (m : Machine)
      → let q = queue inner waiting in
        let (out, q', m') = receive q m in Keeps [] (got (single out)) q q'
  unfolding receive
  receive-Keeps [] waiting m = asleep-Keeps waiting (wait waiting m) m
  receive-Keeps (x ∷ rest) waiting m = (rw append-nil, λ h. ground arith)

  drop_quiet : (n : ℕ) (inner : List A) → inner ≡ [] → drop n inner ≡ []
  drop_quiet zero inner e = e
  drop_quiet (suc n) [] e = refl
  drop_quiet (suc n) (x ∷ xs) e = cc

  drain-Keeps :
      (n : ℕ) (inner : List A) (waiting : List ℕ)
      → let (out, rest) = drain n inner in Keeps [] out (queue inner waiting) (queue rest waiting)
  drain-Keeps n inner waiting =
      rw (drain_lem n inner)
        (rw (append-nil, take-append-drop), λ h. ground (arith, drop_quiet n inner))

  asleep-first :
      (n : ℕ) (waiting : List ℕ) (o : Option (List ℕ × Machine)) (m : Machine)
      → wait waiting m ≡ o
      → let (out, q', m') = receive_first n (queue [] waiting) m in
        Keeps [] (got out) (queue [] waiting) q'
  unfolding receive_first receive
  asleep-first n waiting o m e = (ground arith, λ h. ground arith)

  receive_first-Keeps :
      (n : ℕ) (inner : List A) (waiting : List ℕ) (m : Machine)
      → let (out, q', m') = receive_first n (queue inner waiting) m in
        Keeps [] (got out) (queue inner waiting) q'
  unfolding receive_first receive
  receive_first-Keeps n [] waiting m = asleep-first n waiting (wait waiting m) m refl
  receive_first-Keeps n (x ∷ rest) waiting m =
      let (kept, quiet) = drain-Keeps (n - 1) rest waiting in
      (ap (◌∷◌ x) kept, λ h. quiet (ground arith))

  receive_into-Keeps :
      (n : ℕ) (block : Bool) (q : WaitQueue A) (m : Machine)
      → let (out, q', m') = receive_into n block q m in Keeps [] (got out) q q'
  unfolding receive_into receive_rest
  receive_into-Keeps n block q m = elim (Bool-cases (ltb 0 n && block)) [
    | inl e ↦ rw e (receive_first-Keeps n q.inner q.condition m)
    | inr e ↦ rw e (drain-Keeps n q.inner q.condition)
  ]

  step-Keeps :
      (c : Call A) (q : WaitQueue A) (m : Machine)
      → let (ins, outs, q', m') = step c q m in Keeps ins outs q q'
  unfolding step send_from notify
  step-Keeps (sends buf) q m = (refl, λ h. inl refl)
  step-Keeps receives q m = receive-Keeps q.inner q.condition m
  step-Keeps (reads n block) q m = receive_into-Keeps n block q m

  -- After any history of calls: what was handed out, and then what is left in the queue, is what
  -- the queue held at first, and then all that was sent, in that order.
  pub queue_fifo :
      (cs : List (Call A)) (q : WaitQueue A) (m : Machine)
      → let (ins, outs, q', m') = run cs q m in outs ++ q'.inner ≡ q.inner ++ ins
  unfolding run
  queue_fifo [] q m = rw append-nil
  queue_fifo (c ∷ cs) q m =
      let (_, _, q', m') = step c q m in
      rw (append_assoc, queue_fifo cs q' m', ← append_assoc, (step-Keeps c q m).0) (rw append_assoc)

  -- If nobody waits on a queue that holds an entry, this is so after any history of calls.
  pub run-IsQuiet :
      (cs : List (Call A)) (q : WaitQueue A) (m : Machine)
      → IsQuiet q
      → let (ins, outs, q', m') = run cs q m in IsQuiet q'
  unfolding run
  run-IsQuiet [] q m h = h
  run-IsQuiet (c ∷ cs) q m h =
      let (_, _, q', m') = step c q m in run-IsQuiet cs q' m' ((step-Keeps c q m).1 h)

-- A queue after `send`.
pub inner-send {ℓ} :
    {A : Type ℓ} (x : A) (q : WaitQueue A) (m : Machine)
    → (send x q m).1.inner ≡ q.inner ++ (x ∷ [])
unfolding send send_from
inner-send x q m = refl
