-- ===== src/Sync.antt =====
-- kernel/sync: the waiting list `WaitCondition`, and the queue and the map that contexts wait on.
-- The locks are left out: an operation runs whole, and ends early where it puts the context to sleep.
pub mod Wake
pub mod Queue
pub mod Race
pub mod Keyed
mod Tests
use origel.Base.{
  ltb, if◌then◌else◌, length, ℕ, zero, suc, ◌-◌, Bool, ◌&&◌, Option, none, some, List, [], ◌∷◌,
  ◌++◌,
}
use origel.Base.Map.{Map, lookup, insert, remove}
use origel.Context.Machine.{Machine, unblock_context, block_current}

-- What a call that may wait comes to: its value, or a sleep after which it starts again.
pub data Outcome {ℓ} (A : Type ℓ) : Type ℓ where
  done : A → Outcome A
  sleeps : Outcome A
  panics : Outcome A

-- The loop of `WaitCondition::notify` pops the last context first.
pub unblock_all : List ℕ → Machine → Machine
unblock_all [] m = m
unblock_all (id ∷ ids) m = unblock_context id (unblock_all ids m)

-- `WaitCondition::notify`: how many contexts waited; none does afterwards.
pub notify : List ℕ → Machine → ℕ × List ℕ × Machine
unfolding unblock_all
notify waiting m = (length waiting, [], unblock_all waiting m)

-- `WaitCondition::wait`, up to the switch to another context; `none` is the panic without a
-- running context.
pub wait : List ℕ → Machine → Option (List ℕ × Machine)
wait waiting m = elim (block_current m) [
  | none ↦ none
  | some m' ↦ some (waiting ++ (m.current ∷ []), m')
]

-- `WaitQueue<T>`
pub record WaitQueue {ℓ} (A : Type ℓ) : Type ℓ where
  pub inner : List A
  pub condition : List ℕ

-- A waiting list with the machine, put to sleep on, in an object that `put` rebuilds.
abbrev pub asleep {ℓ κ} :
    {A : Type ℓ} {Q : Type κ}
    → Q
    → (List ℕ → Q)
    → Option (List ℕ × Machine)
    → Machine
    → Outcome A × Q × Machine
asleep q put none m = (panics, q, m)
asleep q put (some (waiting, m')) m = (sleeps, put waiting, m')

-- The loop that moves entries to a buffer with `n` places left.
unfoldable pub drain {ℓ} : {A : Type ℓ} → ℕ → List A → List A × List A
drain zero q = ([], q)
drain (suc n) [] = ([], [])
drain (suc n) (x ∷ q) = let (got, rest) = drain n q in (x ∷ got, rest)

module _ {ℓ} {A : Type ℓ} where
  -- `WaitQueue::receive`
  pub receive : WaitQueue A → Machine → Outcome A × WaitQueue A × Machine
  receive q m = elim q.inner [
    | [] ↦ asleep q (λ waiting. record q { condition = waiting }) (wait q.condition m) m
    | x ∷ rest ↦ (done x, record q { inner = rest }, m)
  ]

  -- The part of `receive_into` under the lock: it takes what is there, up to `n` entries.
  pub receive_rest : ℕ → WaitQueue A → Machine → Outcome (List A) × WaitQueue A × Machine
  unfolding drain
  receive_rest n q m =
      let (taken, rest) = drain n q.inner in (done taken, record q { inner = rest }, m)

  -- The same after the entry that the blocking part waits for.
  pub receive_first : ℕ → WaitQueue A → Machine → Outcome (List A) × WaitQueue A × Machine
  unfolding receive drain
  receive_first n q m =
      let (first, q', m') = receive q m in
      elim first [
        | done x ↦
            let (taken, rest) = drain (n - 1) q'.inner in
            (done (x ∷ taken), record q' { inner = rest }, m')
        | sleeps ↦ (sleeps, q', m')
        | panics ↦ (panics, q', m')
      ]

  -- `WaitQueue::receive_into` for a buffer of `n` entries: the entries that it stores.
  pub receive_into : ℕ → Bool → WaitQueue A → Machine → Outcome (List A) × WaitQueue A × Machine
  unfolding receive_first receive_rest
  receive_into n block q m = if ltb 0 n && block then receive_first n q m else receive_rest n q m

  -- `WaitQueue::send_from`, and `send` for one entry: the new length of the queue.
  pub send_from : List A → WaitQueue A → Machine → ℕ × WaitQueue A × Machine
  unfolding notify
  send_from buf q m =
      let inner = q.inner ++ buf in
      let (_, waiting, m') = notify q.condition m in
      (length inner, record { inner = inner; condition = waiting }, m')

  pub send : A → WaitQueue A → Machine → ℕ × WaitQueue A × Machine
  unfolding send_from
  send x q m = send_from (x ∷ []) q m

-- `WaitMap<usize, V>`
pub record WaitMap {ℓ} (V : Type ℓ) : Type ℓ where
  pub inner : Map V
  pub condition : List ℕ

module _ {ℓ} {V : Type ℓ} where
  -- `WaitMap::receive_nonblock`
  pub receive_nonblock : ℕ → WaitMap V → Option V × WaitMap V
  receive_nonblock k w = (lookup k w.inner, record w { inner = remove k w.inner })

  -- `WaitMap::receive`
  pub receive_key : ℕ → WaitMap V → Machine → Outcome V × WaitMap V × Machine
  unfolding receive_nonblock
  receive_key k w m = elim (receive_nonblock k w).0 [
    | some v ↦ (done v, (receive_nonblock k w).1, m)
    | none ↦ asleep w (λ waiting. record w { condition = waiting }) (wait w.condition m) m
  ]

  -- `WaitMap::receive_any_nonblock`: the entry of the least key.
  unfoldable pub receive_any_nonblock : WaitMap V → Option (ℕ × V) × WaitMap V
  receive_any_nonblock w = elim w.inner [
    | [] ↦ (none, w)
    | (k, v) ∷ rest ↦ (some (k, v), record w { inner = remove k w.inner })
  ]

  -- `WaitMap::receive_any`
  pub receive_any : WaitMap V → Machine → Outcome (ℕ × V) × WaitMap V × Machine
  unfolding receive_any_nonblock
  receive_any w m = elim (receive_any_nonblock w).0 [
    | some e ↦ (done e, (receive_any_nonblock w).1, m)
    | none ↦ asleep w (λ waiting. record w { condition = waiting }) (wait w.condition m) m
  ]

  -- `WaitMap::receive_all`
  pub receive_all : WaitMap V → Map V × WaitMap V
  receive_all w = (w.inner, record w { inner = [] })

  -- `WaitMap::send`
  pub send_key : ℕ → V → WaitMap V → Machine → WaitMap V × Machine
  unfolding notify
  send_key k v w m =
      let (_, waiting, m') = notify w.condition m in
      (record { inner = insert k v w.inner; condition = waiting }, m')
