-- ===== src/Sync/Keyed.antt =====
-- kernel/sync/wait_map.rs: a value goes to the receiver of its key.
use origel.Base.{◌==◌, if◌then◌else◌, ℕ, ◌≡◌, refl, ◌≢◌, Option, none, some, List, [], ◌∷◌, arith}
use origel.Base.Map.{remove, Map, lookup, insert, lookup-insert, lookup-remove}
use origel.Context.Machine.{Machine}
use origel.Sync.{
  Outcome, done, sleeps, panics, wait, notify, WaitMap, asleep, receive_nonblock, receive_key,
  receive_any_nonblock, receive_any, send_key,
}

module _ {ℓ} {V : Type ℓ} where
  -- A value that is sent under a key is what `receive` of that key returns next, and it leaves the
  -- map; the entries of the other keys stay, and nobody waits after the `send`.
  pub receive-send :
      (k : ℕ) (v : V) (w : WaitMap V) (m : Machine)
      → let (sent, m') = send_key k v w m in
        let (out, left, m'') = receive_key k sent m' in
        (sent.condition ≡ [])
        × (out ≡ done v)
        × (lookup k left.inner ≡ none)
        × ((j : ℕ) → j ≢ k → lookup j left.inner ≡ lookup j w.inner)
  unfolding send_key notify receive_key receive_nonblock
  receive-send k v w m = (
    refl,
    ground (arith, lookup-insert k k v w.inner),
    ground (arith, lookup-insert k k v w.inner, lookup-remove k k (insert k v w.inner)),
    λ j h. ground (
      arith,
      lookup-insert k k v w.inner,
      lookup-insert k j v w.inner,
      lookup-remove k j (insert k v w.inner),
    ),
  )

  abbrev pub TakesAny : Map V → Outcome (ℕ × V) → Map V → Type ℓ
  TakesAny inner (done (k, v)) left =
      (lookup k inner ≡ some v)
      × ((j : ℕ) → lookup j left ≡ (if j == k then none else lookup j inner))
  TakesAny inner sleeps left = (inner ≡ []) × (left ≡ inner)
  TakesAny inner panics left = (inner ≡ []) × (left ≡ inner)

  asleep-TakesAny :
      (w : WaitMap V) (o : Option (List ℕ × Machine)) (m : Machine)
      → w.inner ≡ []
      → let (out, left, m') = asleep {A = ℕ × V} w (λ c. record w { condition = c }) o m in
        TakesAny w.inner out left.inner
  asleep-TakesAny w none m e = (e, refl)
  asleep-TakesAny w (some r) m e = (e, refl)

  any-TakesAny :
      (inner : Map V) (waiting : List ℕ) (m : Machine)
      → let (out, left, m') = receive_any (record { inner = inner; condition = waiting }) m in
        TakesAny inner out left.inner
  unfolding receive_any receive_any_nonblock lookup
  any-TakesAny [] waiting m =
      asleep-TakesAny (record { inner = []; condition = waiting }) (wait waiting m) m refl
  any-TakesAny ((k, v) ∷ rest) waiting m = (ground arith, λ j. lookup-remove k j ((k, v) ∷ rest))

  -- `receive_any` waits only on an empty map. Otherwise it returns an entry of the map, removes
  -- that entry and leaves the others.
  pub receive_any_lem :
      (w : WaitMap V) (m : Machine)
      → let (out, left, m') = receive_any w m in TakesAny w.inner out left.inner
  receive_any_lem w m = any-TakesAny w.inner w.condition m

  -- A map after `send`, and the machine.
  pub inner-send_key :
      (k : ℕ) (v : V) (w : WaitMap V) (m : Machine)
      → (send_key k v w m).0.inner ≡ insert k v w.inner
  unfolding send_key
  inner-send_key k v w m = refl

  pub machine-send_key :
      (k : ℕ) (v : V) (w : WaitMap V) (m : Machine)
      → (send_key k v w m).1 ≡ (notify w.condition m).2
  unfolding send_key
  machine-send_key k v w m = refl

  -- `receive` of a key that the map has.
  pub receive_key-found :
      (k : ℕ) (v : V) (w : WaitMap V) (m : Machine)
      → lookup k w.inner ≡ some v
      → receive_key k w m ≡ (done v, record w { inner = remove k w.inner }, m)
  unfolding receive_key receive_nonblock
  receive_key-found k v w m h = rw (receive_key, h) refl
