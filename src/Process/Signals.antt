-- ===== src/Process/Signals.antt =====
-- kernel/syscall/process.rs: who may send a signal.
use origel.Base.{
  ◌==◌, if◌then◌else◌, Bool-cases, ℕ, ◌≤◌, ◌≡◌, ap, ◌∙◌, ◌⊎◌, inl, inr, true, false, some, List, [],
  ◌∷◌, ◌++◌, arith,
}
use origel.Base.Map.{lookup, insert, lookup-insert}
use origel.Syscall.Error.{Result, ok, err}
use origel.Context.{Context}
use origel.FileCalls.{running}
use origel.Process.{eperm, Processes, pending_in, may_kill, kill, kill_from}

abbrev pub pending_of {ℓ} : {S : Type ℓ} → ℕ → Processes S → List ℕ
pending_of id p = pending_in (lookup id p.pending)

-- The sender's effective user is 0 or the receiver's real user, or their real users are the same.
abbrev pub MayKill : Context → Context → Type 0
MayKill sender receiver =
    (sender.euid ≡ 0) ⊎ ((sender.euid ≡ receiver.ruid) ⊎ (sender.ruid ≡ receiver.ruid))

may_kill-true :
    (sender receiver : Context) → may_kill sender receiver ≡ true → MayKill sender receiver
may_kill-true sender receiver e = ground arith

may_kill-false :
    (sender receiver : Context) → may_kill sender receiver ≡ false → ¬ MayKill sender receiver
may_kill-false sender receiver e m = absurd (ground arith)

module _ {ℓ} {S : Type ℓ} (pid sig : ℕ) (p : Processes S) (sender receiver : Context)
    (runs : running p.kernel ≡ some sender)
    (found : lookup pid p.kernel.machine.contexts ≡ some receiver) (low : 1 ≤ sig)
    (high : sig ≤ 127) where
  kill-kill_from : kill pid sig p ≡ kill_from pid sig p sender (some receiver)
  unfolding kill
  kill-kill_from = ground (arith, runs, found)

  refused :
      may_kill sender receiver ≡ false → kill_from pid sig p sender (some receiver) ≡ (err eperm, p)
  unfolding kill_from
  refused e = ground (arith, e)

  sent :
      may_kill sender receiver ≡ true
      → kill_from pid sig p sender (some receiver)
        ≡ (ok 0, record p { pending = insert pid (pending_of pid p ++ (sig ∷ [])) p.pending })
  unfolding kill_from
  sent e = ground (arith, e)

  pending-insert :
      (j : ℕ) (signals : List ℕ)
      → pending_of j (record p { pending = insert pid signals p.pending })
        ≡ (if j == pid then signals else pending_of j p)
  pending-insert j signals = ground (arith, lookup-insert pid j signals p.pending)

  pending-sent :
      (j : ℕ)
      → pending_of j (record p { pending = insert pid (pending_of pid p ++ (sig ∷ [])) p.pending })
        ≡ (if j == pid then pending_of j p ++ (sig ∷ []) else pending_of j p)
  pending-sent j = elim (Bool-cases (j == pid)) [
    | inl e ↦
        let same : j ≡ pid = ground arith in
        pending-insert j (pending_of pid p ++ (sig ∷ [])) ∙ ground (arith, e, same)
    | inr e ↦ pending-insert j (pending_of pid p ++ (sig ∷ [])) ∙ ground (arith, e)
  ]

  -- `kill` by a running context with a signal from 1 to 127 for a context that there is: if the sender's
  -- effective user is 0 or the receiver's real user, or their real users are the same, the signal is
  -- appended to what is pending for the receiver, and for no other context; otherwise the call fails with
  -- `EPERM` and changes nothing.
  pub kill_lem :
      (MayKill sender receiver
        → ((kill pid sig p).0 ≡ ok 0)
          × ((kill pid sig p).1.kernel ≡ p.kernel)
          × ((j : ℕ)
              → pending_of j (kill pid sig p).1
                ≡ (if j == pid then pending_of j p ++ (sig ∷ []) else pending_of j p)))
      × (¬ MayKill sender receiver → kill pid sig p ≡ (err eperm, p))
  kill_lem = elim (Bool-cases (may_kill sender receiver)) [
    | inl e ↦
        let here = kill-kill_from ∙ sent e in
        (
          λ _. (
            ap (λ (r : Result ℕ × Processes S). r.0) here,
            ap (λ (r : Result ℕ × Processes S). r.1.kernel) here,
            λ j. ap (λ (r : Result ℕ × Processes S). pending_of j r.1) here ∙ pending-sent j,
          ),
          λ n. absurd (n (may_kill-true sender receiver e)),
        )
    | inr e ↦ (λ m. absurd (may_kill-false sender receiver e m), λ n. kill-kill_from ∙ refused e)
  ]
