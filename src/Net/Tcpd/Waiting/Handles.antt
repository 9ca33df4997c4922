-- ===== src/Net/Tcpd/Waiting/Handles.antt =====
-- What one call, or one segment, does to a handle.
use origel.Base.{
  ℕ, ◌≡◌, refl, sym, ap, ◌∙◌, ◌⊎◌, inl, inr, Bool, true, false, Option, none, some, List, [], ◌∷◌,
  arith,
}
use origel.Syscall.Scheme.{Packet}
use origel.Net.Wire.{Ipv4, Tcp}
use origel.Net.Tcpd.{
  State, listen, established, Handle, is_connected, read_closed, closed_state, Outside, Line,
}
use origel.Net.Tcpd.Receive.{
  is_listen, answer_reads, on_segment, answer_write, wrote, write_waiting, after_segment,
}
use origel.Net.Tcpd.Waiting.{IsServed}

-- A handle with fewer segments is sound, if none come in where there was none.
pub fewer-IsServed :
    (h : Handle) (ds : List (Ipv4 × Tcp))
    → IsServed h
    → (h.segments ≡ [] → ds ≡ [])
    → IsServed (record h { segments = ds })
unfolding is_connected read_closed
fewer-IsServed h ds s few = record {
  waits = elim s.waits [ inl e ↦ inl e | inr (e, c) ↦ inr (few e, c) ];
  listens = s.listens;
}

-- The loop over the reads stops only where there is nothing to give.
answer_reads-Waits :
    (ended : Bool) (ps : List Packet) (ds : List (Ipv4 × Tcp))
    → ((answer_reads ended ps ds).0 ≡ []) ⊎ (((answer_reads ended ps ds).1 ≡ []) × (ended ≡ false))
unfolding answer_reads
answer_reads-Waits ended [] ds = inl refl
answer_reads-Waits true (p ∷ ps) [] = answer_reads-Waits true ps []
answer_reads-Waits false (p ∷ ps) [] = inr (refl, refl)
answer_reads-Waits ended (p ∷ ps) (d ∷ ds) = answer_reads-Waits ended ps ds

module _ (o : Outside) where
  -- A segment does not make a handle listen.
  pub on_segment-state :
      (s : State) (ip : Ipv4) (tcp : Tcp) (h : Handle) (l : Line) (h' : Handle) (b : Bool)
      (l' : Line)
      → is_listen s ≡ false
      → h.state ≡ s
      → on_segment o s ip tcp h l ≡ some (h', b, l')
      → is_listen h'.state ≡ false
  unfolding on_segment
  on_segment-state listen ip tcp h l h' b l' n e p = cc
  on_segment-state s ip tcp h l h' b l' n e p = ground arith

  -- A write that is answered leaves the reads, the segments and the state as they are.
  abbrev Keeps : Handle → Handle → Type 0
  Keeps h h' = (h'.todo_read ≡ h.todo_read) × (h'.segments ≡ h.segments) × (h'.state ≡ h.state)

  wrote-Keeps :
      (p : Packet) (buf : List ℕ) (h : Handle) (r : Option ℕ × Line) → Keeps h (wrote o p buf h r).0
  wrote-Keeps p buf h (none, l) = (refl, refl, refl)
  wrote-Keeps p buf h (some e, l) = (refl, refl, refl)

  write_waiting-Keeps :
      (s : State) (ps : List Packet) (h : Handle) (l : Line) → Keeps h (write_waiting o s ps h l).0
  write_waiting-Keeps established (p ∷ ps) h l = wrote-Keeps p _ (record h { todo_write = ps }) _
  write_waiting-Keeps established [] h l = (refl, refl, refl)
  write_waiting-Keeps _ ps h l = (refl, refl, refl)

  answer_write-Keeps : (h : Handle) (l : Line) → Keeps h (answer_write o h l).0
  unfolding answer_write
  answer_write-Keeps h l = write_waiting-Keeps h.state h.todo_write h l

  pub after_segment-IsServed :
      (id : ℕ) (h : Handle) (l : Line)
      → is_listen h.state ≡ false
      → IsServed (after_segment o id h l).0
  unfolding after_segment read_closed
  after_segment-IsServed id h l n =
      let r = answer_reads (read_closed h) h.todo_read h.segments in
      let h' = record h { todo_read = r.0; segments = r.1 } in
      let k = answer_write-Keeps h' l in
      let w = answer_reads-Waits (read_closed h) h.todo_read h.segments in
      record {
        waits = elim w [
          | inl e ↦ inl (k.0 ∙ e)
          | inr (e, c) ↦ inr (k.1 ∙ e, ap closed_state k.2 ∙ c)
        ];
        listens = λ e. let no : false ≡ true = sym (ap is_listen k.2 ∙ n) ∙ e in absurd (cc);
      }
