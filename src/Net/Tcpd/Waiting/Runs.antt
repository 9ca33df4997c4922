-- ===== src/Net/Tcpd/Waiting/Runs.antt =====
-- The states that tcpd reaches, in whatever order the packets of callers and of the network arrive.
use origel.Base.{ℕ, ◌^◌, ◌<◌, ◌≡◌, ◌⊎◌, true, false, some, List, []}
use origel.Base.Map.{lookup}
use mathlib.Core.Path.{subst}
use origel.Syscall.Scheme.{Packet}
use origel.Net.Tcpd.{Handle, Outside, Line, Tcpd, new_tcpd, read_closed, is_connected}
use origel.Net.Tcpd.Serve.{serve_packet}
use origel.Net.Tcpd.Receive.{Answer, is_listen}
use origel.Net.Tcpd.Receive.Accept.{receive_bytes}
use origel.Net.Tcpd.Waiting.{IsSound, lookup-Every}
use origel.Net.Tcpd.Waiting.Steps.{Sound, receive_bytes-Sound}
use origel.Net.Tcpd.Waiting.Serve.{serve_packet-IsSound}

module _ (o : Outside) where
  -- A packet of a caller, whose last word is below 2^63 as the length of a buffer is, or bytes that come
  -- from the network.
  pub data Step : Tcpd → Tcpd → Type 0 where
    serves : {t t' : Tcpd} (p : Packet) → p.d < 2 ^ 63 → (serve_packet o p t).1 ≡ t' → Step t t'
    receives :
        {t t' : Tcpd} (bytes : List ℕ) (answers : List Answer)
        → receive_bytes o bytes t ≡ some (t', answers)
        → Step t t'

  pub data Reach (t : Tcpd) : Tcpd → Type 0 where
    here : Reach t t
    next : {u v : Tcpd} → Reach t u → Step u v → Reach t v

  Step-IsSound : {t t' : Tcpd} → Step t t' → IsSound t → IsSound t'
  Step-IsSound {t} (serves p lt e) s = subst IsSound e (serve_packet-IsSound o p t lt s)
  Step-IsSound {t} (receives bytes answers e) s =
      subst (Sound o) e (receive_bytes-Sound o bytes t s)

  Reach-IsSound : {t t' : Tcpd} → Reach t t' → IsSound t → IsSound t'
  Reach-IsSound here s = s
  Reach-IsSound (next r st) s = Step-IsSound st (Reach-IsSound r s)

  -- In every state that tcpd reaches from its start by bytes of the network and by packets of callers whose
  -- last word, the length of a buffer in a read or write, is below 2^63: a read waits in a handle only if
  -- the handle has no segment to give and the other side has not ended; and a handle that listens is not
  -- connected, and no read waits in it.
  pub Reach-IsServed :
      (line : Line) (t : Tcpd) (file : ℕ) (h : Handle)
      → Reach (new_tcpd line) t
      → lookup file t.handles ≡ some h
      → ((h.todo_read ≡ []) ⊎ ((h.segments ≡ []) × (read_closed h ≡ false)))
        × (is_listen h.state ≡ true → (is_connected h ≡ false) × (h.todo_read ≡ []))
  unfolding new_tcpd
  Reach-IsServed line t file h r found =
      let k = lookup-Every file t.handles h (Reach-IsSound r tt) found in (k.waits, k.listens)
