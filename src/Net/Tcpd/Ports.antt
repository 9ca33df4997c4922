-- ===== src/Net/Tcpd/Ports.antt =====
-- The count of handles on a local port.
use origel.Base.{
  leb, ◌==◌, ℕ, ◌+◌, ◌%◌, ◌^◌, ◌≤◌, ◌<◌, ◌≡◌, refl, ◌∙◌, ◌⊎◌, true, false, ◌&&◌, not, Option, none,
  some, List, arith,
}
use origel.Base.Map.{Map, lookup, contains_key, lookup-insert}
use origel.Syscall.Error.{err, eaddrinuse}
use origel.Base.Text.{split}
use origel.Net.Address.{part, parse_socket}
use origel.Net.Tcpd.{State, syn_received, established, close_wait, Handle, Outside, Line, Tcpd}
use origel.Net.Tcpd.Open.{open_tcp}
use origel.Net.Tcpd.Calls.{release_port, close_tcp, close_in, finished}

abbrev Counted : ℕ → ℕ → Map ℕ → Type 0
Counted port n ports = (m : ℕ) × (lookup port ports ≡ some m) × (n ≤ m)

release_port-Counted :
    (port n : ℕ) (ports : Map ℕ)
    → lookup port ports ≡ some n
    → n + 1 < 2 ^ 64
    → Counted port n (release_port port ports)
unfolding release_port
release_port-Counted port n ports found lt =
    let small : (n + 1) % 2 ^ 64 ≡ n + 1 = omega (arith, lt) in
    let ne : (n + 1 == 0) ≡ false = ground arith in
    (
      n + 1,
      rw (release_port, found, small, ne) (lookup-insert port port (n + 1) ports ∙ ground arith),
      omega arith,
    )

module _ (o : Outside) where
  finished-ports :
      (file : ℕ) (h : Handle) (t : Tcpd) (r : Option ℕ × Line)
      → (finished o file h t r).1.ports ≡ t.ports
  finished-ports file h t (some e, l) = refl
  finished-ports file h t (none, l) = refl

  close_in-Counted :
      (s : State) (file : ℕ) (h : Handle) (t : Tcpd) (n : ℕ)
      → lookup h.local.1 t.ports ≡ some n
      → n + 1 < 2 ^ 64
      → Counted h.local.1 n (close_in o s file h t).1.ports
  close_in-Counted syn_received file h t n found lt =
      (n, rw (finished-ports file _ t _) found, omega arith)
  close_in-Counted established file h t n found lt =
      (n, rw (finished-ports file _ t _) found, omega arith)
  close_in-Counted close_wait file h t n found lt =
      (n, rw (finished-ports file _ t _) found, omega arith)
  close_in-Counted _ file h t n found lt = release_port-Counted h.local.1 n t.ports found lt

  -- `open` on a port that is counted.
  open_tcp-Counted :
      (url : List ℕ) (flags uid port n : ℕ) (t : Tcpd)
      → (parse_socket (part 1 (split b'/' url))).1 ≡ port
      → (1024 < port) ⊎ ((uid ≡ 0) × (0 < port))
      → Counted port n t.ports
      → open_tcp o true url flags uid t ≡ (err eaddrinuse, t)
  unfolding open_tcp contains_key
  open_tcp-Counted url flags uid port n t e allowed (m, found, le) =
      let local = parse_socket (part 1 (split b'/' url)) in
      let given : (local.1 == 0) ≡ false = ground (arith, e, allowed) in
      let may : (leb local.1 1024 && not (uid == 0)) ≡ false = ground (arith, e, allowed) in
      let used : contains_key local.1 t.ports ≡ true = rw (e, contains_key, found) refl in
      rw (given, may, used) refl

  -- A close does not make a local port free. If the port of a handle is counted, with a count that does not
  -- overflow, then after `close` of the handle, whatever its state, the port is counted still, no lower than
  -- before, and `open` on it by a user who may open it (any port above 1024, or any but 0 for user 0) fails with
  -- `EADDRINUSE`: the code adds one to the count of the port where one handle less is open.
  pub close_tcp-open_tcp :
      (file n : ℕ) (h : Handle) (t : Tcpd) (url : List ℕ) (flags uid : ℕ)
      → lookup file t.handles ≡ some h
      → lookup h.local.1 t.ports ≡ some n
      → n + 1 < 2 ^ 64
      → (parse_socket (part 1 (split b'/' url))).1 ≡ h.local.1
      → (1024 < h.local.1) ⊎ ((uid ≡ 0) × (0 < h.local.1))
      → ((m : ℕ) × (lookup h.local.1 (close_tcp o file t).1.ports ≡ some m) × (n ≤ m))
        × (open_tcp o true url flags uid (close_tcp o file t).1
            ≡ (err eaddrinuse, (close_tcp o file t).1))
  unfolding close_tcp
  close_tcp-open_tcp file n h t url flags uid found count lt same allowed =
      let counted : Counted h.local.1 n (close_tcp o file t).1.ports =
        rw (close_tcp, found) (close_in-Counted h.state file h t n count lt) in
      (
        counted,
        open_tcp-Counted url flags uid h.local.1 n (close_tcp o file t).1 same allowed counted,
      )
