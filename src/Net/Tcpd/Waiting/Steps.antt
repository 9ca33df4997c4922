-- ===== src/Net/Tcpd/Waiting/Steps.antt =====
-- What a packet of a caller, or of the network, does to the handles.
use mathlib.Core.Path.{subst}
use origel.Base.{
  ◌==◌, Bool-cases, Option-cases, All, ℕ, ◌+◌, ◌%◌, ◌^◌, bit_and, ◌≡◌, refl, inl, inr, Bool, true,
  false, ◌&&◌, not, Option, none, some, List, [], ◌∷◌, ◌++◌, arith,
}
use origel.Base.Map.{Map, lookup, insert}
use origel.Syscall.Scheme.{Packet}
use origel.Net.Wire.{Ipv4, Tcp}
use origel.Net.Tcpd.{
  Handle, Outside, Line, Tcpd, matches, is_connected, transmit, draw, add32, syn_ack, tcp_syn,
}
use origel.Net.Tcpd.Open.{unmatched, count_port}
use origel.Net.Tcpd.Receive.{
  Answer, is_listen, deliver, on_segment, after_segment, Delivered, with_handle, found_handle,
}
use origel.Net.Tcpd.Receive.Accept.{
  close_handles, accept_dups, accept_all, accepted, store_new, NewHandles, Accepted, with_new,
  listened, stored, accept_new, after_delivery, receive_segment, receive_tcp, receive_ip,
  receive_bytes,
}
use origel.Net.Tcpd.Waiting.{IsServed, Every, IsSound, insert-Every, remove-Every}
use origel.Net.Tcpd.Waiting.Handles.{on_segment-state, after_segment-IsServed}

module _ (o : Outside) where
  abbrev HandlesOf : Delivered → Type 0
  HandlesOf none = Unit {0}
  HandlesOf (some (hs, found, ids, l, answers)) = Every hs

  with_handle-Every :
      (id : ℕ) (h : Handle) (answers : List Answer) (r : Delivered)
      → IsServed h
      → HandlesOf r
      → HandlesOf (with_handle o id h answers r)
  with_handle-Every id h answers none s e = tt
  with_handle-Every id h answers (some (hs, found, ids, l, rest)) s e = (s, e)

  found_handle-Every :
      (id : ℕ) (b : Bool) (r : Delivered) → HandlesOf r → HandlesOf (found_handle o id b r)
  found_handle-Every id b none e = tt
  found_handle-Every id b (some (hs, found, ids, l, rest)) e = e

  -- The loop over the handles keeps the handles sound.
  deliver-Every :
      (ip : Ipv4) (tcp : Tcp) (hs : Map Handle) (l : Line)
      → Every hs
      → HandlesOf (deliver o ip tcp hs l)
  unfolding deliver
  deliver-Every ip tcp [] l e = tt
  deliver-Every ip tcp ((id, h) ∷ hs) l e =
      elim (Bool-cases (not (is_listen h.state) && matches h ip tcp)) [
        | inr b ↦
            rw b (
              with_handle-Every id h [] (deliver o ip tcp hs l) e.0 (deliver-Every ip tcp hs l e.1))
        | inl b ↦ rw b (elim (Option-cases (on_segment o h.state ip tcp h l)) [
          | inl none_left ↦ rw none_left tt
          | inr ((h', closing, l'), moved) ↦
              let quiet : is_listen h.state ≡ false = ground (arith, b) in
              let quiet' = on_segment-state o h.state ip tcp h l h' closing l' quiet refl moved in
              let r = after_segment o id h' l' in
              let rest = deliver-Every ip tcp hs r.1 e.1 in
              rw moved (
                found_handle-Every id closing _
                  (with_handle-Every id r.0 r.2 _ (after_segment-IsServed o id h' l' quiet') rest))
        ])
      ]

  -- So does the removal of the closed ones.
  abbrev SoundOr : Option Tcpd → Type 0
  SoundOr none = Unit {0}
  SoundOr (some t) = IsSound t

  close_handles-IsSound : (ids : List ℕ) (t : Tcpd) → IsSound t → SoundOr (close_handles ids t)
  unfolding close_handles
  close_handles-IsSound [] t e = e
  close_handles-IsSound (id ∷ ids) t e = elim (Option-cases (lookup id t.handles)) [
    | inl missing ↦ rw (close_handles, missing) tt
    | inr (h, found) ↦
        rw (close_handles, found) (close_handles-IsSound ids _ (remove-Every id t.handles e))
  ]

  -- New handles are sound.
  abbrev News : NewHandles → Type 0
  News news = All (λ x. IsServed x.1) news

  News-append : (xs ys : NewHandles) → News xs → News ys → News (xs ++ ys)
  News-append [] ys h k = k
  News-append (x ∷ xs) ys h k = (h.0, News-append xs ys h.1 k)

  abbrev AcceptedNews : Accepted → Type 0
  AcceptedNews none = Unit {0}
  AcceptedNews (some (ps, ds, t', news)) = News news

  with_new-AcceptedNews :
      (p : Packet) (h : Handle) (r : Accepted)
      → IsServed h
      → AcceptedNews r
      → AcceptedNews (with_new p h r)
  with_new-AcceptedNews p h none s k = tt
  with_new-AcceptedNews p h (some (ps, ds, u, news)) s k = (s, k)

  accepted-IsServed :
      (h : Handle) (seq seq' : ℕ) (ip : Ipv4) (tcp : Tcp)
      → IsServed (record (accepted h seq ip tcp) { seq = seq' })
  accepted-IsServed h seq seq' ip tcp = record { waits = inl refl; listens = λ e. absurd (cc) }

  accept_dups-AcceptedNews :
      (h : Handle) (ps : List Packet) (ds : List (Ipv4 × Tcp)) (t : Tcpd)
      → AcceptedNews (accept_dups o h ps ds t)
  unfolding accept_dups
  accept_dups-AcceptedNews h [] ds t = tt
  accept_dups-AcceptedNews h (p ∷ ps) [] t = tt
  accept_dups-AcceptedNews h (p ∷ ps) ((ip, tcp) ∷ ds) t =
      let (seq, l) = draw o 32 t.line in
      let h' = record (accepted h seq ip tcp) { seq = add32 seq 1 } in
      let r = transmit o syn_ack [] (accepted h seq ip tcp) l in
      let t' = record t {
        ports = count_port h.local.1 t.ports;
        next_id = (t.next_id + 1) % 2 ^ 64;
        line = r.1;
      } in
      elim (Option-cases r.0) [
        | inr (e, refused) ↦ rw (accept_dups, refused) tt
        | inl taken ↦
            rw (accept_dups, taken)
              (with_new-AcceptedNews (record p { a = t.next_id }) h' _
                (accepted-IsServed h seq (add32 seq 1) ip tcp)
                (accept_dups-AcceptedNews h ps (unmatched h' ds) t'))
      ]

  abbrev ListenedNews : Option (Map Handle × Tcpd × NewHandles) → Type 0
  ListenedNews none = Unit {0}
  ListenedNews (some (hs, t', news)) = Every hs × News news

  listened-ListenedNews :
      (id : ℕ) (h : Handle) (news : NewHandles) (r : Option (Map Handle × Tcpd × NewHandles))
      → IsServed h
      → News news
      → ListenedNews r
      → ListenedNews (listened o id h news r)
  listened-ListenedNews id h news none s k e = tt
  listened-ListenedNews id h news (some (hs, u, rest)) s k e =
      ((s, e.0), News-append news rest k e.1)

  accept_all-ListenedNews :
      (ip : Ipv4) (tcp : Tcp) (hs : Map Handle) (t : Tcpd)
      → Every hs
      → ListenedNews (accept_all o ip tcp hs t)
  unfolding accept_all is_connected
  accept_all-ListenedNews ip tcp [] t e = (tt, tt)
  accept_all-ListenedNews ip tcp ((id, h) ∷ hs) t e =
      elim (Bool-cases (is_listen h.state && matches h ip tcp)) [
        | inr b ↦
            rw b (listened-ListenedNews id h [] _ e.0 tt (accept_all-ListenedNews ip tcp hs t e.1))
        | inl b ↦
            let r = accept_dups o h h.todo_dup (h.segments ++ ((ip, tcp) ∷ [])) t in
            let from : AcceptedNews r =
              accept_dups-AcceptedNews h h.todo_dup (h.segments ++ ((ip, tcp) ∷ [])) t in
            rw b (elim (Option-cases r) [
              | inl failed ↦ rw failed tt
              | inr ((ps, ds, t', news), done) ↦
                  let from' : AcceptedNews (some (ps, ds, t', news)) =
                    subst AcceptedNews done from in
                  let listens : is_listen h.state ≡ true = ground (arith, b) in
                  let idle = e.0.listens listens in
                  let still : IsServed (record h { todo_dup = ps; segments = ds }) = record {
                    waits = inl idle.1;
                    listens = λ _. idle;
                  } in
                  rw done (
                    listened-ListenedNews id (record h { todo_dup = ps; segments = ds }) news _
                      still from' (accept_all-ListenedNews ip tcp hs t' e.1))
            ])
      ]

  store_new-Every :
      (news : NewHandles) (hs : Map Handle) → News news → Every hs → Every (store_new o news hs).0
  unfolding store_new
  store_new-Every [] hs k e = e
  store_new-Every ((p, h) ∷ news) hs k e =
      store_new-Every news (insert p.a h hs) k.1 (insert-Every p.a h hs k.0 e)

  abbrev pub Sound : Option (Tcpd × List Answer) → Type 0
  Sound none = Unit {0}
  Sound (some (t, answers)) = IsSound t

  stored-Sound :
      (answers : List Answer) (t : Tcpd) (r : Option (Map Handle × Tcpd × NewHandles))
      → ListenedNews r
      → Sound (stored o answers r)
  stored-Sound answers t none k = tt
  stored-Sound answers t (some (hs, t', news)) k = store_new-Every news hs k.1 k.0

  accept_new-Sound :
      (found : Bool) (ip : Ipv4) (tcp : Tcp) (answers : List Answer) (t : Tcpd)
      → IsSound t
      → Sound (accept_new o found ip tcp answers t)
  accept_new-Sound found ip tcp answers t e =
      elim (Bool-cases (not found && bit_and tcp.header.flags syn_ack == tcp_syn)) [
        | inl b ↦ rw b (stored-Sound answers t _ (accept_all-ListenedNews ip tcp t.handles t e))
        | inr b ↦ rw b e
      ]

  after_delivery-Sound :
      (ip : Ipv4) (tcp : Tcp) (t : Tcpd) (r : Delivered)
      → HandlesOf r
      → Sound (after_delivery o ip tcp t r)
  after_delivery-Sound ip tcp t none k = tt
  after_delivery-Sound ip tcp t (some (hs, found, ids, l, answers)) k =
      let t' = record t { handles = hs; line = l } in
      let from = close_handles-IsSound ids t' k in
      elim (Option-cases (close_handles ids t')) [
        | inl failed ↦ rw (after_delivery, failed) tt
        | inr (t'', done) ↦
            rw (after_delivery, done)
              (accept_new-Sound found ip tcp answers t'' (subst SoundOr done from))
      ]

  -- A segment keeps the handles sound, and so do any bytes from the network.
  receive_segment-Sound :
      (ip : Ipv4) (tcp : Tcp) (t : Tcpd) → IsSound t → Sound (receive_segment o ip tcp t)
  unfolding receive_segment
  receive_segment-Sound ip tcp t e =
      after_delivery-Sound ip tcp t _ (deliver-Every ip tcp t.handles t.line e)

  receive_tcp-Sound :
      (ip : Ipv4) (tcp : Option Tcp) (t : Tcpd) → IsSound t → Sound (receive_tcp o ip tcp t)
  receive_tcp-Sound ip none t e = e
  receive_tcp-Sound ip (some tcp) t e = receive_segment-Sound ip tcp t e

  receive_ip-Sound : (ip : Option Ipv4) (t : Tcpd) → IsSound t → Sound (receive_ip o ip t)
  receive_ip-Sound none t e = e
  receive_ip-Sound (some ip) t e = receive_tcp-Sound ip _ t e

  pub receive_bytes-Sound :
      (bytes : List ℕ) (t : Tcpd) → IsSound t → Sound (receive_bytes o bytes t)
  unfolding receive_bytes
  receive_bytes-Sound bytes t e = receive_ip-Sound _ t e
