-- ===== src/UserScheme/Tests.antt =====
-- Runs of the calls of a scheme in another context, and the theorems about it at concrete packets.
use origel.Base.{ℕ, ◌<◌, ◌≡◌, refl, Bool, true, none, some, List, [], ◌∷◌, arith}
use origel.Base.Map.{lookup}
use origel.Syscall.Error.{ok, err, demux, esrch}
use origel.Syscall.Number.{sys_fevent, sys_fsync}
use origel.Syscall.Scheme.{Packet, chmod, fsync, write, decode}
use origel.Context.{new_context}
use origel.Sync.{done}
use origel.Grants.{user_grant_offset}
use origel.UserScheme.{
  World, new_inner, request_of, buffer_of, packet_of, post, begin_call, begin_fmap, begin_at,
  begin_scheme_call, begin_captured, finish_call, finish_scheme_call, read_packets, answer_fmap,
  write_packet, write_packets,
}
use origel.UserScheme.Packets.{decode-packet_of}
use origel.UserScheme.Replies.{answer_to, write-finish_call}

abbrev world : World
world = record {
  inner = record (new_inner 4 0 0 2) { next_id = 5 };
  machine = record {
    contexts = (1, new_context 1) ∷ (2, new_context 2) ∷ [];
    current = 1;
    cpu = 0;
    interrupts = [];
  };
  registry = [];
  queues = [];
  grants = (2, []) ∷ [];
}

abbrev mapped : ℕ → Bool
mapped page = true

captures : buffer_of (write 3 4096 10) ≡ some (4096, 10)
unfolding buffer_of
captures = refl

first_number : (new_inner 4 0 0 2).next_id ≡ 1
unfolding new_inner
first_number = refl

numbers_packet : (begin_call (request_of (fsync 3) 0) world).0 ≡ ok 5
unfolding begin_call lookup new_inner
numbers_packet = refl

remembers_fmap : (begin_fmap 3 0 4096 world).0 ≡ ok 5
unfolding begin_fmap lookup new_inner
remembers_fmap = refl

asks_for_memory : (begin_at (fsync 3) 0 world).0 ≡ ok 5
unfolding begin_at begin_call lookup new_inner
asks_for_memory = refl

refuses : (finish_scheme_call (err esrch, 0, world)).0 ≡ done (err esrch)
unfolding finish_scheme_call lookup
refuses = refl

ignores_message : write_packet mapped (packet_of 0 1 0 0 (7, 0, 0, 0)) world ≡ some world
unfolding write_packet
ignores_message = refl

no_fmap : answer_fmap mapped 7 none world ≡ some (7, world)
unfolding answer_fmap
no_fmap = refl

posts : (post (packet_of 5 1 0 0 (sys_fsync, 3, 0, 0)) world).inner.next_id ≡ 5
unfolding post new_inner
posts = refl

reads_first :
    ((read_packets 1 (post (packet_of 5 1 0 0 (sys_fsync, 3, 0, 0)) world)).1).inner.next_id ≡ 5
unfolding read_packets post new_inner
reads_first = refl

begins : begin_scheme_call mapped (fsync 3) world ≡ begin_captured (fsync 3) (some (ok 0, world))
unfolding begin_scheme_call buffer_of
begins = refl

decode-packet_of_example :
    decode (packet_of 5 1 7 8 (request_of (chmod 4096 3 0x1ff 0 0) user_grant_offset))
    ≡ ok (chmod user_grant_offset 3 0x1ff 7 8)
decode-packet_of_example =
    decode-packet_of 5 1 7 8 user_grant_offset (chmod 4096 3 0x1ff 0 0) (omega arith)

-- An answer to call 5 and one to call 6, with a message between them.
abbrev answers : List Packet
answers =
    packet_of 5 1 0 0 (9, 0, 0, 0)
    ∷ packet_of 0 1 0 0 (sys_fevent, 3, 1, 0)
    ∷ packet_of 6 1 0 0 (8, 0, 0, 0)
    ∷ []

write-finish_call_example :
    (w' : World) × (write_packets mapped answers world ≡ some w')
    × ((id a : ℕ) → 0 < id → answer_to id answers ≡ some a → (finish_call id w').0 ≡ done (demux a))
    × ((id : ℕ)
        → 0 < id
        → answer_to id answers ≡ none
        → lookup id w'.inner.answers.inner ≡ lookup id world.inner.answers.inner)
unfolding lookup new_inner
write-finish_call_example = write-finish_call mapped answers world (refl, (refl, (refl, tt)))
