-- ===== src/Syscall/Scheme/Tests.antt =====
-- Runs of the dispatch of packets.
use origel.Base.{ℕ, ◌+◌, ◌≡◌, refl}
use origel.Syscall.Error.{Result, ok, err, ebadf}
use origel.Syscall.Number.{sys_read}
use origel.Syscall.Scheme.{Packet, Call, read, decode, default_call}

abbrev packet : Packet
packet = record { id = 1; pid = 2; uid = 0; gid = 0; a = sys_read; b = 3; c = 4096; d = 10 }

-- A scheme that counts its calls, and defines none.
abbrev counting : Call → ℕ → Result ℕ × ℕ
counting call n = (default_call call, n + 1)

decodes_read : decode packet ≡ ok (read 3 4096 10)
unfolding decode
decodes_read = refl

refuses_read : default_call (read 3 4096 10) ≡ err ebadf
unfolding default_call
refuses_read = refl
