-- ===== src/Syscall/Flag.antt =====
-- syscall/src/flag.rs: the flags that the modelled calls read.
use origel.Base.{ℕ, bit_or}

abbrev pub event_read : ℕ
event_read = 1

abbrev pub f_getfl : ℕ
f_getfl = 1

abbrev pub f_setfl : ℕ
f_setfl = 2

abbrev pub futex_wait : ℕ
futex_wait = 0

abbrev pub futex_wake : ℕ
futex_wake = 1

abbrev pub futex_requeue : ℕ
futex_requeue = 2

abbrev pub mode_type : ℕ
mode_type = 0xf000

abbrev pub mode_dir : ℕ
mode_dir = 0x4000

abbrev pub mode_file : ℕ
mode_file = 0x8000

abbrev pub o_rdonly : ℕ
o_rdonly = 0x00010000

abbrev pub o_wronly : ℕ
o_wronly = 0x00020000

abbrev pub o_rdwr : ℕ
o_rdwr = 0x00030000

abbrev pub o_nonblock : ℕ
o_nonblock = 0x00040000

abbrev pub o_cloexec : ℕ
o_cloexec = 0x01000000

abbrev pub o_directory : ℕ
o_directory = 0x10000000

abbrev pub o_accmode : ℕ
o_accmode = bit_or (bit_or o_rdonly o_wronly) o_rdwr

abbrev pub seek_set : ℕ
seek_set = 0

abbrev pub seek_cur : ℕ
seek_cur = 1

abbrev pub seek_end : ℕ
seek_end = 2

abbrev pub wnohang : ℕ
wnohang = 1

abbrev pub o_creat : ℕ
o_creat = 0x0200_0000

abbrev pub o_trunc : ℕ
o_trunc = 0x0400_0000

abbrev pub o_excl : ℕ
o_excl = 0x0800_0000

abbrev pub o_stat : ℕ
o_stat = 0x2000_0000

abbrev pub mode_perm : ℕ
mode_perm = 0x0FFF
