-- ===== src/Syscall/Number.antt =====
-- syscall/src/number.rs: the call numbers that a scheme handles, built from their class bits.
use origel.Base.{ℕ, bit_or}

abbrev pub sys_class_path : ℕ
sys_class_path = 0x10000000

abbrev pub sys_class_file : ℕ
sys_class_file = 0x20000000

abbrev pub sys_arg_slice : ℕ
sys_arg_slice = 0x01000000

abbrev pub sys_arg_mslice : ℕ
sys_arg_mslice = 0x02000000

abbrev pub sys_ret_file : ℕ
sys_ret_file = 0x00100000

abbrev pub sys_open : ℕ
sys_open = bit_or (bit_or sys_class_path sys_ret_file) 5

abbrev pub sys_chmod : ℕ
sys_chmod = bit_or sys_class_path 15

abbrev pub sys_rmdir : ℕ
sys_rmdir = bit_or sys_class_path 84

abbrev pub sys_unlink : ℕ
sys_unlink = bit_or sys_class_path 10

abbrev pub sys_close : ℕ
sys_close = bit_or sys_class_file 6

abbrev pub sys_dup : ℕ
sys_dup = bit_or (bit_or sys_class_file sys_ret_file) 41

abbrev pub sys_read : ℕ
sys_read = bit_or (bit_or sys_class_file sys_arg_mslice) 3

abbrev pub sys_write : ℕ
sys_write = bit_or (bit_or sys_class_file sys_arg_slice) 4

abbrev pub sys_lseek : ℕ
sys_lseek = bit_or sys_class_file 19

abbrev pub sys_fcntl : ℕ
sys_fcntl = bit_or sys_class_file 55

abbrev pub sys_fevent : ℕ
sys_fevent = bit_or sys_class_file 927

abbrev pub sys_fmap : ℕ
sys_fmap = bit_or sys_class_file 90

abbrev pub sys_fpath : ℕ
sys_fpath = bit_or (bit_or sys_class_file sys_arg_mslice) 928

abbrev pub sys_fstat : ℕ
sys_fstat = bit_or (bit_or sys_class_file sys_arg_mslice) 28

abbrev pub sys_fstatvfs : ℕ
sys_fstatvfs = bit_or (bit_or sys_class_file sys_arg_mslice) 100

abbrev pub sys_fsync : ℕ
sys_fsync = bit_or sys_class_file 118

abbrev pub sys_ftruncate : ℕ
sys_ftruncate = bit_or sys_class_file 93
