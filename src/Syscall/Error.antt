-- ===== src/Syscall/Error.antt =====
-- syscall/src/error.rs: results, error numbers and the encoding of a result in one machine word.
-- An `i32` is its bit pattern, a number below 2 ^ 32.
pub mod Text
pub mod Mux
mod Tests
use Prim.Native.String.{String}
use origel.Base.{
  ltb, leb, if◌then◌else◌, length, get_elem?, ℕ, ◌+◌, ◌-◌, ◌%◌, ◌^◌, Bool, ◌&&◌, Option, none, some,
}
use Text.{str_error}

-- `Result<T>`, with the number of its `Error`.
pub data Result {ℓ} (A : Type ℓ) : Type ℓ where
  ok : A → Result A
  err : ℕ → Result A

abbrev pub eperm : ℕ
eperm = 1

abbrev pub enoent : ℕ
enoent = 2

abbrev pub esrch : ℕ
esrch = 3

abbrev pub ebadf : ℕ
ebadf = 9

abbrev pub eagain : ℕ
eagain = 11

abbrev pub efault : ℕ
efault = 14

abbrev pub enomem : ℕ
enomem = 12

abbrev pub eacces : ℕ
eacces = 13

abbrev pub eexist : ℕ
eexist = 17

abbrev pub enodev : ℕ
enodev = 19

abbrev pub enotdir : ℕ
enotdir = 20

abbrev pub eisdir : ℕ
eisdir = 21

abbrev pub einval : ℕ
einval = 22

abbrev pub emfile : ℕ
emfile = 24

abbrev pub enospc : ℕ
enospc = 28

abbrev pub epipe : ℕ
epipe = 32

abbrev pub enosys : ℕ
enosys = 38

abbrev pub enotempty : ℕ
enotempty = 39

abbrev pub eio : ℕ
eio = 5

abbrev pub ewouldblock : ℕ
ewouldblock = 41

abbrev pub emsgsize : ℕ
emsgsize = 90

abbrev pub eaddrinuse : ℕ
eaddrinuse = 98

abbrev pub eisconn : ℕ
eisconn = 106

abbrev pub enotconn : ℕ
enotconn = 107

-- `-x` on an `i32`, wrapping at the least value.
abbrev pub neg_i32 : ℕ → ℕ
neg_i32 x = (2 ^ 32 - x) % 2 ^ 32

-- `x as usize` for an `i32`: the sign is extended.
abbrev pub i32_as_usize : ℕ → ℕ
i32_as_usize x = if ltb x (2 ^ 31) then x else x + (2 ^ 64 - 2 ^ 32)

-- `1 <= x && x < n` on an `i32`, for an array length `n`.
abbrev pub is_errno : ℕ → ℕ → Bool
is_errno x n = leb 1 x && (ltb x (2 ^ 31) && ltb x n)

unfoldable pub mux : Result ℕ → ℕ
mux (ok value) = value
mux (err errno) = i32_as_usize (neg_i32 errno)

pub demux : ℕ → Result ℕ
demux value =
    let errno = neg_i32 (value % 2 ^ 32) in
    if is_errno errno (length str_error) then err errno else ok value

abbrev or_unknown : Option String → String
or_unknown (some description) = description
or_unknown none = "Unknown Error"

text : ℕ → String
text errno = or_unknown (get_elem? str_error (i32_as_usize errno))
