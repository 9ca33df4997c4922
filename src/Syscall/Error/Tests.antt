-- ===== src/Syscall/Error/Tests.antt =====
-- Runs of the error encoding.
use origel.Base.{◌-◌, ◌^◌, ◌≡◌, refl}
use origel.Syscall.Error.{text}
use origel.Syscall.Error.Text.{str_error}

text_of_enoent : text 2 ≡ "No such file or directory"
unfolding text str_error
text_of_enoent = refl

text_of_minus_one : text (2 ^ 32 - 1) ≡ "Unknown Error"
unfolding text str_error
text_of_minus_one = refl
