-- ===== src/Syscall/Error/Mux.antt =====
-- What survives the encoding of a result in one machine word.
use origel.Base.{length, ℕ, ◌-◌, ◌%◌, ◌^◌, ◌≤◌, ◌<◌, ◌≡◌, refl, arith}
use origel.Syscall.Error.{ok, err, mux, demux}
use origel.Syscall.Error.Text.{str_error}

length-str_error : length str_error ≡ 132
unfolding str_error
length-str_error = refl

-- An error number with a message survives `mux` and `demux`.
pub demux-mux_err : (e : ℕ) → 1 ≤ e → e < 132 → demux (mux (err e)) ≡ err e
unfolding mux demux
demux-mux_err e h k = ground (arith, length-str_error)

-- A successful value survives `mux` and `demux` exactly when its low 32 bits are not those of the
-- negation of an error number with a message; otherwise it comes back as that error.
pub demux-mux_ok :
    (v : ℕ)
    → (v % 2 ^ 32 ≤ 2 ^ 32 - 132 → demux (mux (ok v)) ≡ ok v)
      × (2 ^ 32 - 132 < v % 2 ^ 32 → demux (mux (ok v)) ≡ err (2 ^ 32 - v % 2 ^ 32))
unfolding mux demux
demux-mux_ok v = (λ h. ground (arith, length-str_error), λ h. ground (arith, length-str_error))
