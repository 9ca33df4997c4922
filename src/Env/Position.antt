-- ===== src/Env/Position.antt =====
-- kernel/scheme/env.rs: what a handle's calls do to its position and to the bytes of its variable.
use origel.Base.{
  Option-cases, length, take, drop, length-append, length-take, ℕ, ◌+◌, ◌≤◌, ◌≡◌, refl, ap, ◌∙◌,
  ◌⊎◌, inl, inr, some, List, [], ◌∷◌, ◌++◌, arith,
}
use origel.Base.Map.{lookup, insert, lookup-insert}
use origel.Syscall.Error.{ok, err, einval}
use origel.Syscall.Flag.{seek_set}
use origel.Env.{
  Handle, EnvScheme, vector, get_bytes, put_bytes, read_env, write_env, new_seek, seek_env,
  put_handle,
}
use origel.Env.Bytes.{get_bytes-take, put_bytes-within, put_bytes-behind}

take-append_self : (xs ys zs : List ℕ) → take (length ys) (drop (length xs) (xs ++ (ys ++ zs))) ≡ ys
take-append_self [] [] zs = refl
take-append_self [] (y ∷ ys) zs = ap (λ rest. y ∷ rest) (take-append_self [] ys zs)
take-append_self (x ∷ xs) ys zs = take-append_self xs ys zs

take-written :
    (seek : ℕ) (buffer bytes : List ℕ)
    → seek ≤ length bytes
    → get_bytes (length buffer) seek (put_bytes seek buffer bytes) ≡ buffer
take-written seek buffer bytes h =
    get_bytes-take (length buffer) seek (put_bytes seek buffer bytes)
    ∙ ap (λ list. take (length buffer) (drop seek list)) (put_bytes-within seek buffer bytes h)
    ∙ ap
        (λ n.
          take (length buffer)
            (drop n (take seek bytes ++ (buffer ++ drop (length buffer) (drop seek bytes)))))
        (omega (arith, length-take seek bytes))
    ∙ take-append_self (take seek bytes) buffer (drop (length buffer) (drop seek bytes))

long_enough :
    (seek : ℕ) (buffer bytes : List ℕ)
    → seek ≤ length bytes
    → seek ≤ length (put_bytes seek buffer bytes)
long_enough seek buffer bytes h =
    let rest = buffer ++ drop (length buffer) (drop seek bytes) in
    omega (
      arith,
      ap length (put_bytes-within seek buffer bytes h),
      length-append (take seek bytes) rest,
      length-take seek bytes,
    )

new_seek-le : (len seek pos whence p : ℕ) → new_seek len seek pos whence ≡ some p → p ≤ len
unfolding new_seek
new_seek-le len seek pos whence p e = ground arith

module _ (id : ℕ) (h : Handle) (s : EnvScheme) (e : lookup id s.handles ≡ some h) where
  seek-start :
      (pos : ℕ)
      → pos ≤ length (vector h.contents s)
      → seek_env id pos seek_set s ≡ (ok pos, put_handle id (record h { seek = pos }) s)
  unfolding seek_env new_seek
  seek-start pos k = ground arith

  read-got : (n : ℕ) → (read_env id n s).0 ≡ ok (get_bytes n h.seek (vector h.contents s))
  unfolding read_env
  read-got n = ground arith

  -- `seek` fails with `EINVAL` and changes nothing, or it sets the position that it returns, which
  -- does not lie behind the end of the variable.
  pub seek_env_lem :
      (pos whence : ℕ)
      → (seek_env id pos whence s ≡ (err einval, s))
        ⊎ ((seek : ℕ) × (seek_env id pos whence s
              ≡ (ok seek, put_handle id (record h { seek = seek }) s))
            × (seek ≤ length (vector h.contents s)))
  unfolding seek_env
  seek_env_lem pos whence =
      elim (Option-cases (new_seek (length (vector h.contents s)) h.seek pos whence)) [
        | inl n ↦ inl (ground arith)
        | inr (seek, q) ↦ inr (
          seek,
          ground arith,
          new_seek-le (length (vector h.contents s)) h.seek pos whence seek q,
        )
      ]

module _ (id : ℕ) (h : Handle) (s : EnvScheme) (e : lookup id s.handles ≡ some h)
    (buffer : List ℕ) where
  abbrev moved : Handle
  moved = record h { seek = h.seek + length buffer }

  abbrev written : EnvScheme
  written = record (put_handle id moved s) {
    vectors = insert h.contents (put_bytes h.seek buffer (vector h.contents s)) s.vectors;
  }

  write-written : write_env id buffer s ≡ (ok (length buffer), written)
  unfolding write_env
  write-written = ground arith

  vector-written : vector h.contents written ≡ put_bytes h.seek buffer (vector h.contents s)
  vector-written = ground (
    arith,
    lookup-insert h.contents h.contents (put_bytes h.seek buffer (vector h.contents s)) s.vectors,
  )

  handle-written : lookup id written.handles ≡ some moved
  handle-written = ground (arith, lookup-insert id id moved s.handles)

  -- What is written at a position within a variable is read there again: after `write`, a `seek` back
  -- to the position returns this position, and a `read` of as many bytes gives the bytes written.
  pub read-seek-write :
      h.seek ≤ length (vector h.contents s)
      → let (_, s1) = write_env id buffer s in
        let (position, s2) = seek_env id h.seek seek_set s1 in
        (position ≡ ok h.seek) × ((read_env id (length buffer) s2).0 ≡ ok buffer)
  read-seek-write within =
      let bytes = vector h.contents s in
      let there : h.seek ≤ length (vector h.contents written) =
        rw vector-written (long_enough h.seek buffer bytes within) in
      let back = record moved { seek = h.seek } in
      let s2 = put_handle id back written in
      let sought = seek-start id moved written handle-written h.seek there in
      let handle : lookup id s2.handles ≡ some back =
        ground (arith, lookup-insert id id back written.handles) in
      let got = read-got id back s2 handle (length buffer) in
      rw write-written (
        rw sought (
          refl,
          got
              ∙ ap ok (
                  ap (get_bytes (length buffer) h.seek) vector-written
                  ∙ take-written h.seek buffer bytes within),
        ))

  -- A `write` at a position behind the end of the variable, as a truncation through another handle
  -- leaves it, stores its bytes at the end and not at the position; the position moves on all the
  -- same.
  pub write_behind :
      length (vector h.contents s) ≤ h.seek
      → let (_, s1) = write_env id buffer s in
        (vector h.contents s1 ≡ vector h.contents s ++ buffer)
        × (lookup id s1.handles ≡ some (record h { seek = h.seek + length buffer }))
  write_behind behind =
      rw write-written (
        vector-written ∙ put_bytes-behind h.seek buffer (vector h.contents s) behind,
        handle-written,
      )
