-- ===== src/Env/Tests.antt =====
-- Runs of the environment scheme, and the theorems about it at a concrete state.
use origel.Base.{ℕ, ◌≡◌, refl, true, List, [], ◌∷◌}
use origel.Base.Map.{lookup, insert, remove}
use origel.Syscall.Error.{ok}
use origel.Env.{
  Handle, EnvScheme, put_handle, open_path, open_env, dup_env, read_env, fstat_env, fsync_env,
  ftruncate_env, close_env, get_bytes, name_before, insert_variable, find_variable, list_variables,
}
use origel.Base.Text.{trim_front, trim_back}

abbrev path : List ℕ
path = b'/' ∷ b'A' ∷ b'/' ∷ []

-- The variable "A" has the value "xy", and the handle 0 stands at its second byte.
abbrev state : EnvScheme
state = record {
  next_id = 1;
  handles = (0, record { contents = 0; mode = 0x8000; seek = 1 }) ∷ [];
  vectors = (0, b'x' ∷ b'y' ∷ []) ∷ [];
  next_vector = 1;
  variables = (b'A' ∷ [], 0) ∷ [];
}

abbrev handle : Handle
handle = record { contents = 0; mode = 0x8000; seek = 1 }

abbrev empty_env : EnvScheme
empty_env = record { next_id = 0; handles = []; vectors = []; next_vector = 0; variables = [] }

opens : (open_env true path state).0 ≡ ok 1
unfolding open_env find_variable
opens = refl

shares : (read_env 1 5 (open_env true path state).1).0 ≡ ok (b'x' ∷ b'y' ∷ [])
unfolding open_env open_path trim_front trim_back find_variable read_env get_bytes lookup insert
shares = refl

creates : (open_env true path empty_env).1.variables ≡ (b'A' ∷ [], 0) ∷ []
unfolding open_env open_path trim_front trim_back find_variable insert_variable name_before
creates = refl

lists : (read_env 1 9 (open_env true [] state).1).0 ≡ ok (b'A' ∷ b'=' ∷ b'x' ∷ b'y' ∷ [])
unfolding open_env open_path trim_front trim_back list_variables read_env get_bytes lookup insert
lists = refl

sizes : (fstat_env 0 (ftruncate_env 0 5 state).1).0 ≡ ok (0x8000, 5)
unfolding fstat_env ftruncate_env lookup insert
sizes = refl

duplicates : (read_env 1 9 (dup_env 0 state).1).0 ≡ ok (b'y' ∷ [])
unfolding dup_env read_env get_bytes lookup insert
duplicates = refl

closes : ((fsync_env 0 state).0 ≡ ok 0) × ((close_env 0 state).1.handles ≡ [])
unfolding fsync_env close_env lookup remove
closes = (refl, refl)

abbrev far : EnvScheme
far = put_handle 0 (record handle { seek = 9 }) state
