-- ===== src/FileCalls/Tests.antt =====
-- Runs of the calls on files, and the theorems about them in a concrete kernel.
use origel.Base.{ℕ, zero, suc, ◌≡◌, refl, ◌≢◌, Option, none, some, List, [], ◌∷◌, arith}
use origel.Base.Map.{lookup, insert}
use origel.Syscall.Error.{ok, err, ebadf, enodev}
use origel.Context.{
  File, new_context, position, canonicalize, fill_slot, add_file, get_file, remove_file,
}
use origel.SchemeList.{zeros, find, get_name}
use origel.FileCalls.{
  Kernel, Schemes, returns, open_file, close, dup, fevent, file_op, pipe2, chmod, rmdir, unlink,
  chdir, getcwd, split_path, resolve, find_file, add, close_in_scheme,
}
use origel.FileCalls.Table.{file_at, LeavesTables}
use origel.FileCalls.Descriptors.{open-close}
use origel.FileCalls.Quiet.{NoEvents}
use origel.FileCalls.Registered.{opens, fevents, run, close-registry}

-- A scheme that numbers its files in turn and fails no call.
abbrev counting : Schemes ℕ
counting = record {
  request = λ id r k. (ok k.state, record k { state = suc k.state });
  call = λ id c k. (ok 0, k);
  pipe = λ flags k. ((k.state, suc k.state), record k { state = suc (suc k.state) });
  pipe_scheme_id = 3;
  stat_address = 4096;
  stat_mode = λ k. 0x4000;
}

counting-LeavesTables : LeavesTables counting
counting-LeavesTables = record {
  request_table = λ id r k. refl;
  call_table = λ id c k. refl;
  pipe_table = λ flags k. refl;
  request_registry = λ id r k. refl;
}

abbrev file : ℕ → File
file number = record { scheme = 3; number = number; event = none }

abbrev kernel_with : List (Option File) → ℕ → Kernel ℕ
kernel_with files state = record {
  machine = record {
    contexts = (1, record (new_context 1) { files = files; cwd = b'z' ∷ b':' ∷ [] }) ∷ [];
    current = 1;
    cpu = 0;
    interrupts = [];
  };
  schemes = record {
    map = (3, zeros) ∷ [];
    names = (0, ((b'z' ∷ [], 3) ∷ [])) ∷ [];
    next_ns = 1;
    next_id = 4;
  };
  registry = [];
  state = state;
}

abbrev kernel : Kernel ℕ
kernel = kernel_with (some (file 5) ∷ none ∷ []) 6

abbrev path : List ℕ
path = b'z' ∷ b':' ∷ b'a' ∷ []

-- The first file, and the next one in the free slot behind it.
abbrev opened : Kernel ℕ
opened = kernel_with (some (file 5) ∷ some (file 6) ∷ []) 7

splits : split_path (b'z' ∷ b':' ∷ b'a' ∷ b':' ∷ []) ≡ (b'z' ∷ [], b'a' ∷ b':' ∷ [])
unfolding split_path position
splits = refl

opens_next : open_file counting path 0 kernel ≡ returns (ok 1) opened
unfolding open_file resolve add split_path position canonicalize find get_name lookup insert
    fill_slot add_file new_context
opens_next = refl

removes : unlink counting path kernel ≡ returns (ok 6) (kernel_with (some (file 5) ∷ none ∷ []) 7)
unfolding unlink resolve split_path position canonicalize find get_name lookup new_context
removes = refl

removes_directory : rmdir counting path kernel ≡ unlink counting path kernel
unfolding rmdir unlink resolve split_path position canonicalize find get_name lookup
removes_directory = refl

changes_mode : chmod counting path 7 kernel ≡ unlink counting path kernel
unfolding chmod unlink resolve split_path position canonicalize find get_name lookup
changes_mode = refl

dups_file : dup counting 0 [] kernel ≡ (ok 1, opened)
unfolding dup find_file get_file add lookup insert fill_slot add_file
dups_file = refl

closes_nothing : (close counting 7 kernel).0 ≡ err ebadf
unfolding close remove_file lookup
closes_nothing = refl

closes_file : close counting 1 opened ≡ (ok 7, kernel_with (some (file 5) ∷ none ∷ []) 8)
unfolding close close_in_scheme remove_file lookup insert
closes_file = refl

operates_file : file_op counting 0 1 0 0 kernel ≡ (err ebadf, kernel)
unfolding file_op find_file get_file lookup
operates_file = refl

names_directory : getcwd counting 1 kernel ≡ ok (b'z' ∷ [])
unfolding getcwd lookup
names_directory = refl

makes_pipe :
    pipe2 counting 2 0 kernel
    ≡ (ok (1, 2), kernel_with (some (file 5) ∷ some (file 6) ∷ some (file 7) ∷ []) 8)
unfolding pipe2 add lookup insert fill_slot add_file
makes_pipe = refl

registers_copy : file_at 0 (fevent counting 0 1 kernel).1 ≡ some (file 5)
unfolding fevent find_file get_file lookup insert
registers_copy = refl

enters_nothing : chdir counting (b'y' ∷ b':' ∷ []) kernel ≡ returns (err enodev) kernel
unfolding chdir open_file resolve split_path position canonicalize find get_name lookup new_context
enters_nothing = refl

open-close_example :
    (file_at 1 kernel ≡ none)
    × (file_at 1 opened ≢ none)
    × ((j : ℕ) → file_at j (close counting 1 opened).1 ≡ file_at j kernel)
open-close_example = open-close counting counting-LeavesTables path 0 1 kernel opened opens_next

kernel-NoEvents : NoEvents kernel
unfolding get_file lookup
kernel-NoEvents zero f e = ground arith
kernel-NoEvents (suc zero) f e = absurd (ground arith)
kernel-NoEvents (suc (suc fd)) f e = absurd (ground arith)

abbrev registered : Kernel ℕ
registered = run counting (opens path 0 ∷ fevents 1 1 ∷ []) kernel

close-registry_example : (close counting 1 registered).1.registry ≡ registered.registry
close-registry_example =
    close-registry counting counting-LeavesTables (opens path 0 ∷ fevents 1 1 ∷ []) 1 kernel
      kernel-NoEvents
