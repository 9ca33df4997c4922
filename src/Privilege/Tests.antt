-- ===== src/Privilege/Tests.antt =====
-- Runs of the calls on ids, and the theorems about them at a concrete context.
use origel.Base.{◌≡◌, refl, ◌≢◌, false, some, [], ◌∷◌, arith}
use origel.Base.Map.{lookup}
use origel.Syscall.Error.{ok, err, eacces, eperm}
use origel.Context.{Context, runnable}
use origel.Context.Machine.{Machine}
use origel.SchemeList.{SchemeList, returns}
use origel.Privilege.{mkns, getuid, geteuid, getgid, getegid, getns, getens, setreuid}
use origel.Privilege.Drop.{regid, rens, reuid, calls, Within, calls-Within}

-- The user 1000 runs a program of the user 5.
abbrev lent : Context
lent = record {
  id = 1;
  ppid = 0;
  ruid = 1000;
  rgid = 100;
  rns = 1;
  euid = 5;
  egid = 100;
  ens = 1;
  status = runnable;
  cpu_id = some 0;
  vfork = false;
  cwd = [];
  files = [];
}

abbrev machine : Machine
machine = record { contexts = (1, lent) ∷ []; current = 1; cpu = 0; interrupts = [] }

abbrev nothing : SchemeList
nothing = record { map = []; names = []; next_ns = 0; next_id = 1 }

reads_ids :
    (getuid machine
      ∷ geteuid machine
      ∷ getgid machine
      ∷ getegid machine
      ∷ getns machine
      ∷ getens machine
      ∷ [])
    ≡ (ok 1000 ∷ ok 5 ∷ ok 100 ∷ ok 100 ∷ ok 1 ∷ ok 1 ∷ [])
unfolding lookup
reads_ids = refl

refuses_root : (setreuid 0 0 machine).0 ≡ err eperm
unfolding setreuid lookup
refuses_root = refl

refuses_namespace : mkns [] machine nothing ≡ returns (err eacces) nothing
unfolding mkns lookup
refuses_namespace = refl

calls-Within_example :
    (c' : Context) × (lookup 1
        (calls (reuid 5 1000 ∷ reuid 0 0 ∷ regid 0 100 ∷ rens 1 0 ∷ []) machine).contexts
      ≡ some c')
    × (c'.ruid ≢ 0)
    × (c'.euid ≢ 0)
    × Within lent c'
unfolding lookup
calls-Within_example =
    calls-Within (reuid 5 1000 ∷ reuid 0 0 ∷ regid 0 100 ∷ rens 1 0 ∷ []) machine lent refl
      (omega arith) (omega arith)
