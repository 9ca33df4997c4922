-- ===== src/Privilege.antt =====
-- kernel/syscall/privilege.rs: the user, group and namespace ids of the running context. Ids of users
-- and groups are `u32`, those of namespaces `usize`.
pub mod Drop
mod Tests
use origel.Base.{◌==◌, if◌then◌else◌, ℕ, ◌-◌, ◌^◌, Bool, ◌&&◌, ◌||◌, none, some, List}
use origel.Base.Map.{lookup, insert}
use origel.Syscall.Error.{Result, ok, err, eperm, esrch, eacces}
use origel.Context.{Context}
use origel.Context.Machine.{Machine}
use origel.SchemeList.{SchemeList, Run, returns, make_ns}

-- The value that stands for -1, which leaves an id as it is.
abbrev pub keep32 : ℕ
keep32 = 2 ^ 32 - 1

abbrev pub keep64 : ℕ
keep64 = 2 ^ 64 - 1

-- The condition of the calls for one id: the caller's effective user, the value for -1, the two ids
-- that the context has, and the one wanted.
abbrev pub allowed : ℕ → ℕ → ℕ → ℕ → ℕ → Bool
allowed euid keep effective real id = euid == 0 || id == keep || id == effective || id == real

abbrev pub chosen : ℕ → ℕ → ℕ → ℕ
chosen keep old id = if id == keep then old else id

-- A call reads or writes the context that runs.
abbrev pub read_current : (Context → ℕ) → Machine → Result ℕ
read_current f m = elim (lookup m.current m.contexts) [ none ↦ err esrch | some c ↦ ok (f c) ]

abbrev pub write_current : (Context → Result ℕ × Context) → Machine → Result ℕ × Machine
write_current f m = elim (lookup m.current m.contexts) [
  | none ↦ (err esrch, m)
  | some c ↦ ((f c).0, record m { contexts = insert m.current (f c).1 m.contexts })
]

abbrev pub getegid : Machine → Result ℕ
getegid m = read_current (λ c. c.egid) m

abbrev pub getens : Machine → Result ℕ
getens m = read_current (λ c. c.ens) m

abbrev pub geteuid : Machine → Result ℕ
geteuid m = read_current (λ c. c.euid) m

abbrev pub getgid : Machine → Result ℕ
getgid m = read_current (λ c. c.rgid) m

abbrev pub getns : Machine → Result ℕ
getns m = read_current (λ c. c.rns) m

abbrev pub getuid : Machine → Result ℕ
getuid m = read_current (λ c. c.ruid) m

-- `setregid` on the context that runs.
pub change_gids : ℕ → ℕ → Context → Result ℕ × Context
change_gids rgid egid c =
    if allowed c.euid keep32 c.egid c.rgid rgid && allowed c.euid keep32 c.egid c.rgid egid
    then (ok 0, record c { rgid = chosen keep32 c.rgid rgid; egid = chosen keep32 c.egid egid })
    else (err eperm, c)

pub setregid : ℕ → ℕ → Machine → Result ℕ × Machine
unfolding change_gids
setregid rgid egid m = write_current (λ c. change_gids rgid egid c) m

-- `setrens` on the context that runs.
pub change_namespaces : ℕ → ℕ → Context → Result ℕ × Context
change_namespaces rns ens c =
    if allowed c.euid keep64 c.ens c.rns rns && allowed c.euid keep64 c.ens c.rns ens
    then (ok 0, record c { rns = chosen keep64 c.rns rns; ens = chosen keep64 c.ens ens })
    else (err eperm, c)

pub setrens : ℕ → ℕ → Machine → Result ℕ × Machine
unfolding change_namespaces
setrens rns ens m = write_current (λ c. change_namespaces rns ens c) m

-- `setreuid` on the context that runs.
pub change_uids : ℕ → ℕ → Context → Result ℕ × Context
change_uids ruid euid c =
    if allowed c.euid keep32 c.euid c.ruid ruid && allowed c.euid keep32 c.euid c.ruid euid
    then (ok 0, record c { ruid = chosen keep32 c.ruid ruid; euid = chosen keep32 c.euid euid })
    else (err eperm, c)

pub setreuid : ℕ → ℕ → Machine → Result ℕ × Machine
unfolding change_uids
setreuid ruid euid m = write_current (λ c. change_uids ruid euid c) m

-- `mkns`, with the names that `validate_slice` has let through.
pub mkns : List (List ℕ) → Machine → SchemeList → Run ℕ
mkns names m l = elim (lookup m.current m.contexts) [
  | none ↦ returns (err esrch) l
  | some c ↦ if c.euid == 0 then make_ns c.ens names l else returns (err eacces) l
]
