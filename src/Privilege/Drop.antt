-- ===== src/Privilege/Drop.antt =====
-- kernel/syscall/privilege.rs: what a context without the effective user 0 can reach.
use origel.Base.{ℕ, ◌≡◌, refl, ◌∙◌, ◌≢◌, ◌⊎◌, inl, inr, some, List, [], ◌∷◌, arith}
use origel.Base.Map.{lookup, lookup-insert}
use origel.Syscall.Error.{Result, ok, err, eperm}
use origel.Context.{Context}
use origel.Context.Machine.{Machine}
use origel.Privilege.{change_gids, setregid, change_namespaces, setrens, change_uids, setreuid}

-- The calls that change ids.
pub data Call : Type 0 where
  regid rens reuid : ℕ → ℕ → Call

pub call : Call → Machine → Result ℕ × Machine
unfolding setregid setrens setreuid
call (regid r e) m = setregid r e m
call (rens r e) m = setrens r e m
call (reuid r e) m = setreuid r e m

-- A program of calls by the context that runs.
pub calls : List Call → Machine → Machine
unfolding call
calls [] m = m
calls (c ∷ cs) m = calls cs (call c m).1

-- One of two values.
abbrev pub OneOf : ℕ → ℕ → ℕ → Type 0
OneOf a b x = (x ≡ a) ⊎ (x ≡ b)

-- What a context that is not privileged may become of another one: its ids are among those that the
-- other had, and it is not privileged.
pub record Within (c c' : Context) : Type 0 where
  pub ruid : OneOf c.ruid c.euid c'.ruid
  pub euid : OneOf c.ruid c.euid c'.euid
  pub rgid : OneOf c.rgid c.egid c'.rgid
  pub egid : OneOf c.rgid c.egid c'.egid
  pub rns : OneOf c.rns c.ens c'.rns
  pub ens : OneOf c.rns c.ens c'.ens
  pub id : c'.id ≡ c.id
  pub files : c'.files ≡ c.files

Within-refl : (c : Context) → Within c c
Within-refl c = record {
  ruid = inl refl;
  euid = inr refl;
  rgid = inl refl;
  egid = inr refl;
  rns = inl refl;
  ens = inr refl;
  id = refl;
  files = refl;
}

oneof_trans : (a b a' b' x : ℕ) → OneOf a b a' → OneOf a b b' → OneOf a' b' x → OneOf a b x
oneof_trans a b a' b' x h k l = ground arith

Within-trans : (c c' c'' : Context) → Within c c' → Within c' c'' → Within c c''
Within-trans c c' c'' h k = record {
  ruid = oneof_trans c.ruid c.euid c'.ruid c'.euid c''.ruid h.ruid h.euid k.ruid;
  euid = oneof_trans c.ruid c.euid c'.ruid c'.euid c''.euid h.ruid h.euid k.euid;
  rgid = oneof_trans c.rgid c.egid c'.rgid c'.egid c''.rgid h.rgid h.egid k.rgid;
  egid = oneof_trans c.rgid c.egid c'.rgid c'.egid c''.egid h.rgid h.egid k.egid;
  rns = oneof_trans c.rns c.ens c'.rns c'.ens c''.rns h.rns h.ens k.rns;
  ens = oneof_trans c.rns c.ens c'.rns c'.ens c''.ens h.rns h.ens k.ens;
  id = k.id ∙ h.id;
  files = k.files ∙ h.files;
}

change_gids-Within : (r e : ℕ) (c : Context) → c.euid ≢ 0 → Within c (change_gids r e c).1
unfolding change_gids
change_gids-Within r e c h = record {
  ruid = ground arith;
  euid = ground arith;
  rgid = ground arith;
  egid = ground arith;
  rns = ground arith;
  ens = ground arith;
  id = ground arith;
  files = ground arith;
}

change_namespaces-Within :
    (r e : ℕ) (c : Context) → c.euid ≢ 0 → Within c (change_namespaces r e c).1
unfolding change_namespaces
change_namespaces-Within r e c h = record {
  ruid = ground arith;
  euid = ground arith;
  rgid = ground arith;
  egid = ground arith;
  rns = ground arith;
  ens = ground arith;
  id = ground arith;
  files = ground arith;
}

change_uids-Within : (r e : ℕ) (c : Context) → c.euid ≢ 0 → Within c (change_uids r e c).1
unfolding change_uids
change_uids-Within r e c h = record {
  ruid = ground arith;
  euid = ground arith;
  rgid = ground arith;
  egid = ground arith;
  rns = ground arith;
  ens = ground arith;
  id = ground arith;
  files = ground arith;
}

-- The running context after a call.
abbrev changed : Call → Context → Context
unfolding change_gids change_namespaces change_uids
changed (regid r e) c = (change_gids r e c).1
changed (rens r e) c = (change_namespaces r e c).1
changed (reuid r e) c = (change_uids r e c).1

changed-Within : (k : Call) (c : Context) → c.euid ≢ 0 → Within c (changed k c)
unfolding changed
changed-Within (regid r e) c h = change_gids-Within r e c h
changed-Within (rens r e) c h = change_namespaces-Within r e c h
changed-Within (reuid r e) c h = change_uids-Within r e c h

call-current :
    (k : Call) (m : Machine) (c : Context)
    → lookup m.current m.contexts ≡ some c
    → (lookup m.current (call k m).1.contexts ≡ some (changed k c))
      × ((call k m).1.current ≡ m.current)
unfolding call setregid setrens setreuid changed
call-current (regid r e) m c h = (
  ground (arith, lookup-insert m.current m.current (change_gids r e c).1 m.contexts),
  ground arith,
)
call-current (rens r e) m c h = (
  ground (arith, lookup-insert m.current m.current (change_namespaces r e c).1 m.contexts),
  ground arith,
)
call-current (reuid r e) m c h = (
  ground (arith, lookup-insert m.current m.current (change_uids r e c).1 m.contexts),
  ground arith,
)

-- Whatever calls of `setregid`, `setrens` and `setreuid`, one after another, a context makes whose real and
-- effective users are not 0: it still runs, its users are not 0, its users, groups and namespaces are among
-- those that it had before, and its open files are the same. These calls do not take dropped privileges back.
pub calls-Within :
    (ks : List Call) (m : Machine) (c : Context)
    → lookup m.current m.contexts ≡ some c
    → c.ruid ≢ 0
    → c.euid ≢ 0
    → (c' : Context) × (lookup m.current (calls ks m).contexts ≡ some c')
      × (c'.ruid ≢ 0)
      × (c'.euid ≢ 0)
      × Within c c'
unfolding calls
calls-Within [] m c e r h = (c, e, r, h, Within-refl c)
calls-Within (k ∷ ks) m c e r h =
    let (e', same) = call-current k m c e in
    let w = changed-Within k c h in
    let (c', f, r', h', w') =
      calls-Within ks (call k m).1 (changed k c) (ground arith) (ground (arith, w.ruid))
        (ground (arith, w.euid)) in
    (c', ground arith, r', h', Within-trans c (changed k c) c' w w')

-- `setreuid` either sets the users that it is asked for, where they are not -1, and returns 0, or it
-- returns `EPERM` and changes nothing; the effective user 0 is never refused.
pub change_uids_lem :
    (ruid euid : ℕ) (c : Context)
    → ((c.euid ≡ 0) → (change_uids ruid euid c).0 ≡ ok 0)
      × ((change_uids ruid euid c ≡ (err eperm, c))
          ⊎ (((change_uids ruid euid c).0 ≡ ok 0)
              × ((ruid ≢ 4294967295) → (change_uids ruid euid c).1.ruid ≡ ruid)
              × ((euid ≢ 4294967295) → (change_uids ruid euid c).1.euid ≡ euid)))
unfolding change_uids
change_uids_lem ruid euid c = (ground arith, ground arith)
