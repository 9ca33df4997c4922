-- ===== src/FileCalls.antt =====
-- kernel/syscall/fs.rs: the calls on files, which find the scheme of a path or of an open file and pass
-- the call on to it. What the schemes do is an interface of this module; a missing namespace and an
-- empty working directory are a panic, as in the parts that the calls use.
pub mod Table
pub mod Descriptors
pub mod Quiet
pub mod Registered
mod Tests
use origel.Base.{
  leb, ◌==◌, if◌then◌else◌, take, drop, ℕ, ◌+◌, bit_and, bit_or, Option, none, some, List, [], map,
}
use origel.Base.Map.{Map, lookup, insert}
use origel.Syscall.Error.{Result, ok, err, demux, esrch, ebadf, efault, emfile, enodev, enotdir}
use origel.Syscall.Flag.{mode_dir, mode_file, o_rdonly, o_directory}
use origel.Syscall.Number.{sys_fstat}
use origel.Syscall.Scheme.{Packet, handle}
use origel.Syscall.Scheme as Scheme
use origel.Context.{
  File, Context, position, is_colon, canonicalize, add_file, get_file, remove_file,
}
use origel.Context.Machine.{Machine}
use origel.SchemeList.{SchemeList, Provider, get_name}
use origel.Events.{Registry, register, unregister}

-- The state of the kernel: `state` is that of the schemes and of the memory.
pub record Kernel {ℓ} (S : Type ℓ) : Type ℓ where
  pub machine : Machine
  pub schemes : SchemeList
  pub registry : Registry
  pub state : S

-- The calls of `Scheme` that the kernel makes itself, with the bytes of their paths.
pub data Request : Type 0 where
  open_path : List ℕ → (flags uid gid : ℕ) → Request
  chmod_path : List ℕ → (mode uid gid : ℕ) → Request
  rmdir_path unlink_path : List ℕ → (uid gid : ℕ) → Request
  dup_file : ℕ → List ℕ → Request
  fevent_file : (number flags : ℕ) → Request
  close_file : ℕ → Request

-- The schemes, by id: the calls above, those of a packet, `pipe` and the id of its scheme; and the
-- word with `st_mode` that `chdir` finds in its `Stat`, which is at an address.
pub record Schemes {ℓ} (S : Type ℓ) : Type ℓ where
  pub request : ℕ → Request → Kernel S → Result ℕ × Kernel S
  pub call : ℕ → Scheme.Call → Kernel S → Result ℕ × Kernel S
  pub pipe : ℕ → Kernel S → (ℕ × ℕ) × Kernel S
  pub pipe_scheme_id : ℕ
  pub stat_address : ℕ
  pub stat_mode : Kernel S → ℕ

-- A call returns, or the kernel panics.
pub data Ended {ℓ} (S : Type ℓ) : Type ℓ where
  returns : Result ℕ → Kernel S → Ended S
  panics : Ended S

abbrev pub ended {ℓ} : {S : Type ℓ} → Result ℕ × Kernel S → Ended S
ended (r, k) = returns r k

abbrev pub running {ℓ} : {S : Type ℓ} → Kernel S → Option Context
running k = lookup k.machine.current k.machine.contexts

abbrev pub with_context {ℓ} : {S : Type ℓ} → Context → Kernel S → Kernel S
with_context c k = record k {
  machine = record k.machine { contexts = insert k.machine.current c k.machine.contexts };
}

abbrev pub with_files {ℓ} : {S : Type ℓ} → Context → List (Option File) → Kernel S → Kernel S
with_files c files k = with_context (record c { files = files }) k

-- `splitn(2, ':')`: the name of the scheme and the rest, which is empty where there is none.
pub split_path : List ℕ → List ℕ × List ℕ
split_path path = elim (position is_colon path) [
  | none ↦ (path, [])
  | some i ↦ (take i path, drop (i + 1) path)
]

-- Where a path leads: to a scheme, with the rest of the path and the caller's user and group.
pub data Target : Type 0 where
  at : ℕ → List ℕ → (uid gid : ℕ) → Target
  fails : ℕ → Target
  crashes : Target

abbrev named : Context → List ℕ → Option (Option (ℕ × Provider)) → Target
named c reference none = crashes
named c reference (some none) = fails enodev
named c reference (some (some (id, _))) = at id reference c.euid c.egid

-- The first part of `open`, `chmod`, `rmdir` and `unlink`.
pub resolve {ℓ} : {S : Type ℓ} → List ℕ → Kernel S → Target
unfolding split_path
resolve path k = elim (running k) [
  | none ↦ fails esrch
  | some c ↦ elim (canonicalize c path) [
    | none ↦ crashes
    | some canon ↦
        let (name, reference) = split_path canon in
        named c reference (get_name c.ens name k.schemes)
  ]
]

-- `.ok_or(Error::new(EMFILE))` on the answer of `add_file`.
abbrev pub placed_in {ℓ} :
    {S : Type ℓ} → Context → Kernel S → Option (ℕ × List (Option File)) → Result ℕ × Kernel S
placed_in c k none = (err emfile, k)
placed_in c k (some (fd, files)) = (ok fd, with_files c files k)

abbrev pub add_from {ℓ} : {S : Type ℓ} → File → Kernel S → Option Context → Result ℕ × Kernel S
add_from f k none = (err esrch, k)
add_from f k (some c) = placed_in c k (add_file f c.files)

-- `context.add_file(File { scheme, number, event: None })`
pub add {ℓ} : {S : Type ℓ} → ℕ → ℕ → Kernel S → Result ℕ × Kernel S
add scheme number k =
    add_from (record { scheme = scheme; number = number; event = none }) k (running k)

abbrev pub file_of : ℕ → Option Context → Result (Context × File)
file_of fd none = err esrch
file_of fd (some c) = elim (get_file fd c.files) [ none ↦ err ebadf | some f ↦ ok (c, f) ]

-- `context.get_file(fd)`
pub find_file {ℓ} : {S : Type ℓ} → ℕ → Kernel S → Result (Context × File)
find_file fd k = file_of fd (running k)

-- The rest of a call on an open file, where its scheme is in the list.
abbrev pub in_scheme {ℓ} :
    {S : Type ℓ} → Option Provider → Kernel S → Result ℕ × Kernel S → Result ℕ × Kernel S
in_scheme none k r = (err ebadf, k)
in_scheme (some _) k r = r

-- An event of a file that is closed leaves the registry.
abbrev pub forget_event {ℓ} : {S : Type ℓ} → (fd scheme : ℕ) → Option ℕ → Kernel S → Kernel S
forget_event fd scheme none k = k
forget_event fd scheme (some event) k = record k {
  registry = unregister k.machine.current fd scheme event k.registry;
}

abbrev pub forget {ℓ} : {S : Type ℓ} → ℕ → File → Kernel S → Kernel S
forget fd f k = forget_event fd f.scheme f.event k

module _ {ℓ} {S : Type ℓ} (schemes : Schemes S) where
  -- The packet of `file_op` and its answer.
  pub answer : (a c d : ℕ) → Context → File → Kernel S → Result ℕ × Kernel S
  answer a c d context f k =
      let (p, k') =
        handle (schemes.call f.scheme)
          (record {
            id = 0;
            pid = context.id;
            uid = context.euid;
            gid = context.egid;
            a = a;
            b = f.number;
            c = c;
            d = d;
          })
          k in
      (demux p.a, k')

  abbrev pub op_on : (a c d : ℕ) → Kernel S → Result (Context × File) → Result ℕ × Kernel S
  op_on a c d k (err e) = (err e, k)
  op_on a c d k (ok (context, f)) =
      in_scheme (lookup f.scheme k.schemes.map) k (answer a c d context f k)

  -- `file_op` and its two forms for slices.
  pub file_op : (a fd c d : ℕ) → Kernel S → Result ℕ × Kernel S
  unfolding find_file answer
  file_op a fd c d k = op_on a c d k (find_file fd k)

  -- A file of a scheme gets a descriptor, if the scheme has made one.
  abbrev pub opened : ℕ → Result ℕ × Kernel S → Result ℕ × Kernel S
  opened scheme (err e, k) = (err e, k)
  opened scheme (ok number, k) = add scheme number k

  abbrev pub open_at : ℕ → Kernel S → Target → Ended S
  open_at flags k crashes = panics
  open_at flags k (fails e) = returns (err e) k
  open_at flags k (at scheme reference uid gid) =
      ended (opened scheme (schemes.request scheme (open_path reference flags uid gid) k))

  pub open_file : List ℕ → ℕ → Kernel S → Ended S
  unfolding resolve add
  open_file path flags k = open_at flags k (resolve path k)

  -- A call on a path that gives no descriptor.
  abbrev pub on_path : List ℕ → (List ℕ → ℕ → ℕ → Request) → Kernel S → Ended S
  on_path path make k = elim (resolve path k) [
    | crashes ↦ panics
    | fails e ↦ returns (err e) k
    | at scheme reference uid gid ↦ ended (schemes.request scheme (make reference uid gid) k)
  ]

  pub chmod : List ℕ → ℕ → Kernel S → Ended S
  chmod path mode k = on_path path (λ r u g. chmod_path r mode u g) k

  pub rmdir : List ℕ → Kernel S → Ended S
  rmdir path k = on_path path (λ r u g. rmdir_path r u g) k

  pub unlink : List ℕ → Kernel S → Ended S
  unlink path k = on_path path (λ r u g. unlink_path r u g) k

  -- The last part of `close`: the scheme of the file hears of it.
  unfoldable pub close_in_scheme : File → Kernel S → Result ℕ × Kernel S
  close_in_scheme f k =
      in_scheme (lookup f.scheme k.schemes.map) k (schemes.request f.scheme (close_file f.number) k)

  -- `close` after `remove_file` has handed out a file, or none.
  abbrev pub close_removed : ℕ → Option File → Kernel S → Result ℕ × Kernel S
  close_removed fd none k = (err ebadf, k)
  close_removed fd (some f) k = close_in_scheme f (forget fd f k)

  abbrev pub close_from : ℕ → Kernel S → Option Context → Result ℕ × Kernel S
  close_from fd k none = (err esrch, k)
  close_from fd k (some c) =
      let (file, files) = remove_file fd c.files in close_removed fd file (with_files c files k)

  pub close : ℕ → Kernel S → Result ℕ × Kernel S
  unfolding close_in_scheme
  close fd k = close_from fd k (running k)

  abbrev pub dup_of : List ℕ → Kernel S → Result (Context × File) → Result ℕ × Kernel S
  dup_of buf k (err e) = (err e, k)
  dup_of buf k (ok (_, f)) =
      in_scheme (lookup f.scheme k.schemes.map) k
        (opened f.scheme (schemes.request f.scheme (dup_file f.number buf) k))

  pub dup : ℕ → List ℕ → Kernel S → Result ℕ × Kernel S
  unfolding find_file add
  dup fd buf k = dup_of buf k (find_file fd k)

  -- `pipe2` behind `add_file` of the read end.
  abbrev pub add_write_end : ℕ → Result ℕ × Kernel S → Result (ℕ × ℕ) × Kernel S
  add_write_end write_id (err e, k) = (err e, k)
  add_write_end write_id (ok read_fd, k) =
      let (write, k') = add schemes.pipe_scheme_id write_id k in
      (elim write [ err e ↦ err e | ok write_fd ↦ ok (read_fd, write_fd) ], k')

  -- `pipe2` into a slice of `n` words: the two descriptors that it stores.
  pub pipe2 : ℕ → ℕ → Kernel S → Result (ℕ × ℕ) × Kernel S
  unfolding add
  pipe2 n flags k =
      if leb 2 n
      then (let ((read_id, write_id), k') = schemes.pipe flags k in
          add_write_end write_id (add schemes.pipe_scheme_id read_id k'))
      else (err efault, k)

  abbrev pub register_found :
      ℕ → File → ℕ → Kernel S → Result (Context × File) → Result ℕ × Kernel S
  register_found fd f event k (err e) = (err e, k)
  register_found fd f event k (ok _) =
      (ok 0, record k { registry = (register k.machine.current fd f.scheme event k.registry).1 })

  -- The part of `fevent` after the scheme has answered. The file whose event it sets is a copy of the
  -- one in the table, since a `File` is `Copy`.
  abbrev pub register_file : ℕ → File → Result ℕ × Kernel S → Result ℕ × Kernel S
  register_file fd f (err e, k) = (err e, k)
  register_file fd f (ok event, k) = register_found fd f event k (find_file fd k)

  -- The event that `take` takes is again that of a copy.
  abbrev pub fevent_of : ℕ → ℕ → Kernel S → Result (Context × File) → Result ℕ × Kernel S
  fevent_of fd flags k (err e) = (err e, k)
  fevent_of fd flags k (ok (_, f)) =
      let k' = forget fd f k in
      in_scheme (lookup f.scheme k'.schemes.map) k'
        (register_file fd f (schemes.request f.scheme (fevent_file f.number flags) k'))

  pub fevent : ℕ → ℕ → Kernel S → Result ℕ × Kernel S
  unfolding find_file
  fevent fd flags k = fevent_of fd flags k (find_file fd k)

  -- `getcwd` into a slice of `n` bytes: the bytes that it stores.
  pub getcwd : ℕ → Kernel S → Result (List ℕ)
  getcwd n k = elim (running k) [ none ↦ err esrch | some c ↦ ok (take n c.cwd) ]

  abbrev pub enter_from : List ℕ → Kernel S → Option Context → Ended S
  enter_from path k none = returns (err esrch) k
  enter_from path k (some c) = elim (canonicalize c path) [
    | none ↦ panics
    | some canon ↦ returns (ok 0) (with_context (record c { cwd = canon }) k)
  ]

  -- The part of `chdir` behind `close`.
  abbrev pub enter : List ℕ → Result ℕ → ℕ → Kernel S → Ended S
  enter path (err e) mode k = returns (err e) k
  enter path (ok _) mode k =
      if bit_and mode (bit_or mode_file mode_dir) == mode_dir
      then enter_from path k (running k)
      else returns (err enotdir) k

  abbrev pub chdir_opened : List ℕ → Ended S → Ended S
  chdir_opened path panics = panics
  chdir_opened path (returns (err e) k) = returns (err e) k
  chdir_opened path (returns (ok fd) k) =
      let (stat, k') = file_op sys_fstat fd schemes.stat_address Scheme.stat_size k in
      enter path stat (schemes.stat_mode k') (close fd k').1

  pub chdir : List ℕ → Kernel S → Ended S
  unfolding open_file file_op close
  chdir path k = chdir_opened path (open_file path (bit_or o_rdonly o_directory) k)
