-- ===== src/Lib.antt =====
-- Verification library of the Rust sources of the system: the kernel's contexts, waiting objects,
-- pipes, environment, scheme list, ids and futexes, its calls on files and processes, its events, and
-- the schemes in other contexts; the physical frame allocator and the calls for drivers; the error
-- numbers of the system call interface; the file system RedoxFS; and the daemon that serves TCP, with the
-- packets that it sends.
--
-- A system call enters the kernel, which finds the scheme of a path in the scheme list, and passes the
-- call to it. A kernel scheme such as `pipe:` keeps its state in tables under locks, and puts the
-- calling context to sleep on a waiting object until another context wakes it. A user scheme, such as
-- RedoxFS, gets the call as a packet, and its results travel back as one word.
--
-- The files, with the sources they model:
--   Base        names that all modules share: Boolean tests, lists, maps as association lists,
--               the scan for a free key, and the parts of a text.
--   Syscall     syscall/src: `Error::mux`, `demux` and `text` with the table of messages, error
--               numbers and flags; `Scheme::handle` with the packets and call numbers.
--   Context     kernel/context/context.rs and file.rs: `Context`, `canonicalize`, `block`, `unblock`,
--               `add_file`, `get_file`, `remove_file`. Context/Machine: kernel/context/list.rs, the
--               list of the contexts, `create` and `delete` for `new_context` and `remove`.
--   Sync        kernel/sync: `notify` and `wait` of `WaitCondition`; `WaitQueue`; `WaitMap`, whose
--               calls have `_key`, `_any` and `_all` in their names.
--   Pipe        kernel/scheme/pipe.rs: the calls of `PipeScheme`, and what `PipeRead` and
--               `PipeWrite` do in them.
--   SchemeList  kernel/scheme/mod.rs: `insert_scheme` for `insert`, `new_ns`, `make_ns`, `get_name`.
--   Privilege   kernel/syscall/privilege.rs: the calls that read and set users, groups and namespaces.
--   Futex       kernel/syscall/futex.rs: the three operations and their loops.
--   Env         kernel/scheme/env.rs: the calls of `EnvScheme`, with `_env` in their names.
--   FileCalls   kernel/syscall/fs.rs: the calls on files, on top of an interface of the schemes, with
--               `open_file` for `open`; `funmap` is in Grants.
--   Process     kernel/syscall/process.rs: `exit`, `waitpid`, `kill`, `getpid`.
--   Driver      kernel/syscall/driver.rs: the calls for physical memory.
--   UserScheme  kernel/scheme/user.rs: `UserInner`, and the calls of `UserScheme` in two parts, with
--               `begin_` and `finish_` in their names, before and after the wait for the answer.
--   Grants      kernel/context/memory.rs and the loops over grants in user.rs and fs.rs.
--   Events      kernel/context/event.rs: `register`, `unregister`, `trigger`; kernel/scheme/event.rs:
--               the calls of `EventScheme`, with `_events` in their names.
--   Memory      arch/x86_64/src/memory: frames, areas and `AreaFrameAllocator`.
--   RedoxFs     schemes/redoxfs/src: extents, nodes, and the calls of `FileSystem` on nodes.
--               RedoxFs/Bytes: its `node_extents` and `read_node`, with the bytes of the disk.
--               RedoxFs/Resource: schemes/redoxfs/scheme/resource.rs, the calls of `DirResource` and
--               `FileResource`, with `_dir` and `_file` in their names.
--               RedoxFs/Scheme: schemes/redoxfs/scheme/scheme.rs, `open` as `open_resource` and the calls
--               on paths; Scheme/Paths: `path_nodes` of `FileSystem`; Scheme/Table: `FileScheme`, whose
--               calls have `_call` at the end of their names.
--   Net         Net/Wire: programs/netutils/src/lib/lib.rs, the headers, the packets and the checksum.
--               Net/Address: lib/ip/addr.rs, and `parse_socket` of the daemon. Net/Tcpd:
--               schemes/tcpd/src/main.rs: `Handle` and `Tcpd`; the calls of its scheme, with `_tcp` in
--               their names (Open, Calls); `tcp_event` (Receive) and `scheme_event` (Serve).
-- The children of a module hold its theorems, named for what they are about, and its tests.
--
-- How state is modelled. An object under a lock is a record, and a call is a function from it to the
-- result and the object as the call leaves it. The contexts are a map in a `Machine`, with the running
-- one, the processor's number, and the interrupts that it has sent. Objects that are shared by
-- reference (the buffer and the waiting list of a pipe) stand in tables under a number. A call that
-- waits ends early, with `sleeps`; it starts again when its context is woken. A panic is a result too.
-- Where a lock is released within a call, and it matters, the parts are steps of a relation
-- (Sync/Race). Numbers are the natural numbers; a sum that wraps in the source has its `% 2 ^ w`.
--
-- Loops and fuel. A loop over a list is recursion on the list. The scan for a free id and the loop of
-- `FUTEX_WAKE` have one round more than the list has entries, which is enough (Base/Map/Free,
-- Futex/Calls). `allocate_frames` calls itself: fuel that runs out is the result `loops`, four
-- rounds are enough for one frame, and no number is enough for some requests of more. The calls on chains
-- of nodes have fuel for the length of the chain; fuel that runs out is `loops`. The carries of a checksum
-- are folded with the sum as fuel, since a round lowers it; a number is its own fuel for its digits.
--
-- What a component uses of another one: Process works on the state of FileCalls, and both reach the
-- schemes through the record `Schemes`; the laws that a theorem needs of it are records too
-- (`LeavesTables`, `LeavesContexts`). UserScheme makes the packets that Syscall/Scheme decodes, and uses
-- Sync for its queues, Events for its notices and Grants for its buffers, as Driver does.
--
-- Not modelled: page tables, context switching and the assembly around it, interrupts and devices,
-- `clone`, `exec` and `brk`, the root scheme and the schemes without state, `write_node` of RedoxFS,
-- errors of its disk, the other network daemons (ethernetd, ipd, udpd), the programs and the drivers. The locks are not modelled, save in Sync/Race. Code of other projects, such as the
-- libraries under rust/ and libc-artifacts/, is left out.
pub mod Base
pub mod Syscall
pub mod Context
pub mod Sync
pub mod Pipe
pub mod SchemeList
pub mod Memory
pub mod Net
pub mod Privilege
pub mod Futex
pub mod FileCalls
pub mod Process
pub mod Events
pub mod Grants
pub mod Driver
pub mod UserScheme
pub mod Env
pub mod RedoxFs
