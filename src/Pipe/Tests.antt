-- ===== src/Pipe/Tests.antt =====
-- Runs of the pipe scheme, and the theorems about it at concrete states.
use origel.Base.{ℕ, ◌≡◌, refl, false, none, some, List, [], ◌∷◌, ◌++◌, arith}
use origel.Base.Map.{lookup, insert}
use origel.Context.{Context, runnable}
use origel.Context.Machine.{Machine}
use origel.Syscall.Error.{err}
use origel.Syscall.Flag.{o_cloexec}
use origel.Pipe.{Pipes, PipeRead, PipeWrite, bytes, pipe, dup, dup_read, dup_flags}
use origel.Pipe.Fifo.{Call, pipes, reads, writes, closes, run, pipe_fifo}

abbrev shell : Context
shell = record {
  id = 1;
  ppid = 0;
  ruid = 0;
  rgid = 0;
  rns = 0;
  euid = 0;
  egid = 0;
  ens = 0;
  status = runnable;
  cpu_id = none;
  vfork = false;
  cwd = [];
  files = [];
}

abbrev machine : Machine
machine = record { contexts = (1, shell) ∷ []; current = 1; cpu = 0; interrupts = [] }

abbrev reader : PipeRead
reader = record { flags = 0; condition = 0; vec = 0 }

abbrev writer : PipeWrite
writer = record { flags = 0; condition = 0; vec = some 0 }

-- A pipe whose ends are 0 and 1, with these bytes in it.
abbrev holding : List ℕ → Pipes
holding bs = record {
  next_id = 2;
  reads = (0, reader) ∷ [];
  writes = (1, writer) ∷ [];
  vecs = (0, bs) ∷ [];
  conditions = (0, []) ∷ [];
}

abbrev none_open : Pipes
none_open = record { next_id = 0; reads = []; writes = []; vecs = []; conditions = [] }

first_pipe : pipe 0 none_open ≡ ((0, 1), holding [])
unfolding pipe insert
first_pipe = refl

-- A read end that is not to outlive `exec` is not handed on by `dup`.
dup_exec : (dup 0 (b'e' ∷ b'x' ∷ b'e' ∷ b'c' ∷ []) (pipe o_cloexec none_open).1).0 ≡ err 9
unfolding dup dup_read dup_flags pipe insert lookup
dup_exec = refl

abbrev history : List Call
history = writes 1 (8 ∷ 9 ∷ []) ∷ reads 0 1 ∷ pipes 0 ∷ closes 1 ∷ reads 0 4 ∷ []

pipe_fifo_example :
    let (ins, outs, p', m') = run 0 history (holding (7 ∷ [])) machine in
    outs ++ bytes 0 p' ≡ bytes 0 (holding (7 ∷ [])) ++ ins
pipe_fifo_example = pipe_fifo 0 history (holding (7 ∷ [])) machine (omega arith) (omega arith)
