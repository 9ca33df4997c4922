-- ===== src/RedoxFs/FileSystem/Allocate.antt =====
-- schemes/redoxfs/src/filesystem.rs: what `allocate` and `deallocate` do to the free blocks.
use origel.Base.{All, ℕ, ◌+◌, ◌<◌, ◌≡◌, refl, Option, none, some, List, arith}
use origel.Base.Map.{lookup, insert}
use origel.Syscall.Error.{enospc}
use origel.RedoxFs.Extents.{Extent, add64, full_blocks, take_blocks}
use origel.RedoxFs.Extents.Cover.{OneHolds, times, in_range, IsExtent, Taken, take_blocks-times}
use origel.RedoxFs.Node.{Node}
use origel.RedoxFs.FileSystem.{FileSystem, Run, ok, err, node, write_at, allocate}

-- The node that stands at a block.
abbrev pub at : ℕ → FileSystem → Option Node
at b s = lookup (add64 s.block b) s.disk

node-at : (b : ℕ) (n : Node) (s : FileSystem) → at b s ≡ some n → node b s ≡ ok n s
unfolding node
node-at b n s e = rw (e, node)

abbrev pub written : ℕ → Node → FileSystem → FileSystem
written b n s = record s { disk = insert (add64 s.block b) n s.disk }

-- What an allocation of `n` blocks may come to, from a state whose free node is `f`: a range of one extent
-- that is taken from the free blocks, or, if no extent is large enough, `ENOSPC` and no change.
pub data Allocates (n : ℕ) (f : Node) (s : FileSystem) (r : Run ℕ) : Type 0 where
  found :
      (b : ℕ) (es : List Extent)
      → r ≡ ok b (written s.header.free (record f { extents = es }) s)
      → OneHolds b n f.extents
      → ((x : ℕ) → times x f.extents ≡ in_range b n x + times x es)
      → Allocates n f s r
  full : r ≡ err enospc s → All (λ e. full_blocks e < n) f.extents → Allocates n f s r

allocate_in :
    (n : ℕ) (f : Node) (s : FileSystem) (o : Option (ℕ × List Extent))
    → at s.header.free s ≡ some f
    → take_blocks n f.extents ≡ o
    → ((x : ℕ) → Taken x n f.extents o)
    → Allocates n f s (allocate n s)
unfolding allocate node write_at
allocate_in n f s none e q t = full (ground arith) (t 0)
allocate_in n f s (some (b, es)) e q t = found b es (ground arith) (t 0).0 (λ x. (t x).1)

-- `allocate` always returns. Either it hands out a range of blocks that one extent of the free node holds as
-- a whole, and takes just these from the free ones; or no extent of the free node has that many blocks, and
-- it fails and changes nothing.
pub allocate_lem :
    (n : ℕ) (f : Node) (s : FileSystem)
    → at s.header.free s ≡ some f
    → All IsExtent f.extents
    → Allocates n f s (allocate n s)
allocate_lem n f s e v =
    allocate_in n f s (take_blocks n f.extents) e refl (λ x. take_blocks-times x n f.extents v)
