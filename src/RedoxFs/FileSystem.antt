-- ===== src/RedoxFs/FileSystem.antt =====
-- schemes/redoxfs/src/filesystem.rs: the calls on nodes. The disk is a map from blocks to the nodes
-- written there; a block that holds no node, and is read as one, is a fault of the model, and errors
-- of the disk itself are left out.

pub mod Allocate
pub mod Free
mod Tests
use origel.Base.{
  ltb, leb, ◌==◌, if◌then◌else◌, length, set, replicate, eq_bytes, ℕ, zero, suc, ◌-◌, ◌*◌, ◌/◌,
  bit_and, bit_or, Option, none, some, List, [], ◌∷◌, ◌++◌,
}
use origel.Base.Map.{Map, lookup, insert}
use origel.Syscall.Error.{eexist, enoent, enospc, enotdir, eisdir, enotempty}
use origel.RedoxFs.Extents.{
  Extent, add64, blocks, take_blocks, insert_range, remove_range, set_len, ensure_len, size_from,
}
use origel.RedoxFs.Node.{
  Node, Header, default_node, new_node, name_of, is_dir, mode_type, mode_file, mode_dir,
}

-- `FileSystem`
pub record FileSystem : Type 0 where
  pub disk : Map Node
  pub block : ℕ
  pub header : Header
  pub open header use {root, free}

-- A call returns, fails with an error number, reads a block that holds no node, or runs out of fuel.
pub data Run {ℓ} (A : Type ℓ) : Type ℓ where
  ok : A → FileSystem → Run A
  err : ℕ → FileSystem → Run A
  fault loops : Run A

abbrev pub Fs {ℓ} : Type ℓ → Type ℓ
Fs A = FileSystem → Run A

infixl 5 ◌>>=◌ ◌>>◌
abbrev pub ◌>>=◌ {ℓ κ} : {A : Type ℓ} {B : Type κ} → Fs A → (A → Fs B) → Fs B
◌>>=◌ m f s = elim (m s) [ ok a s' ↦ f a s' | err e s' ↦ err e s' | fault ↦ fault | loops ↦ loops ]

abbrev pub ◌>>◌ {ℓ} : {B : Type ℓ} → Fs (Unit {0}) → Fs B → Fs B
m >> k = m >>= λ _. k

abbrev pub pure {ℓ} : {A : Type ℓ} → A → Fs A
pure a s = ok a s

abbrev pub fail {ℓ} : {A : Type ℓ} → ℕ → Fs A
fail e s = err e s

abbrev pub no_fuel {ℓ} : {A : Type ℓ} → Fs A
no_fuel s = loops

-- `FileSystem::node`
unfoldable pub node : ℕ → Fs Node
node b s = elim (lookup (add64 s.block b) s.disk) [ none ↦ fault | some n ↦ ok n s ]

-- `write_at` of a node.
unfoldable pub write_at : ℕ → Node → Fs (Unit {0})
write_at b n s = ok tt (record s { disk = insert (add64 s.block b) n s.disk })

abbrev pub free_block : Fs ℕ
free_block s = ok s.header.free s

-- The free node and the root node that `FileSystem::create` writes for a disk of `bytes` bytes.
unfoldable pub fresh_free : ℕ → Node
fresh_free bytes = record (new_node mode_file (b'f' ∷ b'r' ∷ b'e' ∷ b'e' ∷ []) 0) {
  extents =
      set (replicate 15 (record { block = 0; length = 0 })) 0
        (record { block = 4; length = bytes - 4 * 512 });
}

unfoldable pub fresh_root : Node
fresh_root = new_node (bit_or mode_dir 0o755) (b'r' ∷ b'o' ∷ b'o' ∷ b't' ∷ []) 0

-- `FileSystem::create` on an empty disk of `bytes` bytes; `none` is `ENOSPC`.
pub create : ℕ → Option FileSystem
create bytes =
    if leb (4 * 512) bytes
    then some (record {
      disk = insert 1 fresh_root (insert 2 (fresh_free bytes) []);
      block = 0;
      header = record { size = bytes; root = 1; free = 2 };
    })
    else none

-- `FileSystem::allocate`
unfoldable pub allocate : ℕ → Fs ℕ
allocate length = do
  b ← free_block
  n ← node b
  (elim (take_blocks length n.extents) [
    | none ↦ fail enospc
    | some (found, es) ↦ write_at b (record n { extents = es }) >> pure found
  ])

-- `FileSystem::insert_blocks`, on fuel for the chain of `next` nodes.
unfoldable pub insert_blocks : ℕ → ℕ → ℕ → ℕ → Fs (Unit {0})
insert_blocks zero block length parent = no_fuel
insert_blocks (suc fuel) block length parent =
    if parent == 0
    then fail enospc
    else (node parent >>= λ p. elim (insert_range block length p.extents) [
      | some es ↦ write_at parent (record p { extents = es })
      | none ↦
          (if p.next == 0
            then (allocate 1 >>= λ next.
                write_at parent (record p { next = next })
                >> (write_at next default_node >> insert_blocks fuel block length next))
            else insert_blocks fuel block length p.next)
    ])

-- `FileSystem::deallocate`
unfoldable pub deallocate : ℕ → ℕ → ℕ → Fs (Unit {0})
deallocate fuel block length = free_block >>= λ b. insert_blocks fuel block length b

-- The blocks of a node's extents that are full.
unfoldable pub child_blocks : List (ℕ × ℕ) → List ℕ
child_blocks [] = []
child_blocks ((b, size) ∷ bs) =
    let rest = child_blocks bs in if leb 512 size then b ∷ rest else rest

unfoldable pub all_blocks : List Extent → List (ℕ × ℕ)
all_blocks [] = []
all_blocks (e ∷ es) = blocks e ++ all_blocks es

-- The loops of `find_node` over the children in one node.
unfoldable pub find_child : List ℕ → List ℕ → Fs (Option (ℕ × Node))
find_child name [] = pure none
find_child name (b ∷ bs) = node b >>= λ child.
    (if eq_bytes (name_of child.name) name then pure (some (b, child)) else find_child name bs)

-- `FileSystem::find_node`
unfoldable pub find_node : ℕ → List ℕ → ℕ → Fs (ℕ × Node)
find_node zero name parent = no_fuel
find_node (suc fuel) name parent =
    if parent == 0
    then fail enoent
    else (node parent >>= λ p. find_child name (child_blocks (all_blocks p.extents)) >>= λ found.
        elim found [ some child ↦ pure child | none ↦ find_node fuel name p.next ])

-- The loops of `child_nodes` over the children in one node, with those found so far.
unfoldable pub read_children : List (ℕ × Node) → List ℕ → Fs (List (ℕ × Node))
read_children found [] = pure found
read_children found (b ∷ bs) = node b >>= λ child. read_children (found ++ ((b, child) ∷ [])) bs

-- `FileSystem::child_nodes`
unfoldable pub child_nodes : ℕ → List (ℕ × Node) → ℕ → Fs (List (ℕ × Node))
child_nodes zero found parent = no_fuel
child_nodes (suc fuel) found parent =
    if parent == 0
    then pure found
    else (node parent >>= λ p.
        read_children found (child_blocks (all_blocks p.extents)) >>= λ found'.
        child_nodes fuel found' p.next)

-- `FileSystem::create_node`
unfoldable pub create_node : ℕ → ℕ → List ℕ → ℕ → Fs (ℕ × Node)
create_node fuel mode name parent s = elim (find_node fuel name parent s) [
  | ok _ s' ↦ err eexist s'
  | fault ↦ fault
  | loops ↦ loops
  | err _ s' ↦
      (allocate 1 >>= λ b.
      write_at b (new_node mode name parent)
      >> (insert_blocks fuel b 512 parent >> pure (b, new_node mode name parent)))
        s'
]

-- `FileSystem::remove_blocks`
unfoldable pub remove_blocks : ℕ → ℕ → ℕ → ℕ → Fs (Unit {0})
remove_blocks zero block length parent = no_fuel
remove_blocks (suc fuel) block length parent =
    if parent == 0
    then fail enoent
    else (node parent >>= λ p. elim (remove_range block length p.extents) [
      | none ↦ remove_blocks fuel block length p.next
      | some (es, replace) ↦
          write_at parent (record p { extents = es })
          >> ((elim replace [
            | none ↦ pure tt
            | some e ↦ insert_blocks (suc fuel) e.block e.length parent
          ])
              >> deallocate (suc fuel) block 512)
    ])

-- `FileSystem::remove_node`
unfoldable pub remove_node : ℕ → ℕ → List ℕ → ℕ → Fs (Unit {0})
remove_node fuel mode name parent = find_node fuel name parent >>= λ (b, n).
    (if bit_and n.mode mode_type == mode
      then ((if is_dir n
            then (child_nodes fuel [] b >>= λ children. elim children [
              | [] ↦ pure tt
              | _ ∷ _ ↦ fail enotempty
            ])
            else pure tt)
          >> (remove_blocks fuel b 1 parent >> write_at b default_node))
      else if is_dir n
      then fail eisdir
      else fail enotdir)

-- `FileSystem::node_ensure_len`
pub node_ensure_len : ℕ → ℕ → ℕ → Fs (Unit {0})
node_ensure_len zero block length = no_fuel
node_ensure_len (suc fuel) block length =
    if block == 0
    then fail enoent
    else (node block >>= λ n.
        let (es, left, changed) = ensure_len length n.extents in
        (if changed then write_at block (record n { extents = es }) else pure tt)
        >> (if ltb 0 left
            then (if ltb 0 n.next
                then node_ensure_len fuel n.next left
                else (allocate (add64 left 511 / 512) >>= λ new_block.
                    insert_blocks (suc fuel) new_block left block))
            else pure tt))

-- `FileSystem::node_set_len`
pub node_set_len : ℕ → ℕ → ℕ → Fs (Unit {0})
node_set_len zero block length = no_fuel
node_set_len (suc fuel) block length =
    if block == 0
    then fail enoent
    else (node block >>= λ n.
        let (es, left, changed) = set_len length n.extents in
        (if changed then write_at block (record n { extents = es }) else pure tt)
        >> (if ltb 0 n.next then node_set_len fuel n.next left else pure tt))

-- `FileSystem::node_len`
pub node_len : ℕ → ℕ → Fs ℕ
node_len zero block = no_fuel
node_len (suc fuel) block =
    if block == 0
    then fail enoent
    else (node block >>= λ n.
        (if ltb 0 n.next
          then (node_len fuel n.next >>= λ rest. pure (add64 (size_from 0 n.extents) rest))
          else pure (size_from 0 n.extents)))
