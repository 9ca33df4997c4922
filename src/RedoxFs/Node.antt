-- ===== src/RedoxFs/Node.antt =====
-- schemes/redoxfs/src/node.rs and header.rs.
mod Tests
use origel.Base.{
  ◌==◌, if◌then◌else◌, replicate, ℕ, zero, suc, ◌/◌, ◌^◌, bit_and, bit_or, Bool, ◌||◌, List, [],
  ◌∷◌,
}
use origel.RedoxFs.Extents.{Extent, empty, size_from}

-- `Node`; its name is the array of 246 bytes.
pub record Node : Type 0 where
  pub mode : ℕ
  pub uid : ℕ
  pub gid : ℕ
  pub name : List ℕ
  pub parent : ℕ
  pub next : ℕ
  pub extents : List Extent

abbrev pub mode_type : ℕ
mode_type = 0xF000

abbrev pub mode_file : ℕ
mode_file = 0x8000

abbrev pub mode_dir : ℕ
mode_dir = 0x4000

-- `Node::default`
unfoldable pub default_node : Node
default_node = record {
  mode = 0;
  uid = 0;
  gid = 0;
  name = replicate 246 0;
  parent = 0;
  next = 0;
  extents = replicate 15 empty;
}

-- The loop of `Node::new` over `n` bytes of the array.
unfoldable pub copy_name : ℕ → List ℕ → List ℕ
copy_name zero name = []
copy_name (suc n) [] = replicate (suc n) 0
copy_name (suc n) (c ∷ name) = c ∷ copy_name n name

-- `Node::new`
unfoldable pub new_node : ℕ → List ℕ → ℕ → Node
unfolding copy_name
new_node mode name parent = record {
  mode = mode;
  uid = 0;
  gid = 0;
  name = copy_name 246 name;
  parent = parent;
  next = 0;
  extents = replicate 15 empty;
}

-- `Node::name`: the bytes before the first 0.
unfoldable pub name_of : List ℕ → List ℕ
name_of [] = []
name_of (b ∷ bs) = let rest = name_of bs in if b == 0 then [] else b ∷ rest

unfoldable pub is_dir : Node → Bool
is_dir n = bit_and n.mode mode_type == mode_dir

pub is_file : Node → Bool
is_file n = bit_and n.mode mode_type == mode_file

-- `Node::permission`
abbrev grant : Bool → ℕ → ℕ → ℕ
grant test bits perm = if test then bit_or perm bits else perm

unfoldable pub permission : Node → ℕ → ℕ → ℕ → Bool
permission n uid gid op =
    let other = bit_and n.mode 7 in
    let owner = grant (n.uid == uid) (bit_and (n.mode / 2 ^ 6) 7) other in
    let group = grant (n.gid == gid || gid == 0) (bit_and (n.mode / 2 ^ 3) 7) owner in
    let perm = grant (uid == 0) 7 group in bit_and perm op == op

-- `Node::size`
pub size : Node → ℕ
size n = size_from 0 n.extents

-- `Header`, with the fields that are not fixed.
pub record Header : Type 0 where
  pub size : ℕ
  pub root : ℕ
  pub free : ℕ
