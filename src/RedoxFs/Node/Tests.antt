-- ===== src/RedoxFs/Node/Tests.antt =====
-- Runs of the tests and the permissions of nodes.
use origel.Base.{◌≡◌, refl, true, false, [], ◌∷◌}
use origel.RedoxFs.Extents.{size_from}
use origel.RedoxFs.Node.{Node, new_node, copy_name, name_of, is_dir, is_file, permission, size}

abbrev file : Node
file = new_node 0x81A4 (b'a' ∷ []) 1

file_kind : (is_file file ≡ true) × (is_dir file ≡ false)
unfolding is_file is_dir new_node
file_kind = (refl, refl)

file_size : size file ≡ 0
unfolding size new_node size_from
file_size = refl

file_name : name_of file.name ≡ b'a' ∷ []
unfolding new_node copy_name name_of
file_name = refl

permission-file : (permission file 5 5 4 ≡ true) × (permission file 5 5 2 ≡ false)
unfolding permission new_node
permission-file = (refl, refl)
