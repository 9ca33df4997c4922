-- ===== src/RedoxFs.antt =====
-- schemes/redoxfs: the file system of the repository, as a scheme reads and writes it.
pub mod Extents
pub mod Node
pub mod FileSystem
pub mod Bytes
pub mod Resource
pub mod Scheme
