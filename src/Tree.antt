-- ===== src/Tree.antt =====
-- dfsha/control_node/tree.py: the directory tree with its locks, write reservations and users.
pub mod Data
pub mod FilePath
pub mod Nodes
pub mod Perms
pub mod Dirs
pub mod Lookup
pub mod Locks
pub mod Users
pub mod Files
pub mod Uploads
pub mod Writes
pub mod Blocks
