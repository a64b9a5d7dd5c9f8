-- ===== src/Vfs.antt =====
-- vfs/*.go: the ext4 file system.
pub mod Layout
pub mod Tx
pub mod Safe
pub mod Extents
pub mod Append
pub mod Alloc
pub mod Dirents
pub mod Files
pub mod Inodes
pub mod Super
pub mod Journal
