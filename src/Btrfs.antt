-- ===== src/Btrfs.antt =====
-- btrfs/*.go: the btrfs file system.
pub mod Types
pub mod Chunks
pub mod Tree
pub mod Crc
pub mod Leaf
pub mod Edit
pub mod Space
pub mod Fsck
pub mod Super
pub mod Split
mod Runs
