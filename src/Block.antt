-- ===== src/Block.antt =====
-- block/*.go: reads and writes of a disk at sector boundaries, partitions, and partition tables.
pub mod Device
pub mod Aligned
pub mod Partition
pub mod Mbr
pub mod Gpt
pub mod Memory
mod Runs
