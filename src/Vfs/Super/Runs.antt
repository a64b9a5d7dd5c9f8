-- ===== src/Vfs/Super/Runs.antt =====
-- A volume of 100 blocks of 1024 bytes, 64 to a group.
use werunos.Base.{
  ℕ, ◌<◌, ◌≡◌, refl, List, [], zeros, copy_at, le, put_le, byte_at, byte_at-lt, are_bytes→IsBytes,
}
use werunos.Block.Memory.{memory, memory-IsDisk}
use werunos.Vfs.Alloc.{FileSystem}
use werunos.Vfs.Super.{opened, bad_magic, read_super_block, block_group_count}
use werunos.Vfs.Super.Opened.{Opens, read_super_block-Opens}

unfoldable disk : List ℕ
unfolding put_le copy_at
disk =
    copy_at
      (copy_at (copy_at (copy_at (zeros 2048) 1028 (put_le 4 100)) 1056 (put_le 4 64)) 1080
        (put_le 2 0xef53))
      1100 (put_le 4 0)

abbrev closed : FileSystem memory
closed = record {
  dev = disk;
  sb = [];
  bgds = [];
  block_size = 0;
  group_count = 0;
  desc_size = 0;
  inode_size = 0;
}

opened_run :
    ((read_super_block memory closed).1 ≡ opened)
    × ((read_super_block memory closed).0.group_count ≡ 2)
    × ((read_super_block memory closed).0.inode_size ≡ 128)
unfolding disk read_super_block block_group_count le put_le copy_at
opened_run = (refl, refl, refl)

bad_magic_run : (read_super_block memory (record closed { dev = zeros 2048 })).1 ≡ bad_magic
unfolding read_super_block block_group_count le put_le copy_at
bad_magic_run = refl

disk-bytes : (i : ℕ) → byte_at disk i < 256
unfolding disk put_le copy_at
disk-bytes i = byte_at-lt disk i (are_bytes→IsBytes disk refl)

read_super_block-Opens_example : Opens memory-IsDisk closed (read_super_block memory closed)
read_super_block-Opens_example = read_super_block-Opens memory-IsDisk closed disk-bytes
