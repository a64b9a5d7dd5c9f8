-- ===== src/Vfs/Alloc/Runs.antt =====
-- Blocks and inodes of one group, on a disk of five blocks of 1024 bytes: block 2 has the
-- descriptor, block 3 the bitmap of the blocks and block 4 the bitmap of the inodes.
use werunos.Base.{◌≡◌, refl, [], ◌∷◌, ◌++◌, zeros, copy_at, le, put_le}
use werunos.Block.Memory.{memory, memory-IsDisk}
use werunos.Vfs.Alloc.{
  FileSystem, Struct, blocks, inodes, ok, err, already_free, allocate, allocate_from, free,
  free_local, record_change, write_group_descriptor, update_superblock,
}
use werunos.Vfs.Alloc.Bits.{bit_clear, with_bit, without_bit, scan, scan_bits}
use werunos.Vfs.Alloc.Take.{Allocated, allocate-Allocated}
use werunos.Vfs.Alloc.Give.{Freed, group_of, index_of, free-Freed}

-- 64 blocks and 32 inodes to a group, of which 7 and 5 are free.
unfoldable superblock : Struct
unfolding copy_at put_le
superblock =
    copy_at (copy_at (copy_at (zeros 256) 12 (put_le 4 7 ++ put_le 4 5)) 32 (put_le 4 64)) 40
      (put_le 4 32)

unfoldable descriptor : Struct
unfolding put_le
descriptor = put_le 4 3 ++ (put_le 4 4 ++ (put_le 4 0 ++ (put_le 2 7 ++ put_le 2 5)))

unfoldable fs : FileSystem memory
unfolding superblock descriptor
fs = record {
  dev = zeros 3072 ++ (0xff ∷ 0x07 ∷ zeros 1022 ++ (0xff ∷ 0x0f ∷ zeros 1022));
  sb = superblock;
  bgds = descriptor ∷ [];
  block_size = 1024;
  group_count = 1;
  desc_size = 32;
  inode_size = 256;
}

block_run : (allocate memory blocks fs).1 ≡ ok 11
unfolding fs superblock descriptor allocate allocate_from record_change write_group_descriptor
    update_superblock scan scan_bits bit_clear with_bit copy_at le put_le
block_run = refl

inode_run : (allocate memory inodes fs).1 ≡ ok 13
unfolding fs superblock descriptor allocate allocate_from record_change write_group_descriptor
    update_superblock scan scan_bits bit_clear with_bit copy_at le put_le
inode_run = refl

free_run : (free memory blocks fs 9).1 ≡ ok 9
unfolding fs superblock descriptor free free_local record_change write_group_descriptor
    update_superblock bit_clear without_bit copy_at le put_le
free_run = refl

free_twice_run : (free memory blocks fs 20).1 ≡ err already_free
unfolding fs superblock descriptor free free_local record_change write_group_descriptor
    update_superblock bit_clear without_bit copy_at le put_le
free_twice_run = refl

allocate-Allocated_example :
    Allocated memory-IsDisk inodes fs fs.group_count 0 (allocate memory inodes fs)
allocate-Allocated_example = allocate-Allocated memory-IsDisk inodes fs

free-Freed_example :
    Freed memory-IsDisk blocks fs
      (group_of blocks fs.sb 9)
      (index_of blocks fs.sb 9)
      (free memory blocks fs 9)
free-Freed_example = free-Freed memory-IsDisk blocks fs 9
