-- ===== src/Vfs/Inodes/Runs.antt =====
-- The second inode of a table in block 1, with inodes of 256 bytes.
use werunos.Base.{◌≡◌, refl, true, [], ◌∷◌, ◌++◌, zeros, copy_at, le, put_le}
use werunos.Block.Memory.{memory}
use werunos.Vfs.Alloc.{FileSystem, Struct}
use werunos.Vfs.Inodes.{
  err, out_of_range, is_dir, inode_length, uses_extents, with_group, read_inode,
}

-- A directory of 1024 bytes that uses extents.
unfoldable directory : Struct
unfolding put_le copy_at
directory =
    copy_at (put_le 2 0x41ed ++ (put_le 2 0 ++ (put_le 4 1024 ++ zeros 152))) 32 (put_le 4 0x80000)

unfoldable fs : FileSystem memory
unfolding put_le copy_at
fs = record {
  dev = zeros 2048;
  sb = copy_at (zeros 256) 40 (put_le 4 4);
  bgds = (put_le 4 0 ++ (put_le 4 0 ++ put_le 4 1)) ∷ [];
  block_size = 1024;
  group_count = 1;
  desc_size = 32;
  inode_size = 256;
}

directory_run :
    (is_dir directory ≡ true) × (inode_length directory ≡ 1024) × (uses_extents directory ≡ true)
unfolding directory le put_le copy_at
directory_run = (refl, refl, refl)

out_of_range_run : (read_inode memory fs 5).1 ≡ err out_of_range
unfolding fs read_inode with_group le put_le copy_at
out_of_range_run = refl
