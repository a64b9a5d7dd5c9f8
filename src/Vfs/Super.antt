-- ===== src/Vfs/Super.antt =====
-- Opening a volume: `ReadSuperBlock` of vfs/super.go, with the sizes and the number of groups that
-- it takes from the superblock.
pub mod Opened
mod Runs
use werunos.Base.{
  ℕ, ◌+◌, ◌*◌, ◌/◌, ◌%◌, ◌^◌, not, Option, none, some, List, length, zeros, copy_at, le, ltb, ◌==◌,
  if◌then◌else◌,
}
use werunos.Block.Device.{Reply, ReadWriterAt}
use werunos.Vfs.Layout.{place, superblock_fields}
use werunos.Vfs.Alloc.{
  Struct, FileSystem, sb_blocks_per_group, sb_block_size, sb_desc_size, superblock_offset,
}

abbrev pub magic_number : ℕ
magic_number = 0xef53

abbrev pub sb_blocks_count : Struct → ℕ
sb_blocks_count sb = le 4 sb (place superblock_fields 1)

abbrev pub sb_magic : Struct → ℕ
sb_magic sb = le 2 sb (place superblock_fields 15)

abbrev pub sb_inode_size : Struct → ℕ
sb_inode_size sb =
    if ltb 0 (le 4 sb (place superblock_fields 22))
    then le 2 sb (place superblock_fields 26)
    else 128

-- A group more where the blocks do not fill the last one.
unfoldable pub block_group_count : Struct → ℕ
block_group_count sb =
    let groups = sb_blocks_count sb / sb_blocks_per_group sb in
    if sb_blocks_count sb % sb_blocks_per_group sb == 0 then groups else (groups + 1) % 2 ^ 32

-- `panicked` is the division by no blocks per group, with the first two sizes set.
pub data Opening : Type 0 where
  opened read_failed bad_magic panicked : Opening

module _ (d : ReadWriterAt) where
  unfoldable pub read_super_block : FileSystem d → FileSystem d × Opening
  read_super_block fs =
      let (s, reply) = d.read_at fs.dev superblock_offset 1024 in
      let sb = copy_at (zeros 1024) 0 reply.bytes in
      let fs' : FileSystem d = record fs { dev = s } in
      elim reply.err [
        | none ↦
            if not (sb_magic sb == magic_number)
            then (fs', bad_magic)
            else if sb_blocks_per_group sb == 0
            then (
              record fs' { block_size = sb_block_size sb; inode_size = sb_inode_size sb },
              panicked,
            )
            else (
              record fs' {
                sb = sb;
                block_size = sb_block_size sb;
                inode_size = sb_inode_size sb;
                group_count = block_group_count sb;
                desc_size = sb_desc_size sb;
              },
              opened,
            )
        | some e ↦ (fs', read_failed)
      ]
