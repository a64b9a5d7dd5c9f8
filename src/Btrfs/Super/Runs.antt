-- ===== src/Btrfs/Super/Runs.antt =====
-- A superblock of which the front is kept, written into a buffer of zeros.
use werunos.Base.{◌≡◌, ◌^◌, refl, [], zeros, le, arith}
use werunos.Btrfs.Super.{
  SuperBlock, btrfs_magic, get_super_block, loaded, bad_magic, decode_super_block, put_super_block,
}
use werunos.Btrfs.Super.Stored.{IsStored, decode_super_block-put_super_block}

abbrev super : SuperBlock
super = record (get_super_block []) {
  magic = btrfs_magic;
  generation = 9;
  root = 0x400000;
  root_level = 1;
  bytes_used = 2 ^ 40;
}

zeros_run : decode_super_block (zeros 201) ≡ bad_magic
unfolding decode_super_block le
zeros_run = refl

decode_super_block-put_super_block_example :
    (decode_super_block (put_super_block super (zeros 201))
      ≡ loaded (get_super_block (put_super_block super (zeros 201))))
    × IsStored super
        (get_super_block (put_super_block super (zeros 201)))
        (put_super_block super (zeros 201))
unfolding le
decode_super_block-put_super_block_example =
    decode_super_block-put_super_block super (zeros 201)
      (record {
        bytenr = omega arith;
        flags = omega arith;
        magic = omega arith;
        generation = omega arith;
        root = omega arith;
        chunk_root = omega arith;
        log_root = omega arith;
        log_root_transid = omega arith;
        total_bytes = omega arith;
        bytes_used = omega arith;
        root_level = omega arith;
        chunk_root_level = omega arith;
        log_root_level = omega arith;
      })
      refl (omega arith)
