-- ===== src/Btrfs/Super.antt =====
-- btrfs/super.go: the superblock, read and written back.
pub mod Stored
mod Runs
use werunos.Base.{
  ℕ, ◌+◌, ◌≤◌, Bool, Option, none, some, List, [], ◌∷◌, length, drop, slice, zeros, copy_at, le,
  put_le, ltb, leb, ◌==◌, ◌&&◌, if◌then◌else◌,
}
use werunos.Block.Mbr.{ReaderAt}
use werunos.Block.Device.{ReadWriterAt}
use werunos.Btrfs.Crc.{calc_crc32c}

pub record SuperBlock : Type 0 where
  pub csum : List ℕ
  pub fsid : List ℕ
  pub bytenr : ℕ
  pub flags : ℕ
  pub magic : ℕ
  pub generation : ℕ
  pub root : ℕ
  pub chunk_root : ℕ
  pub log_root : ℕ
  pub log_root_transid : ℕ
  pub total_bytes : ℕ
  pub bytes_used : ℕ
  pub root_dir_objectid : ℕ
  pub num_devices : ℕ
  pub sector_size : ℕ
  pub node_size : ℕ
  pub leaf_size : ℕ
  pub stripe_size : ℕ
  pub sys_chunk_array_size : ℕ
  pub chunk_root_generation : ℕ
  pub compat_flags : ℕ
  pub compat_ro_flags : ℕ
  pub incompat_flags : ℕ
  pub csum_type : ℕ
  pub root_level : ℕ
  pub chunk_root_level : ℕ
  pub log_root_level : ℕ
  pub sys_chunk_data : List ℕ

abbrev pub btrfs_magic : ℕ
btrfs_magic = 0x4d5f53665248425f

abbrev pub superblock_offset : ℕ
superblock_offset = 0x10000

abbrev pub superblock_size : ℕ
superblock_size = 4096

abbrev pub sys_chunk_array_offset : ℕ
sys_chunk_array_offset = 811

abbrev pub sys_chunk_array_max : ℕ
sys_chunk_array_max = 2048

-- The array of system chunks, where its size is one that it can have.
unfoldable pub sys_chunk_bytes : List ℕ → List ℕ
sys_chunk_bytes buf =
    let asz = le 4 buf 160 in
    if ltb 0 asz && leb asz sys_chunk_array_max && leb (sys_chunk_array_offset + asz) (length buf)
    then slice buf sys_chunk_array_offset asz
    else []

-- The fields of the bytes: each begins where the one before it ends. A buffer of `superblock_size` bytes holds them
-- all, so no read of one panics.
abbrev pub get_super_block : List ℕ → SuperBlock
get_super_block buf = record {
  csum = slice buf 0 32;
  fsid = slice buf 32 16;
  bytenr = le 8 buf 48;
  flags = le 8 buf 56;
  magic = le 8 buf 64;
  generation = le 8 buf 72;
  root = le 8 buf 80;
  chunk_root = le 8 buf 88;
  log_root = le 8 buf 96;
  log_root_transid = le 8 buf 104;
  total_bytes = le 8 buf 112;
  bytes_used = le 8 buf 120;
  root_dir_objectid = le 8 buf 128;
  num_devices = le 8 buf 136;
  sector_size = le 4 buf 144;
  node_size = le 4 buf 148;
  leaf_size = le 4 buf 152;
  stripe_size = le 4 buf 156;
  sys_chunk_array_size = le 4 buf 160;
  chunk_root_generation = le 8 buf 164;
  compat_flags = le 8 buf 172;
  compat_ro_flags = le 8 buf 180;
  incompat_flags = le 8 buf 188;
  csum_type = le 2 buf 196;
  root_level = le 1 buf 198;
  chunk_root_level = le 1 buf 199;
  log_root_level = le 1 buf 200;
  sys_chunk_data = sys_chunk_bytes buf;
}

pub data ReadSuper : Type 0 where
  read_failed bad_magic : ReadSuper
  loaded : SuperBlock → ReadSuper

unfoldable pub decode_super_block : List ℕ → ReadSuper
decode_super_block buf =
    if le 8 buf 64 == btrfs_magic then loaded (get_super_block buf) else bad_magic

unfoldable pub read_super_block : ReaderAt → ReadSuper
read_super_block dev =
    let reply = dev superblock_offset superblock_size in
    elim reply.err [
      | some e ↦ read_failed
      | none ↦ decode_super_block (copy_at (zeros superblock_size) 0 reply.bytes)
    ]

-- The fields that are written, with their offsets.
abbrev pub written_fields : SuperBlock → List (ℕ × List ℕ)
written_fields sb =
    (48, put_le 8 sb.bytenr)
    ∷ (56, put_le 8 sb.flags)
    ∷ (64, put_le 8 sb.magic)
    ∷ (72, put_le 8 sb.generation)
    ∷ (80, put_le 8 sb.root)
    ∷ (88, put_le 8 sb.chunk_root)
    ∷ (96, put_le 8 sb.log_root)
    ∷ (104, put_le 8 sb.log_root_transid)
    ∷ (112, put_le 8 sb.total_bytes)
    ∷ (120, put_le 8 sb.bytes_used)
    ∷ (198, put_le 1 sb.root_level)
    ∷ (199, put_le 1 sb.chunk_root_level)
    ∷ (200, put_le 1 sb.log_root_level)
    ∷ []

unfoldable pub put_fields : List (ℕ × List ℕ) → List ℕ → List ℕ
put_fields [] buf = buf
put_fields ((off, bytes) ∷ fields) buf = put_fields fields (copy_at buf off bytes)

unfoldable pub put_super_block : SuperBlock → List ℕ → List ℕ
put_super_block sb buf =
    let out = put_fields (written_fields sb) buf in
    copy_at out 0 (put_le 4 (calc_crc32c (drop 32 out)))

pub data WriteSuper : Type 0 where
  not_read not_written written : WriteSuper

-- `writeSuperBlock`
unfoldable pub write_super_block : (d : ReadWriterAt) → d.State → SuperBlock → d.State × WriteSuper
write_super_block d s sb =
    let (s1, reply) = d.read_at s superblock_offset superblock_size in
    elim reply.err [
      | some e ↦ (s1, not_read)
      | none ↦
          let out = put_super_block sb (copy_at (zeros superblock_size) 0 reply.bytes) in
          let (s2, w) = d.write_at s1 superblock_offset out in
          elim w.err [ none ↦ (s2, written) | some e ↦ (s2, not_written) ]
    ]
