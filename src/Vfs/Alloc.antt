-- ===== src/Vfs/Alloc.antt =====
-- Blocks and inodes taken from and given back to the bitmaps of the block groups: vfs/allocate.go,
-- vfs/reclaim.go and what they use of vfs/super.go and vfs/bgdesc.go. The code for blocks and the
-- code for inodes are two copies of one text; here they are one, with a `Resource`.
pub mod Bits
pub mod Effect
pub mod Take
pub mod Give
mod Runs
use werunos.Base.{
  ℕ, zero, suc, ◌+◌, ◌-◌, ◌*◌, ◌/◌, ◌%◌, ◌^◌, Bool, true, false, not, Option, none, some, List, [],
  ◌∷◌, length, get_elem?, set, take, drop, byte_at, zeros, copy_at, le, put_le, ltb, leb, ◌==◌,
  if◌then◌else◌,
}
use werunos.Block.Device.{IoError, Reply, Written, ReadWriterAt}
use werunos.Vfs.Layout.{place, superblock_fields, descriptor_fields}
use werunos.Vfs.Alloc.Bits.{bit_clear, with_bit, without_bit, scan}

-- `SuperBlock` and `GroupDescriptor` as the bytes that `binary.Write` makes of them; a field is read
-- and set at its place in the struct.
abbrev pub Struct : Type 0
Struct = List ℕ

abbrev pub sb_blocks_per_group : Struct → ℕ
sb_blocks_per_group sb = le 4 sb (place superblock_fields 8)

abbrev pub sb_inodes_per_group : Struct → ℕ
sb_inodes_per_group sb = le 4 sb (place superblock_fields 10)

abbrev pub sb_block_size : Struct → ℕ
sb_block_size sb = 1024 * 2 ^ le 4 sb (place superblock_fields 6) % 2 ^ 64

abbrev pub sb_desc_size : Struct → ℕ
sb_desc_size sb =
    if le 2 sb (place superblock_fields 45) == 0 then 32 else le 2 sb (place superblock_fields 45)

-- The state of `FileSystem`, over a device `d`.
pub record FileSystem (d : ReadWriterAt) : Type 0 where
  pub dev : d.State
  pub sb : Struct
  pub bgds : List Struct
  pub block_size : ℕ
  pub group_count : ℕ
  pub desc_size : ℕ
  pub inode_size : ℕ

pub data Resource : Type 0 where
  blocks inodes : Resource

-- Where a descriptor has the number of the bitmap and the count of what is free.
abbrev pub bitmap_lo_at : Resource → ℕ
bitmap_lo_at blocks = place descriptor_fields 0
bitmap_lo_at inodes = place descriptor_fields 1

abbrev pub bitmap_hi_at : Resource → ℕ
bitmap_hi_at blocks = place descriptor_fields 12
bitmap_hi_at inodes = place descriptor_fields 13

abbrev pub free_lo_at : Resource → ℕ
free_lo_at blocks = place descriptor_fields 3
free_lo_at inodes = place descriptor_fields 4

abbrev pub free_hi_at : Resource → ℕ
free_hi_at blocks = place descriptor_fields 15
free_hi_at inodes = place descriptor_fields 16

abbrev pub sb_free_at : Resource → ℕ
sb_free_at blocks = place superblock_fields 3
sb_free_at inodes = place superblock_fields 4

abbrev pub per_group : Resource → Struct → ℕ
per_group blocks sb = sb_blocks_per_group sb
per_group inodes sb = sb_inodes_per_group sb

-- The reserved inodes are the first eleven bits of the first group.
abbrev pub start_bit : Resource → ℕ → ℕ
start_bit blocks group = 0
start_bit inodes group = if group == 0 then 11 else 0

abbrev pub number : Resource → Struct → ℕ → ℕ → ℕ → ℕ
number blocks sb group byte_idx bit = (group * sb_blocks_per_group sb + byte_idx * 8 + bit) % 2 ^ 64
number inodes sb group byte_idx bit =
    (group * sb_inodes_per_group sb + byte_idx * 8 + bit + 1) % 2 ^ 64 % 2 ^ 32

pub data AllocError : Type 0 where
  bitmap_read bitmap_write descriptor_write none_free invalid_number out_of_range already_free :
      AllocError

-- Whether one is taken or given back.
pub data Change : Type 0 where
  taken given : Change

-- The count of a descriptor is 16 bits wide and wraps; the total of the superblock, 32 bits wide,
-- stops at 0.
abbrev pub group_count_after : Change → ℕ → ℕ
group_count_after taken c = (c + 0xffff) % 2 ^ 16
group_count_after given c = (c + 1) % 2 ^ 16

abbrev pub total_after : Change → ℕ → ℕ
total_after taken c = c - 1
total_after given c = (c + 1) % 2 ^ 32

-- `panicked` is a run-time panic of Go.
pub data Outcome {ℓ} (A : Type ℓ) : Type ℓ where
  ok : A → Outcome A
  err : AllocError → Outcome A
  panicked : Outcome A

abbrev pub wide : ℕ → ℕ → ℕ → ℕ → ℕ
wide desc_size lo hi bits = if ltb 32 desc_size then hi * 2 ^ bits + lo else lo

abbrev pub descriptor_offset : Struct → ℕ → ℕ
descriptor_offset sb group =
    (if sb_block_size sb == 1024 then 2048 else sb_block_size sb) + group * sb_desc_size sb

abbrev pub superblock_offset : ℕ
superblock_offset = 1024

-- `raw[:n]` where `raw` is longer.
abbrev pub cut : ℕ → Struct → List ℕ
cut n raw = if ltb n (length raw) then take n raw else raw

abbrev pub counted_bgd : Resource → Change → Struct → Struct
counted_bgd r change bgd =
    copy_at bgd (free_lo_at r) (put_le 2 (group_count_after change (le 2 bgd (free_lo_at r))))

abbrev pub counted_sb : Resource → Change → Struct → Struct
counted_sb r change sb =
    copy_at sb (sb_free_at r) (put_le 4 (total_after change (le 4 sb (sb_free_at r))))

module _ (d : ReadWriterAt) where
  abbrev pub bitmap_offset : Resource → FileSystem d → Struct → ℕ
  bitmap_offset r fs bgd =
      wide fs.desc_size (le 4 bgd (bitmap_lo_at r)) (le 4 bgd (bitmap_hi_at r)) 32
      * fs.block_size
      % 2 ^ 64

  abbrev pub free_count : Resource → FileSystem d → Struct → ℕ
  free_count r fs bgd = wide fs.desc_size (le 2 bgd (free_lo_at r)) (le 2 bgd (free_hi_at r)) 16

  -- A write to the device, and whether it had no error.
  abbrev pub put_bytes : FileSystem d → ℕ → List ℕ → FileSystem d × Bool
  put_bytes fs off p =
      let (s, w) = d.write_at fs.dev off p in
      (record fs { dev = s }, elim w.err [ none ↦ true | some e ↦ false ])

  unfoldable pub write_group_descriptor : FileSystem d → ℕ → Struct → FileSystem d × Bool
  write_group_descriptor fs group bgd =
      put_bytes fs (descriptor_offset fs.sb group) (cut (sb_desc_size fs.sb) bgd)

  -- `updateSuperblockFreeBlocks` and `updateSuperblockFreeInodes`; an error of the write is logged
  -- only.
  unfoldable pub update_superblock : Resource → Change → FileSystem d → FileSystem d
  update_superblock r change fs =
      let sb = counted_sb r change fs.sb in
      (put_bytes (record fs { sb = sb }) superblock_offset (cut 1024 sb)).0

  -- The bitmap is written, then the descriptor with its count changed, then the superblock.
  unfoldable pub record_change :
      Resource → Change → FileSystem d → ℕ → Struct → List ℕ → ℕ → FileSystem d × Outcome ℕ
  record_change r change fs group bgd bitmap n =
      let (fs1, bitmap_ok) = put_bytes fs (bitmap_offset r fs bgd) bitmap in
      let (fs2, descriptor_ok) =
        write_group_descriptor (record fs1 { bgds = set fs1.bgds group (counted_bgd r change bgd) })
          group (counted_bgd r change bgd) in
      if not bitmap_ok
      then (fs1, err bitmap_write)
      else if not descriptor_ok
      then (fs2, err descriptor_write)
      else (update_superblock r change fs2, ok n)

  -- The loop of `AllocateBlock` and `AllocateInode` over the groups, `n` of them left.
  unfoldable pub allocate_from : Resource → ℕ → ℕ → FileSystem d → FileSystem d × Outcome ℕ
  allocate_from r zero group fs = (fs, err none_free)
  allocate_from r (suc n) group fs = elim (get_elem? fs.bgds group) [
    | none ↦ (fs, panicked)
    | some bgd ↦
        let (s, reply) = d.read_at fs.dev (bitmap_offset r fs bgd) fs.block_size in
        let fs' : FileSystem d = record fs { dev = s } in
        let bitmap = copy_at (zeros fs.block_size) 0 reply.bytes in
        let start = start_bit r group in
        let skipped = allocate_from r n (group + 1) fs in
        let full = allocate_from r n (group + 1) fs' in
        if free_count r fs bgd == 0 then skipped else elim reply.err [
          | some e ↦ (fs', err bitmap_read)
          | none ↦ elim (scan (drop (start / 8) bitmap) (start / 8) (start % 8)) [
            | none ↦ full
            | some (byte_idx, bit) ↦
                record_change r taken fs' group bgd
                  (set bitmap byte_idx (with_bit (byte_at bitmap byte_idx) bit))
                  (number r fs.sb group byte_idx bit)
          ]
        ]
  ]

  unfoldable pub allocate : Resource → FileSystem d → FileSystem d × Outcome ℕ
  allocate r fs = allocate_from r fs.group_count 0 fs

  -- `FreeBlock` and `FreeInode` for the bit `index` of the group.
  unfoldable pub free_local : Resource → FileSystem d → ℕ → ℕ → ℕ → FileSystem d × Outcome ℕ
  free_local r fs n group index = elim (get_elem? fs.bgds group) [
    | none ↦ (fs, panicked)
    | some bgd ↦
        let (s, reply) = d.read_at fs.dev (bitmap_offset r fs bgd) fs.block_size in
        let fs' : FileSystem d = record fs { dev = s } in
        let bitmap = copy_at (zeros fs.block_size) 0 reply.bytes in
        let old = byte_at bitmap (index / 8) in
        elim reply.err [
          | some e ↦ (fs', err bitmap_read)
          | none ↦
              if leb fs.block_size (index / 8)
              then (fs', panicked)
              else if bit_clear old (index % 8)
              then (fs', err already_free)
              else record_change r given fs' group bgd
                  (set bitmap (index / 8) (without_bit old (index % 8))) n
        ]
  ]

  unfoldable pub free : Resource → FileSystem d → ℕ → FileSystem d × Outcome ℕ
  free blocks fs n =
      let per = sb_blocks_per_group fs.sb in
      let group = n / per % 2 ^ 32 in
      if per == 0
      then (fs, panicked)
      else if leb fs.group_count group
      then (fs, err out_of_range)
      else free_local blocks fs n group (n % per)
  free inodes fs n =
      let per = sb_inodes_per_group fs.sb in
      let group = (n - 1) / per % 2 ^ 32 in
      if n == 0
      then (fs, err invalid_number)
      else if per == 0
      then (fs, panicked)
      else if leb fs.group_count group
      then (fs, err out_of_range)
      else free_local inodes fs n group ((n - 1) % per)
