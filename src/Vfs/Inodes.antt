-- ===== src/Vfs/Inodes.antt =====
-- Inodes in the inode tables: `ReadInode` of vfs/inodes.go and `WriteInode` of vfs/allocate.go.
pub mod Reread
mod Runs
use werunos.Base.{
  ℕ, ◌+◌, ◌-◌, ◌*◌, ◌/◌, ◌%◌, ◌^◌, ◌≤◌, ◌≡◌, Bool, true, false, not, Option, none, some, List,
  length, get_elem?, take, zeros, copy_at, le, ltb, leb, ◌==◌, if◌then◌else◌,
}
use werunos.Block.Device.{IoError, Reply, Written, ReadWriterAt}
use werunos.Vfs.Layout.{place, struct_size, inode_fields, descriptor_fields}
use werunos.Vfs.Alloc.{Struct, FileSystem, sb_inodes_per_group, wide, cut}

-- The size of the struct `Inode`, which is kept as its bytes.
abbrev pub encoded_size : ℕ
encoded_size = struct_size inode_fields

abbrev pub inode_mode : Struct → ℕ
inode_mode inode = le 2 inode (place inode_fields 0)

abbrev pub is_dir : Struct → Bool
is_dir inode = inode_mode inode / 2 ^ 12 % 2 ^ 4 == 4

abbrev pub inode_length : Struct → ℕ
inode_length inode =
    if is_dir inode
    then le 4 inode (place inode_fields 2)
    else le 4 inode (place inode_fields 15) * 2 ^ 32 + le 4 inode (place inode_fields 2)

abbrev pub uses_extents : Struct → Bool
uses_extents inode = not (le 4 inode (place inode_fields 10) / 2 ^ 19 % 2 == 0)

pub data InodeError : Type 0 where
  invalid_number out_of_range no_table offset_overflow read_failed write_failed short_inode :
      InodeError

-- `panicked` is a run-time panic of Go.
pub data Result {ℓ} (A : Type ℓ) : Type ℓ where
  ok : A → Result A
  err : InodeError → Result A
  panicked : Result A

module _ (d : ReadWriterAt) where
  abbrev pub group_of : FileSystem d → ℕ → ℕ
  group_of fs n = (n - 1) / sb_inodes_per_group fs.sb

  -- Where the table of the group has the inode.
  abbrev pub inode_offset : FileSystem d → Struct → ℕ → ℕ
  inode_offset fs bgd n =
      (wide fs.desc_size (le 4 bgd (place descriptor_fields 2))
            (le 4 bgd (place descriptor_fields 14)) 32
          * fs.block_size
        + (n - 1) % sb_inodes_per_group fs.sb * fs.inode_size)
      % 2 ^ 64

  -- The tests that both operations begin with; `f` goes on with the descriptor of the group.
  unfoldable pub with_group :
      {A : Type 0} → FileSystem d → ℕ → (Struct → FileSystem d × Result A) → FileSystem d × Result A
  with_group fs n f =
      if n == 0
      then (fs, err invalid_number)
      else if sb_inodes_per_group fs.sb == 0
      then (fs, panicked)
      else if leb fs.group_count (group_of fs n)
      then (fs, err out_of_range)
      else elim (get_elem? fs.bgds (group_of fs n)) [ none ↦ (fs, panicked) | some bgd ↦ f bgd ]

  unfoldable pub read_in_table : FileSystem d → ℕ → Struct → FileSystem d × Result Struct
  read_in_table fs n bgd =
      let offset = inode_offset fs bgd n in
      let (s, reply) = d.read_at fs.dev offset fs.inode_size in
      let fs' : FileSystem d = record fs { dev = s } in
      let buf = copy_at (zeros fs.inode_size) 0 reply.bytes in
      if le 4 bgd (place descriptor_fields 2) == 0
      then (fs, err no_table)
      else if leb (2 ^ 63) offset
      then (fs, err offset_overflow)
      else elim reply.err [
        | none ↦
            if ltb fs.inode_size encoded_size
            then (fs', err short_inode)
            else (fs', ok (take encoded_size buf))
        | some e ↦ (fs', err read_failed)
      ]

  unfoldable pub read_inode : FileSystem d → ℕ → FileSystem d × Result Struct
  read_inode fs n = with_group fs n (read_in_table fs n)

  -- The bytes behind the struct, where an inode is larger, are kept.
  unfoldable pub write_in_table : FileSystem d → ℕ → Struct → Struct → FileSystem d × Result ℕ
  write_in_table fs n inode bgd =
      let offset = inode_offset fs bgd n in
      let (s, reply) = d.read_at fs.dev offset fs.inode_size in
      let raw = copy_at (copy_at (zeros fs.inode_size) 0 reply.bytes) 0 (cut fs.inode_size inode) in
      let (s', w) = d.write_at s offset raw in
      elim reply.err [
        | none ↦ elim w.err [
          | none ↦ (record fs { dev = s' }, ok n)
          | some e ↦ (record fs { dev = s' }, err write_failed)
        ]
        | some e ↦ (record fs { dev = s }, err read_failed)
      ]

  unfoldable pub write_inode : FileSystem d → ℕ → Struct → FileSystem d × Result ℕ
  write_inode fs n inode = with_group fs n (write_in_table fs n inode)
