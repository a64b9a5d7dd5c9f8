-- ===== src/Block/Partition.antt =====
-- block/device.go: partitions, and reading and writing one partition of a disk.
pub mod Isolation
use Prim.Native.Nat.{bit_and}
use werunos.Base.{
  ℕ, ◌+◌, ◌-◌, ◌*◌, ◌%◌, ◌^◌, min, Bool, ◌&&◌, Option, none, some, List, [], take, length, ltb, leb,
  ◌==◌, if◌then◌else◌,
}
use werunos.Base.Int.{ℤ, pos, negsuc, int64}
use werunos.Block.Device.{fault, Reply, Written, ReadWriterAt}
use werunos.Block.Aligned.{aligned}

pub data PartitionScheme : Type 0 where
  unknown gpt mbr : PartitionScheme

pub data PartitionType : Type 0 where
  unknown linux_data linux_swap linux_lvm efi_system microsoft_data bios_boot : PartitionType

-- The text `Partition n`, or the UTF-16 code units of a name, as `utf16.Decode` is given them.
pub data PartitionName : Type 0 where
  numbered : ℕ → PartitionName
  utf16 : List ℕ → PartitionName

abbrev pub default_sector_size : ℕ
default_sector_size = 512

pub record Partition : Type 0 where
  pub number : ℕ
  pub type : PartitionType
  pub name : PartitionName
  pub scheme : PartitionScheme
  pub start_lba : ℕ
  pub end_lba : ℕ
  pub sector_size : ℕ
  pub raw_type_guid : List ℕ
  pub raw_type_byte : ℕ

-- `StartOffset`, as the 64-bit pattern of the int64.
unfoldable pub start_offset : Partition → ℕ
start_offset p = p.start_lba * p.sector_size % 2 ^ 64

unfoldable pub byte_size : Partition → ℤ
byte_size p = int64 ((p.end_lba + 2 ^ 64 - p.start_lba + 1) % 2 ^ 64 * p.sector_size % 2 ^ 64)

-- The test of `NewAlignedReaderAt`: a positive power of two, as an int64.
unfoldable pub is_sector_size : ℕ → Bool
is_sector_size ss = ltb 0 ss && (ltb ss (2 ^ 63) && bit_and ss (ss - 1) == 0)

-- The device of `NewPartitionReader`: the disk itself where it cannot be read by sectors.
abbrev pub reader_disk : ReadWriterAt → Partition → ReadWriterAt
reader_disk d p =
    let ss = if p.sector_size == 0 then default_sector_size else p.sector_size in
    if is_sector_size ss then aligned d ss else d

-- What `PartitionReader` keeps beside its device.
pub record PartitionReader : Type 0 where
  pub start : ℕ
  pub size : ℤ

unfoldable pub new_partition_reader : Partition → PartitionReader
unfolding start_offset byte_size
new_partition_reader p = record { start = start_offset p; size = byte_size p }

-- The bytes from `off` to the end of the partition, if `off` lies in it.
unfoldable pub room : ℤ → ℤ → Option ℕ
room size (negsuc n) = none
room (negsuc m) (pos off) = none
room (pos size) (pos off) = if leb size off then none else some (size - off)

abbrev pub abs_offset : PartitionReader → ℤ → ℕ
abs_offset pr (pos off) = (pr.start + off) % 2 ^ 64
abs_offset pr (negsuc n) = 0

module _ (disk : ReadWriterAt) (pr : PartitionReader) (s : disk.State) where
  unfoldable pub read_at : ℤ → ℕ → disk.State × Reply
  read_at off n = elim (room pr.size off) [
    | none ↦ (s, record { bytes = []; err = some fault })
    | some max_read ↦ disk.read_at s (abs_offset pr off) (if ltb max_read n then max_read else n)
  ]

  unfoldable pub write_at : ℤ → List ℕ → disk.State × Written
  write_at off buf = elim (room pr.size off) [
    | none ↦ (s, record { count = 0; err = some fault })
    | some max_write ↦
        disk.write_at s (abs_offset pr off)
          (if ltb max_write (length buf) then take max_write buf else buf)
  ]
