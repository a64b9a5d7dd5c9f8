-- ===== src/Block/Mbr.antt =====
-- block/mbr.go: the partition table of a master boot record.
pub mod Bounds
use werunos.Base.{
  ℕ, zero, suc, ◌+◌, ◌-◌, ◌*◌, Bool, true, false, not, ◌&&◌, ◌||◌, Option, none, some, List, [],
  ◌∷◌, ◌++◌, length, byte_at, zeros, copy_at, le, leb, ◌==◌, if◌then◌else◌,
}
use werunos.Block.Device.{IoError, Reply}
use werunos.Block.Partition.{
  PartitionType, Partition, numbered, mbr, linux_data, linux_swap, linux_lvm, efi_system,
  microsoft_data, default_sector_size,
}

-- An `io.ReaderAt`: what it returns for an offset and a number of bytes.
abbrev pub ReaderAt : Type 0
ReaderAt = ℕ → ℕ → Reply

pub data TableError : Type 0 where
  read_failed bad_signature gpt_protective : TableError

-- `panicked` is a run-time panic of Go.
pub data Parsed : Type 0 where
  ok : List Partition → Parsed
  err : TableError → Parsed
  panicked : Parsed

abbrev pub table_offset : ℕ
table_offset = 0x1be

abbrev pub signature_offset : ℕ
signature_offset = 0x1fe

pub record Entry : Type 0 where
  pub status : ℕ
  pub type : ℕ
  pub start_lba : ℕ
  pub sector_count : ℕ

-- Entry `i` of the table, without its CHS addresses, which nothing reads.
unfoldable pub entry : List ℕ → ℕ → Entry
entry sector i =
    let offset = table_offset + i * 16 in
    record {
      status = byte_at sector offset;
      type = byte_at sector (offset + 4);
      start_lba = le 4 sector (offset + 8);
      sector_count = le 4 sector (offset + 12);
    }

unfoldable pub classify : ℕ → PartitionType
classify t =
    if t == 0x83
    then linux_data
    else if t == 0x82
    then linux_swap
    else if t == 0x8e
    then linux_lvm
    else if t == 0xef
    then efi_system
    else if t == 0x0c || t == 0x07
    then microsoft_data
    else PartitionType.unknown

-- The cases of the loop over the entries: skip the entry, note a protective one, or take it.
pub data Use : Type 0 where
  skip protective take : Use

unfoldable pub use_of : Entry → Use
use_of e =
    if e.type == 0 || e.sector_count == 0
    then skip
    else if e.type == 0xee
    then protective
    else if e.type == 0x05 || e.type == 0x0f
    then skip
    else take

unfoldable pub partition_of : ℕ → Entry → Partition
partition_of i e = record {
  number = i + 1;
  type = classify e.type;
  name = numbered (i + 1);
  scheme = mbr;
  start_lba = e.start_lba;
  end_lba = e.start_lba + e.sector_count - 1;
  sector_size = default_sector_size;
  raw_type_guid = zeros 16;
  raw_type_byte = e.type;
}

-- The loop, from entry `i` on with `n` entries left: the partitions, and `hasGPTProtective`.
unfoldable pub entries : List ℕ → ℕ → ℕ → List Partition → Bool → List Partition × Bool
entries sector zero i partitions has_protective = (partitions, has_protective)
entries sector (suc n) i partitions has_protective =
    let e = entry sector i in
    elim (use_of e) [
      | skip ↦ entries sector n (i + 1) partitions has_protective
      | protective ↦ entries sector n (i + 1) partitions true
      | take ↦ entries sector n (i + 1) (partitions ++ (partition_of i e ∷ [])) has_protective
    ]

unfoldable pub parse : ReaderAt → Parsed
parse disk =
    let r = disk 0 512 in
    let sector = copy_at (zeros 512) 0 r.bytes in
    let (partitions, has_protective) = entries sector 4 0 [] false in
    elim r.err [
      | some e ↦ err read_failed
      | none ↦
          if not (
            byte_at sector signature_offset == 0x55
            && byte_at sector (signature_offset + 1) == 0xaa)
          then err bad_signature
          else if length partitions == 0 && has_protective
          then err gpt_protective
          else ok partitions
    ]
