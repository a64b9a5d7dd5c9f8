-- ===== src/Block/Gpt.antt =====
-- block/gpt.go: the header and the entries of a GUID partition table, and `ProbePartitions`.
pub mod Panics
use werunos.Base.{
  ℕ, zero, suc, ◌+◌, ◌-◌, ◌*◌, ◌/◌, ◌%◌, ◌^◌, ◌<◌, Bool, true, false, not, ◌&&◌, ◌||◌, Option, none,
  some, List, [], ◌∷◌, ◌++◌, length, byte_at, zeros, copy_at, slice, le, ltb, leb, ◌==◌,
  if◌then◌else◌, replicate,
}
use werunos.Block.Device.{IoError, Reply}
use werunos.Block.Partition.{
  PartitionScheme, PartitionType, Partition, utf16, gpt, mbr, linux_data, linux_swap, linux_lvm,
  efi_system, microsoft_data, bios_boot, default_sector_size,
}
use werunos.Block.Mbr
use werunos.Block.Mbr.{ReaderAt, Parsed, ok, err, panicked, read_failed, bad_signature}

abbrev pub header_offset : ℕ
header_offset = 512

-- `EFI PART`
abbrev pub signature : List ℕ
signature = 0x45 ∷ 0x46 ∷ 0x49 ∷ 0x20 ∷ 0x50 ∷ 0x41 ∷ 0x52 ∷ 0x54 ∷ []

-- The comparison of two byte arrays.
unfoldable pub same_bytes : List ℕ → List ℕ → Bool
same_bytes [] [] = true
same_bytes [] (y ∷ ys) = false
same_bytes (x ∷ xs) [] = false
same_bytes (x ∷ xs) (y ∷ ys) = x == y && same_bytes xs ys

-- The fields of the header that the code reads.
pub record Header : Type 0 where
  pub signature_bytes : List ℕ
  pub entry_lba : ℕ
  pub num_entries : ℕ
  pub entry_size : ℕ

unfoldable pub header : List ℕ → Header
header buf = record {
  signature_bytes = slice buf 0 8;
  entry_lba = le 8 buf 72;
  num_entries = le 4 buf 80;
  entry_size = le 4 buf 84;
}

abbrev pub type_linux_data : List ℕ
type_linux_data =
    0xaf ∷ 0x3d ∷ 0xc6 ∷ 0x0f ∷ 0x83 ∷ 0x84 ∷ 0x72 ∷ 0x47 ∷ 0x8e ∷ 0x79 ∷ 0x3d ∷ 0x69 ∷ 0xd8 ∷ 0x47
    ∷ 0x7d ∷ 0xe4 ∷ []

abbrev pub type_linux_swap : List ℕ
type_linux_swap =
    0x6d ∷ 0xfd ∷ 0x57 ∷ 0x06 ∷ 0xab ∷ 0xa4 ∷ 0xc4 ∷ 0x43 ∷ 0x84 ∷ 0xe5 ∷ 0x09 ∷ 0x33 ∷ 0xc8 ∷ 0x4b
    ∷ 0x4f ∷ 0x4f ∷ []

abbrev pub type_linux_lvm : List ℕ
type_linux_lvm =
    0x79 ∷ 0xd3 ∷ 0xd6 ∷ 0xe6 ∷ 0x07 ∷ 0xf5 ∷ 0xc2 ∷ 0x44 ∷ 0xa2 ∷ 0x3c ∷ 0x23 ∷ 0x8f ∷ 0x2a ∷ 0x3d
    ∷ 0xf9 ∷ 0x28 ∷ []

abbrev pub type_efi : List ℕ
type_efi =
    0x28 ∷ 0x73 ∷ 0x2a ∷ 0xc1 ∷ 0x1f ∷ 0xf8 ∷ 0xd2 ∷ 0x11 ∷ 0xba ∷ 0x4b ∷ 0x00 ∷ 0xa0 ∷ 0xc9 ∷ 0x3e
    ∷ 0xc9 ∷ 0x3b ∷ []

abbrev pub type_microsoft_data : List ℕ
type_microsoft_data =
    0xa2 ∷ 0xa0 ∷ 0xd0 ∷ 0xeb ∷ 0xe5 ∷ 0xb9 ∷ 0x33 ∷ 0x44 ∷ 0x87 ∷ 0xc0 ∷ 0x68 ∷ 0xb6 ∷ 0xb7 ∷ 0x26
    ∷ 0x99 ∷ 0xc7 ∷ []

abbrev pub type_bios_boot : List ℕ
type_bios_boot =
    0x48 ∷ 0x61 ∷ 0x68 ∷ 0x21 ∷ 0x49 ∷ 0x64 ∷ 0x6f ∷ 0x6e ∷ 0x74 ∷ 0x4e ∷ 0x65 ∷ 0x65 ∷ 0x64 ∷ 0x45
    ∷ 0x46 ∷ 0x49 ∷ []

abbrev pub type_unused : List ℕ
type_unused = zeros 16

unfoldable pub classify : List ℕ → PartitionType
unfolding same_bytes
classify guid =
    if same_bytes guid type_linux_data
    then linux_data
    else if same_bytes guid type_linux_swap
    then linux_swap
    else if same_bytes guid type_linux_lvm
    then linux_lvm
    else if same_bytes guid type_efi
    then efi_system
    else if same_bytes guid type_microsoft_data
    then microsoft_data
    else if same_bytes guid type_bios_boot
    then bios_boot
    else PartitionType.unknown

-- The code units of a name, and those before the first 0.
unfoldable pub units : ℕ → List ℕ → ℕ → List ℕ
units zero raw i = []
units (suc n) raw i = le 2 raw (i * 2) ∷ units n raw (i + 1)

unfoldable pub until_zero : List ℕ → List ℕ
until_zero [] = []
until_zero (c ∷ cs) = if c == 0 then [] else c ∷ until_zero cs

unfoldable pub decode_name : List ℕ → List ℕ
unfolding units until_zero
decode_name raw = until_zero (units (length raw / 2) raw 0)

unfoldable pub partition_of : ℕ → List ℕ → Partition
partition_of i buf = record {
  number = i + 1;
  type = classify (slice buf 0 16);
  name = utf16 (decode_name (slice buf 56 72));
  scheme = gpt;
  start_lba = le 8 buf 32;
  end_lba = le 8 buf 40;
  sector_size = default_sector_size;
  raw_type_guid = slice buf 0 16;
  raw_type_byte = 0;
}

-- The loop, from entry `i` on with `n` entries left. `entryBuf[:128]` may reach past the entry, and
-- panics past the end of the array.
unfoldable pub entries : List ℕ → ℕ → ℕ → ℕ → List Partition → Parsed
entries array size zero i partitions = ok partitions
entries array size (suc n) i partitions =
    let buf = slice array (i * size) 128 in
    let rest = entries array size n (i + 1) (
      if same_bytes (slice buf 0 16) type_unused
      then partitions
      else partitions ++ (partition_of i buf ∷ [])) in
    if ltb (length array) (i * size + 128) then panicked else rest

-- `make` panics on a negative length.
unfoldable pub parse_array : ReaderAt → Header → Parsed
parse_array disk hdr =
    let total = hdr.num_entries * hdr.entry_size in
    let r = disk (hdr.entry_lba * default_sector_size % 2 ^ 64) total in
    let parsed = entries (copy_at (zeros total) 0 r.bytes) hdr.entry_size hdr.num_entries 0 [] in
    if leb (2 ^ 63) total then panicked else elim r.err [ some e ↦ err read_failed | none ↦ parsed ]

unfoldable pub parse : ReaderAt → Parsed
parse disk =
    let r = disk header_offset 512 in
    let hdr = header (copy_at (zeros 512) 0 r.bytes) in
    let parsed = parse_array disk hdr in
    elim r.err [
      | some e ↦ err read_failed
      | none ↦ if same_bytes hdr.signature_bytes signature then parsed else err bad_signature
    ]

-- `ProbePartitions`: the scheme and the partitions, an error, or a panic.
pub data Probed : Type 0 where
  found : PartitionScheme → List Partition → Probed
  no_table : Probed
  crashed : Probed

unfoldable pub probe : ReaderAt → Probed
probe disk = elim (parse disk) [
  | ok parts ↦ found gpt parts
  | panicked ↦ crashed
  | err _ ↦ elim (Mbr.parse disk) [
    | ok parts ↦ found mbr parts
    | err _ ↦ no_table
    | panicked ↦ crashed
  ]
]
