-- ===== src/Block/Runs.antt =====
-- Runs of the block layer, and its theorems at concrete inputs.
use werunos.Base.{
  ℕ, ◌≡◌, refl, ◌&&◌, none, some, List, [], ◌∷◌, ◌++◌, zeros, copy_at, le, some, All, byte_at, ltb,
  inl, arith,
}
use werunos.Base.Int.{pos, negsuc}
use werunos.Block.Device.{eof, fault, ReadsTrue, WritesTrue}
use werunos.Block.Memory.{memory, memory_read, memory-IsDisk}
use werunos.Block.Aligned
use werunos.Block.Aligned.Reads.{read_at-ReadsTrue}
use werunos.Block.Aligned.Writes.{write_at-WritesTrue}
use werunos.Block.Partition
use werunos.Block.Partition.{Partition, linux_data, numbered, mbr, room, new_partition_reader}
use werunos.Block.Partition.Isolation.{Fits, write_at-outside}
use werunos.Block.Mbr
use werunos.Block.Mbr.{ReaderAt, ok, entry, use_of}
use werunos.Block.Mbr.Bounds.{IsPrimary, parse-IsPrimary}
use werunos.Block.Gpt
use werunos.Block.Gpt.{signature, same_bytes}
use werunos.Block.Gpt.Panics.{is_panic, read_header, parse-is_panic}

abbrev disk : List ℕ
disk = 10 ∷ 11 ∷ 12 ∷ 13 ∷ 14 ∷ 15 ∷ 16 ∷ 17 ∷ 18 ∷ []

-- Sectors of 4 bytes: the last one is cut short by the end of the disk.
aligned_read :
    (Aligned.read_at memory 4 disk 3 4).1 ≡ record { bytes = 13 ∷ 14 ∷ 15 ∷ 16 ∷ []; err = none }
unfolding Aligned.read_at copy_at
aligned_read = refl

aligned_read_end :
    (Aligned.read_at memory 4 disk 7 4).1 ≡ record { bytes = 17 ∷ 18 ∷ []; err = some eof }
unfolding Aligned.read_at copy_at
aligned_read_end = refl

aligned_write :
    Aligned.write_at memory 4 disk 3 (1 ∷ 2 ∷ [])
    ≡ (10 ∷ 11 ∷ 12 ∷ 1 ∷ 2 ∷ 15 ∷ 16 ∷ 17 ∷ 18 ∷ [], record { count = 2; err = none })
unfolding Aligned.write_at copy_at
aligned_write = refl

read_at-ReadsTrue_example :
    ReadsTrue
      (byte_at disk)
      (byte_at (Aligned.read_at memory 4 disk 3 4).0)
      3
      4
      (Aligned.read_at memory 4 disk 3 4).1
read_at-ReadsTrue_example = read_at-ReadsTrue memory-IsDisk 4 disk 3 4 (omega arith) (omega arith)

write_at-WritesTrue_example :
    WritesTrue
      (byte_at disk)
      (byte_at (Aligned.write_at memory 4 disk 3 (1 ∷ 2 ∷ [])).0)
      3
      (1 ∷ 2 ∷ [])
      (Aligned.write_at memory 4 disk 3 (1 ∷ 2 ∷ [])).1
write_at-WritesTrue_example =
    write_at-WritesTrue memory-IsDisk 4 disk 3 (1 ∷ 2 ∷ []) (omega arith) (omega arith)

-- The second and the third sector of two bytes.
abbrev part : Partition
part = record {
  number = 1;
  type = linux_data;
  name = numbered 1;
  scheme = mbr;
  start_lba = 1;
  end_lba = 2;
  sector_size = 2;
  raw_type_guid = zeros 16;
  raw_type_byte = 0x83;
}

part-Fits : Fits part
part-Fits = omega arith

partition_read :
    (Partition.read_at memory (new_partition_reader part) disk (pos 1) 9).1
    ≡ record { bytes = 13 ∷ 14 ∷ 15 ∷ []; err = none }
unfolding Partition.read_at new_partition_reader room
partition_read = refl

partition_write :
    Partition.write_at memory (new_partition_reader part) disk (pos 3) (7 ∷ 8 ∷ [])
    ≡ (10 ∷ 11 ∷ 12 ∷ 13 ∷ 14 ∷ 7 ∷ 16 ∷ 17 ∷ 18 ∷ [], record { count = 1; err = none })
unfolding Partition.write_at new_partition_reader room copy_at
partition_write = refl

partition_negative :
    (Partition.write_at memory (new_partition_reader part) disk (negsuc 0) (7 ∷ [])).1
    ≡ record { count = 0; err = some fault }
unfolding Partition.write_at new_partition_reader room
partition_negative = refl

write_at-outside_example :
    byte_at (Partition.write_at memory (new_partition_reader part) disk (pos 3) (7 ∷ 8 ∷ [])).0 1
    ≡ 11
write_at-outside_example =
    write_at-outside memory-IsDisk part part-Fits disk (pos 3) (7 ∷ 8 ∷ []) 1 (inl (omega arith))

-- A boot sector with a Linux partition of 2048 sectors in the second entry, behind a protective one.
abbrev boot_sector : List ℕ
boot_sector =
    zeros 0x1be
    ++ ((0 ∷ 0 ∷ 2 ∷ 0 ∷ 0xee ∷ 0 ∷ 0 ∷ 0 ∷ 1 ∷ 0 ∷ 0 ∷ 0 ∷ 9 ∷ 0 ∷ 0 ∷ 0 ∷ [])
        ++ ((0x80 ∷ 0 ∷ 0 ∷ 0 ∷ 0x83 ∷ 0 ∷ 0 ∷ 0 ∷ 0 ∷ 8 ∷ 0 ∷ 0 ∷ 0 ∷ 8 ∷ 0 ∷ 0 ∷ [])
            ++ (zeros 32 ++ (0x55 ∷ 0xaa ∷ []))))

abbrev linux_partition : Partition
linux_partition = record {
  number = 2;
  type = linux_data;
  name = numbered 2;
  scheme = mbr;
  start_lba = 2048;
  end_lba = 4095;
  sector_size = 512;
  raw_type_guid = zeros 16;
  raw_type_byte = 0x83;
}

parse-boot_sector : Mbr.parse (memory_read boot_sector) ≡ ok (linux_partition ∷ [])
unfolding Mbr.parse Mbr.entries entry use_of Mbr.partition_of Mbr.classify copy_at le
parse-boot_sector = refl

parse-IsPrimary_example :
    All
      (IsPrimary (copy_at (zeros 512) 0 (memory_read boot_sector 0 512).bytes))
      (linux_partition ∷ [])
parse-IsPrimary_example =
    parse-IsPrimary (memory_read boot_sector) (linux_partition ∷ []) (omega arith) parse-boot_sector

-- A table of one entry of 64 bytes.
abbrev short_table : List ℕ
short_table =
    zeros 512
    ++ (signature
        ++ (zeros 64
            ++ (2 ∷ 0 ∷ 0 ∷ 0 ∷ 0 ∷ 0 ∷ 0 ∷ 0 ∷ 1 ∷ 0 ∷ 0 ∷ 0 ∷ 64 ∷ 0 ∷ 0 ∷ 0 ∷ zeros 1000)))

parse-is_panic_example : is_panic (Gpt.parse (memory_read short_table)) ≡ (
    ltb 0 (read_header (memory_read short_table)).num_entries
    && ltb (read_header (memory_read short_table)).entry_size 128)
unfolding Gpt.header copy_at le same_bytes
parse-is_panic_example = parse-is_panic (memory_read short_table) refl refl refl (omega arith)
