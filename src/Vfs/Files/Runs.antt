-- ===== src/Vfs/Files/Runs.antt =====
-- Reads of a file of three extents, the second one without data, on a disk of blocks of 4 bytes.
use werunos.Base.{ℕ, ◌≡◌, refl, none, some, List, [], ◌∷◌, arith, copy_at}
use werunos.Block.Memory.{memory, memory-IsDisk}
use werunos.Vfs.Extents.{Extent}
use werunos.Vfs.Files.{read_file_at, read_extents, read_blocks}
use werunos.Vfs.Files.Result.{ReadsFile, read_file_at-ReadsFile}
use werunos.Vfs.Files.Mapped.{IsContiguous}

abbrev disk : List ℕ
disk = 1 ∷ 2 ∷ 3 ∷ 4 ∷ 5 ∷ 6 ∷ 7 ∷ 8 ∷ 9 ∷ 10 ∷ 11 ∷ 12 ∷ []

abbrev extents : List Extent
extents =
    record { block = 0; len = 1; start_hi = 0; start_lo = 2 }
    ∷ record { block = 1; len = 0x8001; start_hi = 0; start_lo = 0 }
    ∷ record { block = 2; len = 2; start_hi = 0; start_lo = 0 }
    ∷ []

abbrev buffer : List ℕ
buffer = 50 ∷ 51 ∷ 52 ∷ 53 ∷ 54 ∷ 55 ∷ 56 ∷ 57 ∷ 58 ∷ 59 ∷ []

-- The size of the file ends the read before the buffer is full.
extents_run :
    read_file_at memory 4 extents 11 disk buffer 2
    ≡ (disk, 11 ∷ 12 ∷ 0 ∷ 0 ∷ 0 ∷ 0 ∷ 1 ∷ 2 ∷ 3 ∷ 59 ∷ [], some 9)
unfolding read_file_at read_extents read_blocks copy_at
extents_run = refl

-- The second extent begins behind the end of the disk.
failing_run :
    read_file_at memory 4
      (record { block = 0; len = 2; start_hi = 0; start_lo = 2 } ∷ [])
      8
      disk
      (50 ∷ 51 ∷ 52 ∷ [])
      3
    ≡ (disk, 12 ∷ 0 ∷ 0 ∷ [], none)
unfolding read_file_at read_extents read_blocks copy_at
failing_run = refl

read_file_at-ReadsFile_example :
    ReadsFile memory-IsDisk 4 extents 11 disk buffer 2
      (read_file_at memory 4 extents 11 disk buffer 2)
read_file_at-ReadsFile_example =
    read_file_at-ReadsFile memory-IsDisk 4 extents 11 disk buffer 2 (omega arith) (omega arith)

abbrev extents-IsContiguous : IsContiguous 0 extents
unfolding IsContiguous
extents-IsContiguous = (refl, omega arith, (refl, omega arith, (refl, omega arith, tt)))
