-- ===== src/Block/Mbr/Bounds.antt =====
-- What the partitions of a master boot record are.
use werunos.Base.{
  ℕ, zero, suc, ◌+◌, ◌*◌, byte_at, le, ◌^◌, ◌≤◌, ◌<◌, ◌≡◌, ◌≢◌, Bool, true, false, List, [], All,
  All-append, IsBytes, le-lt, copy_at, zeros, copy_at-IsBytes, zeros-IsBytes, arith, refl,
}
use werunos.Block.Partition.{Partition}
use werunos.Block.Partition.Isolation.{Fits}
use werunos.Block.Mbr.{
  ReaderAt, ok, Entry, entry, Use, skip, protective, take, use_of, partition_of, entries, parse,
}

-- A partition that an entry of the table in the sector gives, by the bytes of that entry, and that `PartitionReader` can
-- address: the entry of 16 bytes that has its number less one, with the type at 4, the first sector at 8 and the count at 12.
pub record IsPrimary (sector : List ℕ) (p : Partition) : Type 0 where
  pub fits : Fits p
  pub index : ℕ
  pub one_of_four : index < 4
  pub has_number : p.number ≡ index + 1
  pub type_byte : p.raw_type_byte ≡ byte_at sector (0x1be + index * 16 + 4)
  pub starts : p.start_lba ≡ le 4 sector (0x1be + index * 16 + 8)
  pub ends : p.end_lba + 1 ≡ p.start_lba + le 4 sector (0x1be + index * 16 + 12)
  pub some_sector : 0 < le 4 sector (0x1be + index * 16 + 12)
  pub of_512 : p.sector_size ≡ 512
  pub used : p.raw_type_byte ≢ 0
  pub not_protective : p.raw_type_byte ≢ 0xee
  pub not_extended : (p.raw_type_byte ≢ 0x05) × (p.raw_type_byte ≢ 0x0f)

taken :
    (e : Entry)
    → use_of e ≡ take
    → (e.type ≢ 0) × (e.sector_count ≢ 0) × (e.type ≢ 0xee) × (e.type ≢ 0x05) × (e.type ≢ 0x0f)
unfolding use_of
taken e h = ground arith

entry_bounds :
    (sector : List ℕ) (i : ℕ)
    → IsBytes sector
    → ((entry sector i).start_lba < 2 ^ 32) × ((entry sector i).sector_count < 2 ^ 32)
unfolding entry
entry_bounds sector i h = (le-lt 4 sector _ h, le-lt 4 sector _ h)

partition_of-IsPrimary :
    (sector : List ℕ) (i : ℕ)
    → IsBytes sector
    → i < 4
    → use_of (entry sector i) ≡ take
    → IsPrimary sector (partition_of i (entry sector i))
unfolding partition_of entry
partition_of-IsPrimary sector i bytes lt h =
    let (t0, c0, tee, t5, tf) = taken (entry sector i) h in
    record {
      fits = record {
        ordered = omega arith;
        sectors = omega arith;
        bounded = omega (arith, entry_bounds sector i bytes);
      };
      index = i;
      one_of_four = lt;
      has_number = refl;
      type_byte = refl;
      starts = refl;
      ends = omega arith;
      some_sector = omega arith;
      of_512 = refl;
      used = t0;
      not_protective = tee;
      not_extended = (t5, tf);
    }

Use-both {ℓ κ} :
    {A : Type ℓ} (P : A → Type κ) (u : Use) {x y z : A}
    → P x
    → P y
    → (u ≡ take → P z)
    → P (elim u [ skip ↦ x | protective ↦ y | take ↦ z ])
Use-both P skip x y z = x
Use-both P protective x y z = y
Use-both P take x y z = z refl

entries-IsPrimary :
    (sector : List ℕ) (n i : ℕ) (parts : List Partition) (has_protective : Bool)
    → IsBytes sector
    → n + i ≤ 4
    → All (IsPrimary sector) parts
    → All (IsPrimary sector) (entries sector n i parts has_protective).0
unfolding entries
entries-IsPrimary sector zero i parts b bytes room h = h
entries-IsPrimary sector (suc n) i parts b bytes room h =
    Use-both {A = List Partition × Bool} (λ x. All (IsPrimary sector) x.0) (use_of (entry sector i))
      (entries-IsPrimary sector n (i + 1) parts b bytes (omega arith) h)
      (entries-IsPrimary sector n (i + 1) parts true bytes (omega arith) h)
      λ e. entries-IsPrimary sector n (i + 1) _ b bytes (omega arith) (
        All-append (IsPrimary sector) parts _ h
          (partition_of-IsPrimary sector i bytes (omega arith) e, tt))

parse-parts :
    (disk : ReaderAt) (parts : List Partition)
    → parse disk ≡ ok parts
    → parts ≡ (entries (copy_at (zeros 512) 0 (disk 0 512).bytes) 4 0 [] false).0
unfolding parse
parse-parts disk parts h = ground arith

-- Every partition that `parseMBR` returns is what the entry of its number, one of four, says in the sector
-- that was read: its first sector is the word at 8, it ends before that many more as the word at 12 says, at
-- least one, and its type is the byte at 4, which is not empty, protective or extended. Its sectors are of
-- 512 bytes, and its end is an offset of an int64.
pub parse-IsPrimary :
    (disk : ReaderAt) (parts : List Partition)
    → IsBytes (disk 0 512).bytes
    → parse disk ≡ ok parts
    → All (IsPrimary (copy_at (zeros 512) 0 (disk 0 512).bytes)) parts
parse-IsPrimary disk parts bytes h = rw (parse-parts disk parts h) (
    entries-IsPrimary _ 4 0 [] false
      (copy_at-IsBytes (zeros 512) 0 (disk 0 512).bytes (zeros-IsBytes 512) bytes) (omega arith) tt)
