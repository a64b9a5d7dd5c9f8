-- ===== src/Block/Aligned.antt =====
-- block/aligned.go: reads and writes at any offset, made of reads and writes of whole sectors. The numbers do not wrap, as
-- those of the code do not where the offset is not negative and the range, with a sector more, stays below 2^63; elsewhere
-- the code panics at a slice or at `make`, or rounds a number that has wrapped, which is left out.
pub mod Reads
pub mod Writes
use werunos.Base.{
  ℕ, ◌+◌, ◌-◌, ◌*◌, ◌/◌, min, Bool, true, false, ◌&&◌, Option, none, some, List, [], ◌∷◌, length,
  zeros, copy_at, slice, leb, ◌==◌, if◌then◌else◌,
}
use werunos.Block.Device.{IoError, eof, fault, Reply, Written, ReadWriterAt}

abbrev pub aligned_start : ℕ → ℕ → ℕ
aligned_start ss off = off / ss * ss

abbrev pub aligned_end : ℕ → ℕ → ℕ → ℕ
aligned_end ss off n = (off + n + ss - 1) / ss * ss

-- The part of the sectors `r` that was asked for: `n` bytes behind the first `skip`.
unfoldable pub trim : ℕ → ℕ → ℕ → Reply → Reply
trim total skip n r =
    let usable = min (length r.bytes - skip) n in
    let tmp = copy_at (zeros total) 0 r.bytes in
    record {
      bytes = slice tmp skip usable;
      err = if usable == n then none else elim r.err [ some e ↦ some e | none ↦ some eof ];
    }

-- What `WriteAt` returns of the inner write: all of the caller's bytes, or none of them.
unfoldable pub all_or_none : ℕ → Written → Written
all_or_none n w = elim w.err [
  | some e ↦ record { count = 0; err = some e }
  | none ↦ record { count = n; err = none }
]

-- `WriteAt` behind its first read: sectors that were not read are not written.
unfoldable pub merge_and_write :
    (d : ReadWriterAt) → ℕ → ℕ → ℕ → List ℕ → d.State × Reply → d.State × Written
unfolding all_or_none
merge_and_write d start total skip buf (s, r) =
    let tmp = copy_at (copy_at (zeros total) 0 r.bytes) skip buf in
    let (s', w) = d.write_at s start tmp in
    elim r.err [
      | some fault ↦ (s, record { count = 0; err = some fault })
      | _ ↦ (s', all_or_none (length buf) w)
    ]

module _ (d : ReadWriterAt) (ss : ℕ) where
  unfoldable pub read_at : d.State → ℕ → ℕ → d.State × Reply
  unfolding trim
  read_at s off n =
      let start = aligned_start ss off in
      let total = aligned_end ss off n - start in
      if n == 0
      then (s, record { bytes = []; err = none })
      else if start == off && total == n
      then d.read_at s off n
      else let (s', r) = d.read_at s start total in (s', trim total (off - start) n r)

  unfoldable pub write_at : d.State → ℕ → List ℕ → d.State × Written
  unfolding merge_and_write
  write_at s off buf =
      let start = aligned_start ss off in
      let total = aligned_end ss off (length buf) - start in
      if length buf == 0
      then (s, record { count = 0; err = none })
      else if start == off && total == length buf
      then d.write_at s off buf
      else merge_and_write d start total (off - start) buf (d.read_at s start total)

  -- `AlignedReaderAt`, as the device that its users see.
  abbrev pub aligned : ReadWriterAt
  aligned = record { State = d.State; read_at = read_at; write_at = write_at }
