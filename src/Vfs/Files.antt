-- ===== src/Vfs/Files.antt =====
-- The bytes of a file: `ReadFileAt` of vfs/reader.go.
pub mod Content
pub mod Blocks
pub mod ReadAt
pub mod Result
pub mod Mapped
mod Runs
use werunos.Base.{
  ℕ, zero, suc, ◌+◌, ◌-◌, ◌*◌, ◌/◌, ◌%◌, ◌^◌, Bool, true, false, Option, none, some, List, [], ◌∷◌,
  length, zeros, copy_at, slice, ltb, leb, if◌then◌else◌, min,
}
use werunos.Block.Device.{IoError, Reply, ReadWriterAt}
use werunos.Vfs.Extents.{Extent, uninitialized, block_count, phys_start}

-- The device, the buffer of the caller, and whether no read has failed.
pub record Reading (d : ReadWriterAt) : Type 0 where
  pub dev : d.State
  pub buf : List ℕ
  pub good : Bool

module _ (d : ReadWriterAt) (block_size start stop : ℕ) where
  -- The loop over the blocks of an extent, `n` of them left, the next one at `phys` on the disk and
  -- at `block_start` in the file.
  unfoldable pub read_blocks : ℕ → ℕ → ℕ → Reading d → Reading d
  read_blocks zero phys block_start r = r
  read_blocks (suc n) phys block_start r =
      let block_end = (block_start + block_size) % 2 ^ 64 in
      let (s, reply) = d.read_at r.dev (phys * block_size % 2 ^ 64) block_size in
      let block_buf = copy_at (zeros block_size) 0 reply.bytes in
      let src_start = if ltb block_start start then start - block_start else 0 in
      let src_end = if ltb stop block_end then stop - block_start else block_size in
      let dst_start = block_start + src_start - start in
      let copied = copy_at r.buf dst_start (slice block_buf src_start (src_end - src_start)) in
      let skipped = read_blocks n (phys + 1) block_end r in
      let rest = read_blocks n (phys + 1) block_end (record r { dev = s; buf = copied }) in
      if leb block_end start
      then skipped
      else if leb stop block_start
      then r
      else elim reply.err [ none ↦ rest | some e ↦ record r { dev = s; good = false } ]

  -- The loop over the extents; `logical_pos` is where the next one begins in the file.
  unfoldable pub read_extents : List Extent → ℕ → Reading d → Reading d
  read_extents [] logical_pos r = r
  read_extents (e ∷ extents) logical_pos r =
      let extent_end = (logical_pos + block_count e * block_size) % 2 ^ 64 in
      let r' = read_blocks (block_count e) (phys_start e) logical_pos r in
      let skipped = read_extents extents extent_end r in
      let rest = read_extents extents extent_end r' in
      if leb extent_end start
      then skipped
      else if leb stop logical_pos
      then r
      else if uninitialized e
      then skipped
      else if r'.good
      then rest
      else r'

-- `ReadFileAt`: the device, the buffer, and the count of bytes unless a read failed.
-- For an offset from 0 on; before it nothing is read.
unfoldable pub read_file_at :
    (d : ReadWriterAt) → ℕ → List Extent → ℕ → d.State → List ℕ → ℕ → d.State × List ℕ × Option ℕ
read_file_at d block_size extents file_size s buf start =
    let stop = min (start + length buf) file_size in
    let total = stop - start in
    let r =
      read_extents d block_size start stop extents 0
        (record { dev = s; buf = copy_at buf 0 (zeros total); good = true }) in
    if leb file_size start
    then (s, buf, some 0)
    else if r.good
    then (r.dev, r.buf, some total)
    else (r.dev, r.buf, none)
