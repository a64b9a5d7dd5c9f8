-- ===== src/Btrfs/Space/Free.antt =====
-- The space that is allocated is in a chunk and free.
use werunos.Base.{ℕ, ◌+◌, ◌-◌, ◌%◌, ◌^◌, ◌≤◌, ◌<◌, ◌≡◌, ◌⊎◌, some, List, All, leb, if_both, arith}
use werunos.Block.Device.{ReadWriterAt}
use werunos.Btrfs.Chunks.{ChunkMapping}
use werunos.Btrfs.Edit.{Volume}
use werunos.Btrfs.Space.{
  ExtentRange, Allocation, allocated, no_chunks, out_of_space, crashed, target_chunk, round_up,
  sector, sort_ranges, first_fit, allocate_in, allocate_space,
}
use werunos.Btrfs.Space.Fit.{
  round_up-bounds, Misses, sort_ranges-IsSorted, sort_ranges-All, All-sort_ranges, first_fit-Misses,
}
use werunos.Btrfs.Space.Occupied.{HasTrees, in_use, occupied_ranges-HasTrees}

-- Nothing comes near 2^64: the ranges in use and the chunk end at `bound`, with room above it.
pub record IsBounded (sector_size size : ℕ) (c : ChunkMapping) (occupied : List ExtentRange)
    : Type 0 where
  pub bound : ℕ
  pub ranges : All (λ x. x.logical + x.len ≤ bound) occupied
  pub chunk : c.logical + c.len ≤ bound
  pub device : c.physical + c.len < 2 ^ 64
  pub room : bound + sector_size + (size + sector_size) < 2 ^ 64

-- A place of at least `size` bytes in the chunk that none of the ranges meets, and where the chunk has it on the device.
pub record IsFree (size : ℕ) (c : ChunkMapping) (occupied : List ExtentRange) (logical physical : ℕ)
    : Type 0 where
  pub aligned : ℕ
  pub large : size ≤ aligned
  pub from : c.logical ≤ logical
  pub to : logical + aligned ≤ c.logical + c.len
  pub place : physical ≡ c.physical + (logical - c.logical)
  pub misses : All (λ x. (x.logical + x.len ≤ logical) ⊎ (logical + aligned ≤ x.logical)) occupied

-- What an allocation may give.
abbrev pub Allocated : ℕ → ChunkMapping → List ExtentRange → Allocation → Type 0
Allocated size c occupied (allocated logical physical) = IsFree size c occupied logical physical
Allocated size c occupied no_chunks = ⊥
Allocated size c occupied out_of_space = Unit {0}
Allocated size c occupied crashed = ⊥

allocate_in-Allocated :
    (sector_size size : ℕ) (c : ChunkMapping) (occupied : List ExtentRange)
    → 0 < sector_size
    → IsBounded sector_size size c occupied
    → Allocated size c occupied (allocate_in sector_size size c occupied)
unfolding allocate_in
allocate_in-Allocated sector_size size c occupied pos b =
    if_both (Allocated size c occupied)
      (leb ((candidate + aligned) % 2 ^ 64) ((c.logical + c.len) % 2 ^ 64))
      (λ t.
        let fits = inside (ground arith) in
        record {
          aligned = aligned;
          large = up.0;
          from = fit.0;
          to = fits;
          place = omega (arith, fit.0, fits, b.device);
          misses = sort_ranges-All (Misses sector_size pos aligned candidate) occupied fit.2;
        })
      (λ _. tt)
  where
    aligned : ℕ
    aligned = round_up sector_size size

    candidate : ℕ
    candidate = first_fit sector_size aligned (sort_ranges occupied) c.logical

    up : (size ≤ aligned) × (aligned < size + sector_size)
    up = round_up-bounds sector_size pos size (omega (arith, b.room))

    fit :
        (c.logical ≤ candidate)
        × (candidate < b.bound + sector_size)
        × All (Misses sector_size pos aligned candidate) (sort_ranges occupied)
    fit =
        first_fit-Misses sector_size pos b.bound aligned c.logical (sort_ranges occupied)
          (sort_ranges-IsSorted occupied)
          (All-sort_ranges (λ x. x.logical + x.len ≤ b.bound) occupied b.ranges)
          (omega (arith, b.chunk)) (omega (arith, b.room, up))

    inside :
        (candidate + aligned) % 2 ^ 64 ≤ (c.logical + c.len) % 2 ^ 64
        → candidate + aligned ≤ c.logical + c.len
    inside le =
        let m : (candidate + aligned) % 2 ^ 64 ≡ candidate + aligned =
          omega (arith, fit.1, b.room, up) in
        let n : (c.logical + c.len) % 2 ^ 64 ≡ c.logical + c.len = omega (arith, b.chunk, b.room) in
        omega (arith, m, n)

module _ {d : ReadWriterAt} (v : Volume d) (fuel : ℕ) (t : HasTrees v fuel) where
  -- Where both trees are on the device, and nothing comes near 2^64, an allocation ends with a place of the size in the chunk,
  -- which meets none of the extents of the extent tree and of the files, or finds no space.
  pub allocate_space-Allocated :
      (sector_size size bg_type : ℕ) (c : ChunkMapping)
      → 101 ≤ v.node_size
      → v.node_size < 2 ^ 32
      → target_chunk bg_type v.chunks ≡ some c
      → IsBounded (sector sector_size) size c (in_use v t)
      → Allocated size c (in_use v t) (allocate_space fuel v sector_size size bg_type)
  unfolding allocate_space
  allocate_space-Allocated sector_size size bg_type c wide small found b =
      rw (allocate_space, found, occupied_ranges-HasTrees v fuel t wide small)
        (allocate_in-Allocated (sector sector_size) size c (in_use v t) sector_pos b)
    where
      sector_pos : 0 < sector sector_size
      sector_pos = ground arith
