-- ===== src/Btrfs/Space.antt =====
-- btrfs/writer.go: `allocateSpace`, which looks for free space in a chunk, and the ranges that are in use.
pub mod Fit
pub mod Occupied
pub mod Free
mod Runs
use Prim.Native.Nat.{bit_and}
use werunos.Base.{
  ℕ, zero, suc, ◌+◌, ◌-◌, ◌*◌, ◌/◌, ◌%◌, ◌^◌, Bool, ◌&&◌, not, Option, none, some, List, [], ◌∷◌,
  ◌++◌, length, byte_at, le, ltb, leb, ◌==◌, if◌then◌else◌,
}
use werunos.Block.Device.{ReadWriterAt}
use werunos.Block.Mbr.{ReaderAt}
use werunos.Btrfs.Types.{LeafItem}
use werunos.Btrfs.Chunks.{ChunkMapping}
use werunos.Btrfs.Tree.{Walked, done, failed, panicked, stuck, walk_tree}
use werunos.Btrfs.Edit.{Volume}

pub record ExtentRange : Type 0 where
  pub logical : ℕ
  pub len : ℕ

-- The first chunk of the type, or the first one.
unfoldable pub chunk_of_type : ℕ → List ChunkMapping → Option ChunkMapping
chunk_of_type bg_type [] = none
chunk_of_type bg_type (c ∷ chunks) =
    let rest = chunk_of_type bg_type chunks in if bit_and c.flags bg_type == 0 then rest else some c

abbrev pub target_chunk : ℕ → List ChunkMapping → Option ChunkMapping
target_chunk bg_type chunks = elim (chunk_of_type bg_type chunks) [
  | some c ↦ some c
  | none ↦ elim chunks [ [] ↦ none | c ∷ _ ↦ some c ]
]

-- The ranges that an item of the extent tree, and one of the tree of files, says are in use.
abbrev pub extent_of : ℕ → LeafItem → List ExtentRange
extent_of node_size item =
    if item.key.typ == 168
    then record { logical = item.key.objectid; len = item.key.offset } ∷ []
    else if item.key.typ == 169
    then record { logical = item.key.objectid; len = node_size } ∷ []
    else []

abbrev pub data_of : LeafItem → List ℕ → List ExtentRange
data_of item bytes =
    if item.key.typ == 108
    then (if leb 45 (length bytes) && not (byte_at bytes 20 == 0)
        then (if ltb 0 (le 8 bytes 21) && ltb 0 (le 8 bytes 29)
            then record { logical = le 8 bytes 21; len = le 8 bytes 29 } ∷ []
            else [])
        else [])
    else []

abbrev pub note_extent : ℕ → LeafItem → List ℕ → List ExtentRange → Walked (List ExtentRange)
note_extent node_size item bytes occupied = done (occupied ++ extent_of node_size item)

abbrev pub note_data : LeafItem → List ℕ → List ExtentRange → Walked (List ExtentRange)
note_data item bytes occupied = done (occupied ++ data_of item bytes)

-- An error of a walk is not looked at; what has been found up to it counts.
abbrev pub whatever_found : Walked (List ExtentRange) → Option (List ExtentRange)
whatever_found (done occupied) = some occupied
whatever_found (failed e occupied) = some occupied
whatever_found panicked = none
whatever_found stuck = none

-- `sort.Slice` by the logical address.
unfoldable pub sort_in : ExtentRange → List ExtentRange → List ExtentRange
sort_in x [] = x ∷ []
sort_in x (y ∷ ranges) =
    let rest = sort_in x ranges in if leb x.logical y.logical then x ∷ y ∷ ranges else y ∷ rest

unfoldable pub sort_ranges : List ExtentRange → List ExtentRange
sort_ranges [] = []
sort_ranges (x ∷ ranges) = sort_in x (sort_ranges ranges)

abbrev pub round_up : ℕ → ℕ → ℕ
round_up sector_size x = (x + sector_size - 1) % 2 ^ 64 / sector_size * sector_size % 2 ^ 64

-- The loop over the ranges in use.
unfoldable pub first_fit : ℕ → ℕ → List ExtentRange → ℕ → ℕ
first_fit sector_size aligned [] candidate = candidate
first_fit sector_size aligned (x ∷ occupied) candidate =
    let next = first_fit sector_size aligned occupied candidate in
    let behind =
      first_fit sector_size aligned occupied
        (round_up sector_size ((x.logical + x.len) % 2 ^ 64)) in
    if leb ((x.logical + x.len) % 2 ^ 64) candidate
    then next
    else if leb ((candidate + aligned) % 2 ^ 64) x.logical
    then candidate
    else behind

pub data Allocation : Type 0 where
  allocated : ℕ → ℕ → Allocation
  no_chunks out_of_space crashed : Allocation

abbrev pub sector : ℕ → ℕ
sector sector_size = if sector_size == 0 then 4096 else sector_size

-- The place in a chunk, by the ranges in use.
unfoldable pub allocate_in : ℕ → ℕ → ChunkMapping → List ExtentRange → Allocation
allocate_in sector_size size c occupied =
    let aligned = round_up sector_size size in
    let candidate = first_fit sector_size aligned (sort_ranges occupied) c.logical in
    if leb ((candidate + aligned) % 2 ^ 64) ((c.logical + c.len) % 2 ^ 64)
    then allocated candidate ((c.physical + (candidate - c.logical)) % 2 ^ 64)
    else out_of_space

-- The device as the walks read it.
abbrev pub reader : {d : ReadWriterAt} → Volume d → ReaderAt
reader {d} v = λ off n. (d.read_at v.dev off n).1

module _ {d : ReadWriterAt} (fuel : ℕ) (v : Volume d) where
  -- The ranges in use; `none` is a panic, or a walk that was cut off.
  unfoldable pub occupied_ranges : Option (List ExtentRange)
  occupied_ranges =
      elim (if v.extent_root == 0
        then some []
        else whatever_found (
            walk_tree (note_extent v.node_size) (reader v) v.node_size (λ _. v.chunks) fuel
              v.extent_root [])) [
                | none ↦ none
                | some found ↦ whatever_found (
                    walk_tree note_data (reader v) v.node_size (λ _. v.chunks) fuel v.fs_root found)
              ]

  unfoldable pub allocate_space : ℕ → ℕ → ℕ → Allocation
  allocate_space sector_size size bg_type = elim (target_chunk bg_type v.chunks) [
    | none ↦ no_chunks
    | some c ↦ elim occupied_ranges [
      | none ↦ crashed
      | some occupied ↦ allocate_in (sector sector_size) size c occupied
    ]
  ]
