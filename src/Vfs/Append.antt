-- ===== src/Vfs/Append.antt =====
-- Adding an extent to a leaf of an extent tree: `appendExtentToLeaf` of vfs/allocate.go, on the 60
-- bytes of an inode, and the same code of `appendExtentToLeafBlock` on a block.
pub mod Mapping
pub mod Leaf
pub mod OnDisk
mod Runs
use werunos.Base.{
  ℕ, ◌+◌, ◌-◌, ◌*◌, ◌/◌, ◌%◌, ◌^◌, Bool, not, ◌&&◌, Option, none, some, List, [], ◌∷◌, length,
  copy_at, ltb, leb, ◌==◌, if◌then◌else◌,
}
use werunos.Block.Device.{ReadWriterAt, Written}
use werunos.Vfs.Extents.{
  Extent, ExtentHeader, get_extent, put_extent, put_header, header_size, entry_size, uninitialized,
  block_count,
}

-- The extent `e` goes on where `last` ends, in the file and on the disk, and both hold data.
unfoldable pub adjoins : Extent → Extent → Bool
adjoins last e =
    last.start_hi == e.start_hi
    && (last.block + block_count last == e.block
        && (last.start_lo + block_count last == e.start_lo
            && (not (uninitialized last) && not (uninitialized e))))

abbrev pub combined_len : Extent → Extent → ℕ
combined_len last e = block_count last + block_count e

abbrev pub merges : Extent → Extent → Bool
merges last e = adjoins last e && leb (combined_len last e) 0x7fff

abbrev pub merged : Extent → Extent → Extent
merged last e = record last { len = last.len / 2 ^ 15 * 2 ^ 15 + combined_len last e }

abbrev pub entry_offset : ℕ → ℕ
entry_offset i = header_size + i * entry_size

-- `none` is a panic: a slice expression that reaches past the buffer.
unfoldable pub add_entry : List ℕ → ExtentHeader → Extent → Option (List ℕ)
add_entry data_bytes hdr e =
    if ltb (length data_bytes) (entry_offset hdr.entries)
    then none
    else some (
        copy_at (copy_at data_bytes (entry_offset hdr.entries) (put_extent e)) 0
          (put_header (record hdr { entries = (hdr.entries + 1) % 2 ^ 16 })))

unfoldable pub append_to_leaf : List ℕ → ExtentHeader → Extent → Option (List ℕ)
unfolding adjoins add_entry
append_to_leaf data_bytes hdr e =
    let last_off = entry_offset (hdr.entries - 1) in
    let last = get_extent data_bytes last_off in
    if hdr.entries == 0
    then add_entry data_bytes hdr e
    else if ltb (length data_bytes) (last_off + entry_size)
    then none
    else if merges last e
    then some (copy_at data_bytes last_off (put_extent (merged last e)))
    else add_entry data_bytes hdr e

-- `appendExtentToLeafBlock`: the changed node is written to its block.
unfoldable pub append_to_leaf_block :
    (d : ReadWriterAt)
    → ℕ
    → d.State
    → ℕ
    → List ℕ
    → ExtentHeader
    → Extent
    → Option (d.State × Written)
append_to_leaf_block d block_size s block buf hdr e = elim (append_to_leaf buf hdr e) [
  | none ↦ none
  | some data_bytes ↦ some (d.write_at s (block * block_size % 2 ^ 64) data_bytes)
]
