-- ===== src/Vfs/Append/Runs.antt =====
-- Extent trees on concrete bytes: a leaf of an inode, and nodes on a disk of blocks of 36 bytes.
use werunos.Base.{
  ℕ, ◌≡◌, refl, none, some, List, [], ◌∷◌, ◌++◌, zeros, copy_at, le, put_le, are_bytes→IsBytes,
  arith,
}
use werunos.Block.Mbr.{ReaderAt}
use werunos.Vfs.Extents.{
  Extent, ExtentHeader, get_header, put_header, get_extent, put_extent, get_idx, put_idx, ok,
  leaf_entries, index_entries, read_child, parse_node, ◌>>=◌,
}
use werunos.Vfs.Extents.Find.{entries_at}
use werunos.Block.Memory.{memory, memory-IsDisk}
use werunos.Vfs.Append.OnDisk.{reader, parse_node-append_to_leaf_block}
use werunos.Vfs.Append.{append_to_leaf_block, adjoins, add_entry, append_to_leaf}
use werunos.Vfs.Append.Mapping.{append_extent, Appends}
use werunos.Vfs.Append.Leaf.{HasRoom, Reads, append_to_leaf-append_extent}

abbrev leaf_header : ExtentHeader
leaf_header = record { magic = 0xf30a; entries = 1; max = 4; depth = 0; generation = 5 }

abbrev two_blocks : Extent
two_blocks = record { block = 0; len = 2; start_hi = 0; start_lo = 100 }

-- It goes on where `two_blocks` ends.
abbrev next_blocks : Extent
next_blocks = record { block = 2; len = 3; start_hi = 0; start_lo = 102 }

abbrev far_block : Extent
far_block = record { block = 9; len = 1; start_hi = 0; start_lo = 700 }

unfoldable node_bytes : List ℕ
unfolding put_header put_extent put_le
node_bytes = put_header leaf_header ++ (put_extent two_blocks ++ zeros 12)

merged_run :
    append_to_leaf node_bytes (get_header node_bytes) next_blocks
    ≡ some (put_header leaf_header ++ (put_extent (record two_blocks { len = 5 }) ++ zeros 12))
unfolding append_to_leaf node_bytes adjoins add_entry get_header get_extent le put_le put_header
    put_extent copy_at
merged_run = refl

added_run :
    append_to_leaf node_bytes (get_header node_bytes) far_block
    ≡ some (
        put_header (record leaf_header { entries = 2 })
        ++ (put_extent two_blocks ++ put_extent far_block))
unfolding append_to_leaf node_bytes adjoins add_entry get_header get_extent le put_le put_header
    put_extent copy_at
added_run = refl

node_bytes-HasRoom : HasRoom node_bytes
unfolding node_bytes get_header le put_header put_extent put_le
node_bytes-HasRoom = record {
  bytes = are_bytes→IsBytes node_bytes refl;
  magic = refl;
  depth = refl;
  below_max = omega arith;
  fits = omega arith;
}

append_to_leaf-append_extent_example :
    Reads node_bytes
      (append_extent (entries_at node_bytes (get_header node_bytes).entries 0) next_blocks)
      (append_to_leaf node_bytes (get_header node_bytes) next_blocks)
    × Appends
        (entries_at node_bytes (get_header node_bytes).entries 0)
        next_blocks
        (append_extent (entries_at node_bytes (get_header node_bytes).entries 0) next_blocks)
append_to_leaf-append_extent_example =
    append_to_leaf-append_extent node_bytes next_blocks node_bytes-HasRoom
      (record {
        block = omega arith;
        len = omega arith;
        start_hi = omega arith;
        start_lo = omega arith;
      })
      (omega arith)

-- An index node of one entry, which points to block 7.
unfoldable index_bytes : List ℕ
unfolding put_header put_idx put_le
index_bytes =
    put_header (record { magic = 0xf30a; entries = 1; max = 2; depth = 1; generation = 0 })
    ++ (put_idx (record { block = 0; leaf_lo = 7; leaf_hi = 0; unused = 0 }) ++ zeros 12)

unfoldable leaf_disk : ReaderAt
leaf_disk off n = record { bytes = node_bytes; err = none }

leaf_run : parse_node leaf_disk 36 2 index_bytes ≡ ok (two_blocks ∷ [])
unfolding leaf_disk parse_node index_entries read_child leaf_entries index_bytes node_bytes
    get_header get_extent get_idx le put_le put_header put_extent put_idx copy_at
leaf_run = refl

-- The leaf in block 1 of a disk of two blocks of 36 bytes.
unfoldable two_block_disk : List ℕ
unfolding node_bytes
two_block_disk = zeros 36 ++ node_bytes

unfoldable merged_disk : List ℕ
unfolding put_header put_extent put_le
merged_disk =
    zeros 36 ++ (put_header leaf_header ++ (put_extent (record two_blocks { len = 5 }) ++ zeros 12))

block_run :
    append_to_leaf_block memory 36 two_block_disk 1 node_bytes (get_header node_bytes) next_blocks
    ≡ some (merged_disk, record { count = 36; err = none })
unfolding append_to_leaf_block append_to_leaf two_block_disk merged_disk node_bytes adjoins
    add_entry get_header get_extent le put_le put_header put_extent copy_at
block_run = refl

parse_node-append_to_leaf_block_example :
    ((read_child (reader memory-IsDisk 36 1 merged_disk) 36 1
        >>= parse_node (reader memory-IsDisk 36 1 merged_disk) 36 1)
      ≡ ok (append_extent (entries_at node_bytes (get_header node_bytes).entries 0) next_blocks))
    × Appends
        (entries_at node_bytes (get_header node_bytes).entries 0)
        next_blocks
        (append_extent (entries_at node_bytes (get_header node_bytes).entries 0) next_blocks)
unfolding merged_disk node_bytes put_header put_extent put_le
parse_node-append_to_leaf_block_example =
    parse_node-append_to_leaf_block memory-IsDisk 36 1 two_block_disk node_bytes next_blocks
      merged_disk (record { count = 36; err = none }) node_bytes-HasRoom refl
      (record {
        block = omega arith;
        len = omega arith;
        start_hi = omega arith;
        start_lo = omega arith;
      })
      (omega arith) block_run refl refl
