-- ===== src/Btrfs/Split/Runs.antt =====
-- Nodes of 200 bytes that are split and written.
use werunos.Base.{
  ℕ, ◌+◌, ◌*◌, ◌≤◌, ◌<◌, ◌≡◌, ◌⊎◌, refl, none, some, List, [], ◌∷◌, length, zeros, copy_at, le,
  put_le, arith,
}
use werunos.Block.Memory.{memory}
use werunos.Btrfs.Types.{
  Key, less, InternalKeyPtr, decode_node_header, decode_internal_ptr, decode_key, word, take_bytes,
}
use werunos.Btrfs.Chunks.{resolve}
use werunos.Btrfs.Crc.{calc_crc32c, crc_bytes, crc_bits}
use werunos.Btrfs.Leaf.{ItemEntry, insert_item, last_index}
use werunos.Btrfs.Leaf.Sorted.{IsSorted}
use werunos.Btrfs.Edit.{Volume, wrote}
use werunos.Btrfs.Split.{
  PathElement, read_ptrs, insert_ptr, put_ptrs, encode_node, write_pointers_to_node,
}
use werunos.Btrfs.Split.Nodes.{IsNodeOf, encode_node-IsNodeOf}
use werunos.Btrfs.Split.Grow.{left_half, right_half, insert_ptr_into_parent}
use werunos.Btrfs.Split.Halves.{AreHalves, halves-insert_item}

abbrev key_at : ℕ → Key
key_at n = record { objectid = n; typ = 1; offset = 0 }

abbrev ptr_to : ℕ → ℕ → InternalKeyPtr
ptr_to n block = record { key = key_at n; blockptr = block; generation = 9 }

abbrev two_ptrs : List InternalKeyPtr
two_ptrs = ptr_to 256 4096 ∷ ptr_to 300 8192 ∷ []

encode_node-IsNodeOf_example :
    ((101 + length two_ptrs * 33 ≤ length (zeros 200))
      × ((out : List ℕ) × (encode_node 9 4096 1 (zeros 200) two_ptrs ≡ some out)
          × IsNodeOf 9 4096 1 (zeros 200) two_ptrs out))
    ⊎ ((length (zeros 200) < 101 + length two_ptrs * 33)
        × (encode_node 9 4096 1 (zeros 200) two_ptrs ≡ none))
encode_node-IsNodeOf_example =
    encode_node-IsNodeOf 9 4096 1 (zeros 200) two_ptrs
      (
        ((omega arith, omega arith, omega arith), omega arith),
        (((omega arith, omega arith, omega arith), omega arith), tt),
      )
      (omega arith) (omega arith) (omega arith) (omega arith) (omega arith)

abbrev item_at : ℕ → ItemEntry
item_at n = record { k = key_at n; bytes = n ∷ [] }

abbrev three_items : List ItemEntry
three_items = item_at 2 ∷ item_at 4 ∷ item_at 6 ∷ []

three_items-IsSorted : IsSorted three_items
unfolding IsSorted less
three_items-IsSorted = ((refl, (refl, tt)), ((refl, tt), (tt, tt)))

three_items-new : last_index (key_at 5) three_items ≡ none
unfolding last_index
three_items-new = refl

halves-insert_item_example :
    AreHalves
      (insert_item (key_at 5) (5 ∷ []) three_items)
      (left_half (insert_item (key_at 5) (5 ∷ []) three_items))
      (right_half (insert_item (key_at 5) (5 ∷ []) three_items))
halves-insert_item_example =
    halves-insert_item (key_at 5) (5 ∷ []) three_items three_items-IsSorted three_items-new
      (omega arith)

insert_ptr_run :
    insert_ptr (ptr_to 280 12288) two_ptrs
    ≡ ptr_to 256 4096 ∷ ptr_to 280 12288 ∷ ptr_to 300 8192 ∷ []
unfolding insert_ptr less
insert_ptr_run = refl

abbrev volume : Volume memory
volume = record {
  dev = zeros 200;
  chunks = record { logical = 0; len = 200; physical = 0; flags = 4 } ∷ [];
  node_size = 200;
  generation = 9;
  fs_root = 0;
  fs_root_lvl = 1;
  extent_root = 0;
  extent_root_lvl = 0;
  chunk_root = 0;
  chunk_root_lvl = 0;
}

unfoldable with_node : Volume memory
unfolding write_pointers_to_node encode_node put_ptrs resolve calc_crc32c crc_bytes crc_bits copy_at
    le put_le
with_node = (write_pointers_to_node volume 0 two_ptrs 1).0

abbrev parent : PathElement
parent = record { logical = 0; phys = 0; level = 1; index = 0 }

-- A pointer for which the parent has room.
parent_run :
    (insert_ptr_into_parent 3 200
      (λ v l k bytes. (v, wrote))
      (parent ∷ [])
      with_node
      0
      (ptr_to 280 12288)).1
    ≡ wrote
unfolding insert_ptr_into_parent with_node insert_ptr read_ptrs less decode_node_header
    decode_internal_ptr decode_key word take_bytes write_pointers_to_node encode_node put_ptrs
    resolve calc_crc32c crc_bytes crc_bits copy_at le put_le
parent_run = refl
