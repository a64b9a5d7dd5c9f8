-- ===== src/Btrfs/Fsck/Runs.antt =====
-- The check of a leaf of 170 bytes that was written with two items, and of a node of zeros.
use werunos.Base.{
  ℕ, ◌≡◌, refl, ◌∙◌, sym, true, false, none, some, List, [], ◌∷◌, zeros, copy_at, length-filled,
  byte_at-filled, same_lists, le, arith,
}
use werunos.Block.Mbr.{ReaderAt}
use werunos.Btrfs.Types.{less, decode_node_header, take_bytes, word}
use werunos.Btrfs.Chunks.{ChunkMapping, resolve}
use werunos.Btrfs.Tree.{done}
use werunos.Btrfs.Tree.Walk.{IsNode}
use werunos.Btrfs.Crc.{calc_crc32c, crc_bytes, crc_bits}
use werunos.Btrfs.Leaf.{ItemEntry, encode_leaf, total_data}
use werunos.Btrfs.Leaf.Written.{IsWritten, encode_leaf-IsWritten}
use werunos.Btrfs.Leaf.Sorted.{IsSorted}
use werunos.Btrfs.Fsck.{FsckResult, bad_checksum, order_loop, verify_tree_checksums}
use werunos.Btrfs.Fsck.Healthy.{verify_tree_checksums-IsWritten}

abbrev two_items : List ItemEntry
two_items =
    record { k = record { objectid = 7; typ = 1; offset = 0 }; bytes = 1 ∷ 2 ∷ [] }
    ∷ record { k = record { objectid = 7; typ = 12; offset = 0 }; bytes = 3 ∷ [] }
    ∷ []

two_items-IsSorted : IsSorted two_items
unfolding IsSorted less
two_items-IsSorted = ((refl, tt), (tt, tt))

written :
    (out : List ℕ) × (encode_leaf 3 0 (zeros 170) two_items ≡ some out)
    × IsWritten 3 0 (zeros 170) two_items out
unfolding total_data
written =
    encode_leaf-IsWritten 3 0 (zeros 170) two_items
      ((omega arith, omega arith, omega arith), ((omega arith, omega arith, omega arith), tt))
      (omega arith) (omega arith) (omega arith) (omega arith)

abbrev whole_device : List ChunkMapping
whole_device = record { logical = 0; len = 170; physical = 0; flags = 4 } ∷ []

abbrev device : List ℕ → ReaderAt
device bytes = λ off n. record { bytes = bytes; err = none }

written-IsNode : IsNode (device written.0) 170 whole_device 0 written.0
unfolding resolve
written-IsNode = record {
  phys = 0;
  resolved = refl;
  readable = refl;
  same =
      same_lists (copy_at (zeros 170) 0 written.0) written.0
        (length-filled 170 written.0 ∙ sym written.2.same_length)
        λ i lt. byte_at-filled 170 written.0 i (omega (arith, written.2.same_length));
}

abbrev nothing_found : FsckResult
nothing_found = record { healthy = true; problems = []; nodes_checked = 0; items_checked = 0 }

zeros_run :
    verify_tree_checksums (device (zeros 101)) 101 whole_device 1 0 nothing_found
    ≡ done (record {
      healthy = false;
      problems = bad_checksum ∷ [];
      nodes_checked = 1;
      items_checked = 0;
    })
unfolding verify_tree_checksums resolve decode_node_header take_bytes word le copy_at order_loop
    calc_crc32c crc_bytes crc_bits
zeros_run = refl

verify_tree_checksums-IsWritten_example :
    verify_tree_checksums (device written.0) 170 whole_device 1 0 nothing_found
    ≡ done (record { healthy = true; problems = []; nodes_checked = 1; items_checked = 2 })
unfolding le
verify_tree_checksums-IsWritten_example =
    verify_tree_checksums-IsWritten (device written.0) 170 whole_device 3 0 (zeros 170) two_items
      written.0 written.2 refl two_items-IsSorted (omega arith) written-IsNode 0 nothing_found
