-- ===== src/Btrfs/Edit/Runs.antt =====
-- Edits of a leaf with one item, in a node of 170 bytes at the front of a disk.
use werunos.Base.{
  ℕ, ◌+◌, ◌≡◌, refl, some, List, [], ◌∷◌, ◌++◌, zeros, copy_at, le, put_le, index_eq, arith,
}
use werunos.Block.Memory.{memory, memory-IsDisk}
use werunos.Btrfs.Types.{Key}
use werunos.Btrfs.Chunks.{resolve}
use werunos.Btrfs.Tree.Walk.{Entry, HasItems}
use werunos.Btrfs.Leaf.{
  ItemEntry, encode_leaf, read_items, insert_item, last_index, replace_index, total_data,
}
use werunos.Btrfs.Leaf.Written.{IsWritten, encode_leaf-IsWritten}
use werunos.Btrfs.Edit.{
  Volume, key_not_found, no_space, delete_in, update_in, insert_in, delete_from_leaf, resolve_leaf,
  find_leaf,
}
use werunos.Btrfs.Edit.Effect.{
  IsLeafAt, IsSized, HasEffect, removed, replaced, delete_in-HasEffect, update_in-HasEffect,
  insert_in-HasEffect,
}

abbrev key_of : ℕ → Key
key_of n = record { objectid = n; typ = 1; offset = 0 }

unfoldable leaf_bytes : List ℕ
unfolding put_le
leaf_bytes =
    zeros 96
    ++ (put_le 4 1
        ++ ((0 ∷ put_le 8 7)
            ++ ((1 ∷ zeros 8)
                ++ (put_le 4 65 ++ (put_le 4 4 ++ (zeros 40 ++ (1 ∷ 2 ∷ 3 ∷ 4 ∷ [])))))))

abbrev entries : List Entry
entries = (record { key = key_of 7; offset = 65; size = 4 }, 1 ∷ 2 ∷ 3 ∷ 4 ∷ []) ∷ []

abbrev items : List ItemEntry
items = record { k = key_of 7; bytes = 1 ∷ 2 ∷ 3 ∷ 4 ∷ [] } ∷ []

abbrev volume : Volume memory
volume = record {
  dev = leaf_bytes;
  chunks = record { logical = 5000; len = 170; physical = 0; flags = 4 } ∷ [];
  node_size = 170;
  generation = 3;
  fs_root = 5000;
  fs_root_lvl = 0;
  extent_root = 0;
  extent_root_lvl = 0;
  chunk_root = 0;
  chunk_root_lvl = 0;
}

abbrev volume-IsLeafAt : IsLeafAt memory-IsDisk volume 5000 entries
unfolding leaf_bytes put_le le resolve HasItems total_data
volume-IsLeafAt = record {
  phys = 0;
  buf = leaf_bytes;
  resolved = refl;
  same_length = refl;
  there = λ i lt. index_eq leaf_bytes (0 + i) i (omega arith);
  count = refl;
  items = (omega arith, refl, omega arith, refl, tt);
  keys = ((omega arith, omega arith, omega arith), tt);
  room = omega arith;
}

abbrev volume-IsSized : IsSized volume 5000
volume-IsSized = record { node_size = omega arith; generation = omega arith; address = omega arith }

absent_run : (delete_from_leaf 1 volume 5000 (key_of 8)).1 ≡ key_not_found
unfolding delete_from_leaf resolve_leaf find_leaf delete_in resolve read_items last_index leaf_bytes
    put_le le copy_at
absent_run = refl

no_space_run : (update_in (key_of 7) (zeros 60) volume 5000).1 ≡ no_space
unfolding update_in resolve read_items last_index replace_index total_data leaf_bytes put_le le
    copy_at
no_space_run = refl

encode_leaf-IsWritten_example :
    (out : List ℕ) × (encode_leaf 3 5000 (zeros 170) items ≡ some out)
    × IsWritten 3 5000 (zeros 170) items out
unfolding total_data
encode_leaf-IsWritten_example =
    encode_leaf-IsWritten 3 5000 (zeros 170) items ((omega arith, omega arith, omega arith), tt)
      (omega arith) (omega arith) (omega arith) (omega arith)

delete_in-HasEffect_example :
    HasEffect memory-IsDisk volume 5000 entries volume-IsLeafAt volume-IsSized
      (removed memory-IsDisk volume 5000 entries volume-IsLeafAt volume-IsSized (key_of 7))
      (delete_in (key_of 7) volume 5000)
delete_in-HasEffect_example =
    delete_in-HasEffect memory-IsDisk volume 5000 entries volume-IsLeafAt volume-IsSized (key_of 7)

update_in-HasEffect_example :
    HasEffect memory-IsDisk volume 5000 entries volume-IsLeafAt volume-IsSized
      (replaced memory-IsDisk volume 5000 entries volume-IsLeafAt volume-IsSized
        (key_of 7)
        (9 ∷ []))
      (update_in (key_of 7) (9 ∷ []) volume 5000)
update_in-HasEffect_example =
    update_in-HasEffect memory-IsDisk volume 5000 entries volume-IsLeafAt volume-IsSized (key_of 7)
      (9 ∷ [])

insert_in-HasEffect_example :
    HasEffect memory-IsDisk volume 5000 entries volume-IsLeafAt volume-IsSized
      (some (insert_item (key_of 2) (9 ∷ []) items))
      (insert_in (key_of 2) (9 ∷ []) volume 5000)
insert_in-HasEffect_example =
    insert_in-HasEffect memory-IsDisk volume 5000 entries volume-IsLeafAt volume-IsSized (key_of 2)
      (9 ∷ []) (omega arith, omega arith, omega arith)
