-- ===== src/Btrfs/Runs.antt =====
-- Runs on a device of two nodes of 206 bytes: an inner node at 0 that points to a leaf with one chunk item.
use werunos.Base.{
  ℕ, ◌-◌, ◌^◌, true, ◌≡◌, ◌↔◌, refl, none, some, List, [], ◌∷◌, ◌++◌, zeros, slice, copy_at, le,
  put_le, arith, inl, inr, length,
}
use werunos.Block.Mbr.{ReaderAt}
use werunos.Btrfs.Types.{Key, less, LeafItem, word, decode_key, decode_leaf_item}
use werunos.Btrfs.Chunks.{ChunkMapping, resolve, parse_sys_chunks}
use werunos.Btrfs.Chunks.Resolve.{AreDisjoint, Translates, resolve-Translates}
use werunos.Btrfs.Chunks.Items.{HasChunks, parse_sys_chunks-HasChunks}
use werunos.Btrfs.Tree.{Walked, done, panicked, walk_tree, leaf_loop, resolve_chunk_tree}
use werunos.Btrfs.Tree.Walk.{HasItems, HasChildren, HasTree, for_each, walk_tree-HasTree}
use werunos.Btrfs.Tree.ChunkTree.{mappings_of, resolve_chunk_tree-HasTree}

-- A chunk of 1000 bytes with two stripes, the last one at 7000 on the device.
unfoldable chunk_bytes : List ℕ
unfolding put_le
chunk_bytes =
    put_le 8 1000
    ++ zeros 16
    ++ put_le 8 4
    ++ zeros 12
    ++ put_le 2 2
    ++ zeros 2
    ++ put_le 8 1
    ++ put_le 8 5000
    ++ zeros 16
    ++ put_le 8 1
    ++ put_le 8 7000
    ++ zeros 16

abbrev chunk_key : Key
chunk_key = record { objectid = 256; typ = 228; offset = 4096 }

unfoldable key_bytes : List ℕ
unfolding put_le
key_bytes = put_le 8 256 ++ (228 ∷ put_le 8 4096)

abbrev item : LeafItem
item = record { key = chunk_key; offset = 25; size = 112 }

abbrev mapping : ChunkMapping
mapping = record { logical = 4096; len = 1000; physical = 7000; flags = 4 }

abbrev whole_device : ChunkMapping
whole_device = record { logical = 0; len = 500; physical = 0; flags = 2 }

unfoldable sys_bytes : List ℕ
unfolding key_bytes chunk_bytes
sys_bytes = key_bytes ++ chunk_bytes ++ (1 ∷ 2 ∷ [])

unfoldable inner_bytes : List ℕ
unfolding put_le
inner_bytes = zeros 96 ++ put_le 4 1 ++ (1 ∷ zeros 17) ++ put_le 8 238 ++ zeros 112

unfoldable leaf_bytes : List ℕ
unfolding put_le key_bytes chunk_bytes
leaf_bytes = zeros 96 ++ put_le 4 1 ++ (0 ∷ key_bytes) ++ put_le 4 25 ++ put_le 4 112 ++ chunk_bytes

abbrev device : ReaderAt
device = λ off n. record { bytes = slice (inner_bytes ++ leaf_bytes) off n; err = none }

key_run : less chunk_key (record chunk_key { offset = 4097 }) ≡ true
unfolding less
key_run = refl

sys_bytes-HasChunks : HasChunks sys_bytes 0 (mapping ∷ [])
unfolding HasChunks sys_bytes key_bytes chunk_bytes put_le le
sys_bytes-HasChunks = (refl, omega arith, omega arith, refl, omega arith)

device-HasTree : HasTree device 238 (whole_device ∷ []) 1 0 ((item, chunk_bytes) ∷ [])
unfolding HasTree HasChildren HasItems inner_bytes leaf_bytes key_bytes chunk_bytes put_le le
    copy_at resolve
device-HasTree = inr (record {
  buf = inner_bytes;
  is_node = record { phys = 0; resolved = refl; readable = refl; same = refl };
  is_inner = λ e. absurd cc;
  children = ((item, chunk_bytes) ∷ []) ∷ [];
  count = refl;
  pointers = (
    omega arith,
    record {
      buf = leaf_bytes;
      is_node = record { phys = 238; resolved = refl; readable = refl; same = refl };
      is_leaf = refl;
      count = refl;
      items = (omega arith, refl, omega arith, refl, tt);
    },
    tt,
  );
  all = refl;
})

abbrev disjoint : AreDisjoint (whole_device ∷ mapping ∷ [])
unfolding AreDisjoint
disjoint =
    ((omega arith, omega arith), (inl (omega arith), tt), ((omega arith, omega arith), tt, tt))

resolve-Translates_example :
    (resolve (whole_device ∷ mapping ∷ []) 4100 ≡ some 7004)
    ↔ Translates (whole_device ∷ mapping ∷ []) 4100 7004
resolve-Translates_example = resolve-Translates (whole_device ∷ mapping ∷ []) 4100 7004 disjoint

parse_sys_chunks-HasChunks_example :
    parse_sys_chunks sys_bytes (whole_device ∷ []) ≡ some (whole_device ∷ mapping ∷ [])
parse_sys_chunks-HasChunks_example =
    parse_sys_chunks-HasChunks sys_bytes (mapping ∷ []) (whole_device ∷ []) sys_bytes-HasChunks

-- The callback keeps the sizes of the items.
abbrev note_size : LeafItem → List ℕ → List ℕ → Walked (List ℕ)
note_size _ bytes sizes = done (length bytes ∷ sizes)

walk_tree-HasTree_example :
    walk_tree note_size device 238 (λ _. whole_device ∷ []) 2 0 []
    ≡ for_each note_size ((item, chunk_bytes) ∷ []) []
walk_tree-HasTree_example =
    walk_tree-HasTree note_size (λ _. whole_device ∷ []) (λ _ _ _ _ _ x p r. r) device 238
      (whole_device ∷ []) (omega arith) (omega arith) 1 2 0 ((item, chunk_bytes) ∷ []) []
      (λ x p r. r) (omega arith) device-HasTree

resolve_chunk_tree-HasTree_example :
    resolve_chunk_tree device 238 2 0 (whole_device ∷ [])
    ≡ done ((whole_device ∷ []) ++ mappings_of ((item, chunk_bytes) ∷ []))
resolve_chunk_tree-HasTree_example =
    resolve_chunk_tree-HasTree device 238 (whole_device ∷ []) 1 2 0 ((item, chunk_bytes) ∷ [])
      (omega arith) (omega arith) (omega arith) device-HasTree

-- The data of an item that begins behind 2^32 wraps around to the front of the node.
wrapping_run :
    leaf_loop note_size 1
      (record { buf = zeros 17 ++ put_le 4 (2 ^ 32 - 1) ++ put_le 4 5 ++ zeros 85; off = 0 })
      []
    ≡ done (5 ∷ [])
unfolding leaf_loop decode_leaf_item decode_key word le put_le
wrapping_run = refl

-- The end of the data wraps around: the slice panics.
panic_run :
    leaf_loop note_size 1
      (record { buf = zeros 17 ++ put_le 4 0 ++ put_le 4 (2 ^ 32 - 50) ++ zeros 85; off = 0 })
      []
    ≡ panicked
unfolding leaf_loop decode_leaf_item decode_key word le put_le
panic_run = refl
