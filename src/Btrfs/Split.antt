-- ===== src/Btrfs/Split.antt =====
-- btrfs/writer.go: the growth of a tree. `insertIntoLeaf` with the path to the leaf, the splitting of leaves and of the nodes
-- above them, and the new root. Nodes are of 134 bytes at least.
pub mod Nodes
pub mod Grow
pub mod Halves
mod Runs
use werunos.Base.{
  ℕ, zero, suc, ◌+◌, ◌-◌, ◌*◌, ◌/◌, ◌%◌, ◌^◌, Bool, true, false, not, ◌||◌, Option, none, some,
  List, [], ◌∷◌, ◌++◌, length, take, drop, slice, zeros, copy_at, le, put_le, ltb, leb, ◌==◌,
  if◌then◌else◌,
}
use werunos.Block.Device.{ReadWriterAt}
use werunos.Btrfs.Types.{
  ByteReader, Key, less, decode_node_header, LeafItem, decode_leaf_item, InternalKeyPtr,
  decode_internal_ptr,
}
use werunos.Btrfs.Chunks.{ChunkMapping, resolve}
use werunos.Btrfs.Tree.{node_header_size}
use werunos.Btrfs.Crc.{calc_crc32c}
use werunos.Btrfs.Leaf.{ItemEntry, put_key, encode_leaf}
use werunos.Btrfs.Edit.{
  Volume, Edit, wrote, no_mapping, read_failed, key_not_found, no_space, write_failed, panicked,
  stuck, split, out_of_bounds, leaf_full, read_node, insert_in,
}
use werunos.Btrfs.Space.{Allocation, allocated, no_chunks, out_of_space, crashed, allocate_space}

-- An element of the path to a leaf; the index of the leaf, which is -1 in the code, is 0, and no index is read.
pub record PathElement : Type 0 where
  pub logical : ℕ
  pub phys : ℕ
  pub level : ℕ
  pub index : ℕ

-- What a search for the leaf gives: the elements of the path, the leaf first.
pub data PathSearch : Type 0 where
  path_to : List PathElement → PathSearch
  no_path : Edit → PathSearch

-- The pointer to follow and its index: the last one whose key is not above `k`, or the first one; `none` is a panic.
unfoldable pub best_ptr_at : Key → ℕ → ℕ → ByteReader → ℕ × ℕ → Option (ℕ × ℕ)
best_ptr_at k zero i r best = some best
best_ptr_at k (suc n) i r best = elim (decode_internal_ptr r) [
  | none ↦ none
  | some (p, r1) ↦
      best_ptr_at k n (i + 1) r1 (if (i == 0) || not (less k p.key) then (p.blockptr, i) else best)
]

-- The pointers of a node, `n` of them; `none` is a panic.
unfoldable pub read_ptrs : ℕ → ByteReader → Option (List InternalKeyPtr)
read_ptrs zero r = some []
read_ptrs (suc n) r = elim (decode_internal_ptr r) [
  | none ↦ none
  | some (p, r1) ↦ elim (read_ptrs n r1) [ none ↦ none | some ptrs ↦ some (p ∷ ptrs) ]
]

-- The new pointer before the first one that is not less.
unfoldable pub insert_ptr : InternalKeyPtr → List InternalKeyPtr → List InternalKeyPtr
insert_ptr new [] = new ∷ []
insert_ptr new (p ∷ ptrs) =
    let rest = insert_ptr new ptrs in if less p.key new.key then p ∷ rest else new ∷ p ∷ ptrs

-- The pointers, from index `i` on, each with the generation of the superblock.
unfoldable pub put_ptrs : ℕ → List InternalKeyPtr → ℕ → List ℕ → List ℕ
put_ptrs generation [] i dst = dst
put_ptrs generation (p ∷ ptrs) i dst = put_ptrs generation ptrs (i + 1) (
    copy_at dst (node_header_size + i * 33)
      (put_key p.key ++ (put_le 8 p.blockptr ++ put_le 8 generation)))

-- The fields of the head of a node above the leaves.
abbrev pub put_node_header : ℕ → ℕ → ℕ → ℕ → List ℕ → List ℕ
put_node_header count level generation logical dst =
    copy_at
      (copy_at (copy_at (copy_at dst 96 (put_le 4 count)) 100 (put_le 1 level)) 80
        (put_le 8 generation))
      48 (put_le 8 logical)

abbrev pub with_checksum : List ℕ → List ℕ
with_checksum dst = copy_at dst 0 (put_le 4 (calc_crc32c (drop 32 dst)))

-- The node that `writePointersToNode` writes, `old` being the node that was read or zeros; `none` is a panic.
unfoldable pub encode_node : ℕ → ℕ → ℕ → List ℕ → List InternalKeyPtr → Option (List ℕ)
encode_node generation logical level old ptrs =
    let dst = copy_at (zeros (length old)) 0 (slice old 0 node_header_size) in
    let headed = put_node_header (length ptrs) level generation logical dst in
    if ltb (length old) (node_header_size + length ptrs * 33)
    then none
    else some (with_checksum (put_ptrs generation ptrs 0 headed))

-- The root over two nodes, of owner 5.
unfoldable pub encode_root : ℕ → ℕ → ℕ → ℕ → Key → ℕ → InternalKeyPtr → List ℕ
encode_root size generation logical level left_key left right =
    let headed = put_node_header 2 level generation logical (zeros size) in
    with_checksum (
      put_ptrs generation
        (record { key = left_key; blockptr = left; generation = generation } ∷ right ∷ []) 0
        (copy_at headed 112 (put_le 8 5)))

abbrev pub no_key : Key
no_key = record { objectid = 0; typ = 0; offset = 0 }

-- `BTRFS_EXTENT_ITEM_KEY` and `BTRFS_BLOCK_GROUP_METADATA`
abbrev pub extent_item_key : ℕ
extent_item_key = 168

abbrev pub block_group_metadata : ℕ
block_group_metadata = 4

module _ {d : ReadWriterAt} where
  -- Where the search ends.
  abbrev pub path_end : Volume d → ℕ → List PathElement → Volume d × PathSearch
  path_end v curr path = elim (resolve v.chunks curr) [
    | none ↦ (v, no_path no_mapping)
    | some phys ↦ (v, path_to (record { logical = curr; phys = phys; level = 0; index = 0 } ∷ path))
  ]

  -- `findLeafWithPath`, the path so far from below; the level falls by one with each node.
  unfoldable pub find_leaf_with_path :
      ℕ → Volume d → ℕ → Key → List PathElement → Volume d × PathSearch
  find_leaf_with_path zero v curr k path = path_end v curr path
  find_leaf_with_path (suc lvl) v curr k path =
      let deeper = λ (v1 : Volume d) (ptr : ℕ) (path1 : List PathElement).
        find_leaf_with_path lvl v1 ptr k path1 in
      elim (resolve v.chunks curr) [
        | none ↦ (v, no_path no_mapping)
        | some phys ↦
            let v1 : Volume d = record v { dev = (read_node v phys).0 } in
            elim (read_node v phys).1 [
              | none ↦ (v1, no_path read_failed)
              | some buf ↦ elim (decode_node_header (record { buf = buf; off = 0 })) [
                | none ↦ (v1, no_path panicked)
                | some (h, r) ↦ elim (best_ptr_at k h.nritems 0 r (0, 0)) [
                  | none ↦ (v1, no_path panicked)
                  | some (ptr, i) ↦
                      let path1 =
                        record { logical = curr; phys = phys; level = suc lvl; index = i } ∷ path in
                      if ptr == 0 then path_end v1 curr path1 else deeper v1 ptr path1
                ]
              ]
            ]
      ]

  -- The write of a node, or the panic that there is none.
  abbrev pub write_encoded : Volume d → ℕ → Option (List ℕ) → Volume d × Edit
  write_encoded v phys none = (v, panicked)
  write_encoded v phys (some dst) =
      let (s, w) = d.write_at v.dev phys dst in
      (record v { dev = s }, elim w.err [ none ↦ wrote | some e ↦ write_failed ])

  -- A node as it is read, or zeros.
  abbrev pub read_or_zeros : Volume d → ℕ → Volume d × List ℕ
  read_or_zeros v phys =
      let (s, got) = read_node v phys in
      (record v { dev = s }, elim got [ some buf ↦ buf | none ↦ zeros v.node_size ])

  unfoldable pub write_items_to_leaf : Volume d → ℕ → List ItemEntry → Volume d × Edit
  write_items_to_leaf v leaf_logical items = elim (resolve v.chunks leaf_logical) [
    | none ↦ (v, no_mapping)
    | some phys ↦
        let (v1, buf) = read_or_zeros v phys in
        write_encoded v1 phys (
          if ltb v.node_size (node_header_size + length items * 25)
          then none
          else encode_leaf v.generation leaf_logical buf items)
  ]

  unfoldable pub write_pointers_to_node : Volume d → ℕ → List InternalKeyPtr → ℕ → Volume d × Edit
  write_pointers_to_node v logical ptrs level = elim (resolve v.chunks logical) [
    | none ↦ (v, no_mapping)
    | some phys ↦
        let (v1, buf) = read_or_zeros v phys in
        write_encoded v1 phys (encode_node v.generation logical level buf ptrs)
  ]

  -- The first key of a node, which the caller takes as zeros where there is an error; `none` is a panic.
  unfoldable pub get_node_first_key : Volume d → ℕ → Volume d × Option Key
  get_node_first_key v logical = elim (resolve v.chunks logical) [
    | none ↦ (v, some no_key)
    | some phys ↦
        let (s, got) = read_node v phys in
        (
          record v { dev = s },
          elim got [
            | none ↦ some no_key
            | some buf ↦ elim (decode_node_header (record { buf = buf; off = 0 })) [
              | none ↦ none
              | some (h, r) ↦
                  if h.nritems == 0
                  then some no_key
                  else if h.level == 0
                  then elim (decode_leaf_item r) [ none ↦ none | some (item, r1) ↦ some item.key ]
                  else elim (decode_internal_ptr r) [ none ↦ none | some (ptr, r1) ↦ some ptr.key ]
            ]
          ],
        )
  ]
