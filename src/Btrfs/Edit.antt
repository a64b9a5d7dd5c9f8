-- ===== src/Btrfs/Edit.antt =====
-- btrfs/writer.go: the leaf of a key, and `deleteFromLeaf`, `updateInLeaf` and `insertIntoLeaf`, the last one
-- where the new item fits into the leaf. Nodes are of 101 bytes at least.
pub mod Reads
pub mod Effect
mod Runs
use werunos.Base.{
  ℕ, zero, suc, ◌+◌, ◌-◌, ◌*◌, Bool, true, false, not, ◌||◌, Option, none, some, List, [], ◌∷◌,
  ◌++◌, length, zeros, copy_at, le, ltb, leb, ◌==◌, if◌then◌else◌,
}
use werunos.Block.Device.{ReadWriterAt}
use werunos.Btrfs.Types.{
  ByteReader, Key, less, decode_node_header, InternalKeyPtr, decode_internal_ptr,
}
use werunos.Btrfs.Chunks.{ChunkMapping, resolve}
use werunos.Btrfs.Leaf.{
  ItemEntry, read_items, insert_item, last_index, remove_index, replace_index, needed, encode_leaf,
}

-- The fields of `FileSystem` and of its superblock that the writing of trees uses.
pub record Volume (d : ReadWriterAt) : Type 0 where
  pub dev : d.State
  pub chunks : List ChunkMapping
  pub node_size : ℕ
  pub generation : ℕ
  pub fs_root : ℕ
  pub fs_root_lvl : ℕ
  pub extent_root : ℕ
  pub extent_root_lvl : ℕ
  pub chunk_root : ℕ
  pub chunk_root_lvl : ℕ

-- How an operation on a leaf ends: `leaf_full` is the refusal of more than 0xFFF0 items, `split` the call of
-- `splitLeafWithPath` with the items, `panicked` a run-time panic of Go, and `stuck` no Go value: the search for the
-- leaf was cut off.
pub data Edit : Type 0 where
  wrote no_mapping read_failed out_of_bounds key_not_found no_space leaf_full write_failed panicked
        stuck :
      Edit
  split : List ItemEntry → Edit

-- What a search for a leaf gives: the address of the leaf.
pub data Search : Type 0 where
  found : ℕ → Search
  stopped : Edit → Search

-- The pointer to follow: the last one whose key is not above `k`, or the first one; `none` is a panic.
unfoldable pub best_ptr : Key → ℕ → Bool → ByteReader → ℕ → Option ℕ
best_ptr k zero is_first r best = some best
best_ptr k (suc n) is_first r best = elim (decode_internal_ptr r) [
  | none ↦ none
  | some (p, r1) ↦
      best_ptr k n false r1 (if is_first || not (less k p.key) then p.blockptr else best)
]

module _ {d : ReadWriterAt} where
  abbrev pub read_node : Volume d → ℕ → d.State × Option (List ℕ)
  read_node v phys =
      let (s, reply) = d.read_at v.dev phys v.node_size in
      elim reply.err [
        | none ↦ (s, some (copy_at (zeros v.node_size) 0 reply.bytes))
        | some e ↦ (s, none)
      ]

  -- `findLeaf`, to a depth of `fuel` nodes.
  unfoldable pub find_leaf : ℕ → Volume d → ℕ → ℕ → Key → Volume d × Search
  find_leaf zero v root lvl k = (v, stopped stuck)
  find_leaf (suc fuel) v root lvl k =
      let deeper = λ (v1 : Volume d) (ptr lvl1 : ℕ). find_leaf fuel v1 ptr lvl1 k in
      if lvl == 0 then (v, found root) else elim (resolve v.chunks root) [
        | none ↦ (v, stopped no_mapping)
        | some phys ↦
            let v1 : Volume d = record v { dev = (read_node v phys).0 } in
            elim (read_node v phys).1 [
              | none ↦ (v1, stopped read_failed)
              | some buf ↦ elim (decode_node_header (record { buf = buf; off = 0 })) [
                | none ↦ (v1, stopped panicked)
                | some (h, r) ↦
                    if h.level == 0
                    then (v1, found root)
                    else elim (best_ptr k h.nritems true r 0) [
                      | none ↦ (v1, stopped panicked)
                      | some ptr ↦
                          if ptr == 0 then (v1, found root) else deeper v1 ptr (h.level - 1)
                    ]
              ]
            ]
      ]

  -- `resolveLeaf`
  unfoldable pub resolve_leaf : ℕ → Volume d → ℕ → Key → Volume d × Search
  resolve_leaf fuel v logical k =
      if logical == v.fs_root
      then find_leaf fuel v logical v.fs_root_lvl k
      else if logical == v.extent_root
      then find_leaf fuel v logical v.extent_root_lvl k
      else if logical == v.chunk_root
      then find_leaf fuel v logical v.chunk_root_lvl k
      else (v, found logical)

  -- The write of a changed leaf.
  abbrev pub write_leaf : Volume d → ℕ → ℕ → List ℕ → List ItemEntry → Volume d × Edit
  write_leaf v leaf_logical phys buf items =
      elim (encode_leaf v.generation leaf_logical buf items) [
        | none ↦ (v, panicked)
        | some dst ↦
            let v1 : Volume d = record v { dev = (d.write_at v.dev phys dst).0 } in
            elim (d.write_at v.dev phys dst).1.err [
              | none ↦ (v1, wrote)
              | some e ↦ (v1, write_failed)
            ]
      ]

  -- The read of a leaf, its items given to `edit` with its place and its bytes.
  abbrev pub with_items :
      Volume d → ℕ → (Volume d → ℕ → List ℕ → List ItemEntry → Volume d × Edit) → Volume d × Edit
  with_items v leaf_logical edit = elim (resolve v.chunks leaf_logical) [
    | none ↦ (v, no_mapping)
    | some phys ↦
        let v1 : Volume d = record v { dev = (read_node v phys).0 } in
        elim (read_node v phys).1 [
          | none ↦ (v1, read_failed)
          | some buf ↦ elim (read_items buf (le 4 buf 96) 0) [
            | none ↦ (v1, out_of_bounds)
            | some items ↦ edit v1 phys buf items
          ]
        ]
  ]

  -- What is done with the items of a leaf that has been found.
  abbrev pub delete_items : Key → ℕ → Volume d → ℕ → List ℕ → List ItemEntry → Volume d × Edit
  delete_items k leaf_logical v phys buf items = elim (last_index k items) [
    | none ↦ (v, key_not_found)
    | some i ↦ write_leaf v leaf_logical phys buf (remove_index i items)
  ]

  abbrev pub update_items :
      Key → List ℕ → ℕ → Volume d → ℕ → List ℕ → List ItemEntry → Volume d × Edit
  update_items k bytes leaf_logical v phys buf items = elim (last_index k items) [
    | none ↦ (v, key_not_found)
    | some i ↦
        if ltb v.node_size (needed (replace_index i bytes items))
        then (v, no_space)
        else write_leaf v leaf_logical phys buf (replace_index i bytes items)
  ]

  abbrev pub insert_items :
      Key → List ℕ → ℕ → Volume d → ℕ → List ℕ → List ItemEntry → Volume d × Edit
  insert_items k bytes leaf_logical v phys buf items =
      if leb 0xfff0 (length items)
      then (v, leaf_full)
      else if ltb v.node_size (needed (insert_item k bytes items))
      then (v, split (insert_item k bytes items))
      else write_leaf v leaf_logical phys buf (insert_item k bytes items)

  -- `deleteFromLeaf` and `updateInLeaf` of a leaf that has been found, and `insertIntoLeaf` at the leaf at the end of
  -- the path.
  unfoldable pub delete_in : Key → Volume d → ℕ → Volume d × Edit
  delete_in k v leaf_logical = with_items v leaf_logical (delete_items k leaf_logical)

  unfoldable pub update_in : Key → List ℕ → Volume d → ℕ → Volume d × Edit
  update_in k bytes v leaf_logical = with_items v leaf_logical (update_items k bytes leaf_logical)

  unfoldable pub insert_in : Key → List ℕ → Volume d → ℕ → Volume d × Edit
  insert_in k bytes v leaf_logical = with_items v leaf_logical (insert_items k bytes leaf_logical)

  abbrev pub at_leaf : Volume d × Search → (Volume d → ℕ → Volume d × Edit) → Volume d × Edit
  at_leaf (v, found leaf_logical) edit = edit v leaf_logical
  at_leaf (v, stopped e) edit = (v, e)

  unfoldable pub delete_from_leaf : ℕ → Volume d → ℕ → Key → Volume d × Edit
  delete_from_leaf fuel v logical k = at_leaf (resolve_leaf fuel v logical k) (delete_in k)

  unfoldable pub update_in_leaf : ℕ → Volume d → ℕ → Key → List ℕ → Volume d × Edit
  update_in_leaf fuel v logical k bytes =
      at_leaf (resolve_leaf fuel v logical k) (update_in k bytes)
