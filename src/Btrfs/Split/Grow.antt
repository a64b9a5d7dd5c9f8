-- ===== src/Btrfs/Split/Grow.antt =====
-- btrfs/writer.go: `insertIntoLeaf`, `registerExtent`, `splitLeafWithPath` and `insertPtrIntoParent`.
use werunos.Base.{
  ℕ, zero, suc, ◌+◌, ◌*◌, ◌/◌, ◌%◌, none, some, List, [], ◌∷◌, ◌++◌, length, take, drop, put_le,
  ltb, ◌==◌, if◌then◌else◌,
}
use werunos.Block.Device.{ReadWriterAt}
use werunos.Btrfs.Types.{Key, decode_node_header, InternalKeyPtr}
use werunos.Btrfs.Chunks.{resolve}
use werunos.Btrfs.Tree.{node_header_size}
use werunos.Btrfs.Leaf.{ItemEntry}
use werunos.Btrfs.Edit.{
  Volume, Edit, wrote, no_mapping, read_failed, no_space, panicked, stuck, split, read_node,
  insert_in,
}
use werunos.Btrfs.Space.{allocated, no_chunks, out_of_space, crashed, allocate_space}
use werunos.Btrfs.Split.{
  PathElement, path_to, no_path, read_ptrs, insert_ptr, encode_root, extent_item_key,
  block_group_metadata, find_leaf_with_path, write_encoded, write_items_to_leaf,
  write_pointers_to_node, get_node_first_key,
}

-- The two halves of what a full node holds with the new entry.
abbrev pub left_half : {A : Type 0} → List A → List A
left_half xs = take (length xs / 2) xs

abbrev pub right_half : {A : Type 0} → List A → List A
right_half xs = drop (length xs / 2) xs

module _ {d : ReadWriterAt} where
  -- A step after one that has written.
  infixl 5 ◌>>◌
  abbrev pub ◌>>◌ : Volume d × Edit → (Volume d → Volume d × Edit) → Volume d × Edit
  (v, wrote) >> f = f v
  (v, e) >> f = (v, e)

  -- A step after one whose error is ignored; a panic is none.
  abbrev pub ignoring : Volume d × Edit → (Volume d → Volume d × Edit) → Volume d × Edit
  ignoring (v, panicked) f = (v, panicked)
  ignoring (v, stuck) f = (v, stuck)
  ignoring (v, e) f = f v

  -- The level of the tree with this root, 0 where there is none.
  abbrev pub level_of : Volume d → ℕ → ℕ
  level_of v root =
      if root == v.fs_root
      then v.fs_root_lvl
      else if root == v.extent_root
      then v.extent_root_lvl
      else if root == v.chunk_root
      then v.chunk_root_lvl
      else 0

  -- The tree gets a new root, one level above the old one.
  abbrev pub with_root : Volume d → ℕ → ℕ → Volume d
  with_root v root new_root =
      if root == v.fs_root
      then record v { fs_root = new_root; fs_root_lvl = (v.fs_root_lvl + 1) % 256 }
      else if root == v.extent_root
      then record v { extent_root = new_root; extent_root_lvl = (v.extent_root_lvl + 1) % 256 }
      else if root == v.chunk_root
      then record v { chunk_root = new_root; chunk_root_lvl = (v.chunk_root_lvl + 1) % 256 }
      else v

  -- The walks that look for free space go to a depth of `walk_fuel` nodes.
  module _ (walk_fuel sector_size : ℕ) where
    abbrev pub with_space : Volume d → (ℕ → ℕ → Volume d × Edit) → Volume d × Edit
    with_space v f =
        elim (allocate_space walk_fuel v sector_size v.node_size block_group_metadata) [
          | allocated logical phys ↦ f logical phys
          | no_chunks ↦ (v, no_space)
          | out_of_space ↦ (v, no_space)
          | crashed ↦ (v, stuck)
        ]

    -- `insert` is the insertion into the tree of extents.
    module _ (insert : Volume d → ℕ → Key → List ℕ → Volume d × Edit) where
      unfoldable pub register_extent : Volume d → ℕ → ℕ → Volume d × Edit
      register_extent v logical len =
          if v.extent_root == 0
          then (v, wrote)
          else insert v v.extent_root
              (record { objectid = logical; typ = extent_item_key; offset = len })
              (put_le 8 1 ++ (put_le 8 v.generation ++ put_le 8 1))

      -- The new root over the old one and the new pointer.
      unfoldable pub grow_root : Volume d → ℕ → InternalKeyPtr → Volume d × Edit
      grow_root v root new_ptr = with_space v λ new_root new_phys.
          let (v1, first) = get_node_first_key v root in
          elim first [
            | none ↦ (v1, panicked)
            | some left_key ↦
                let root_bytes =
                  encode_root v1.node_size v1.generation new_root ((level_of v1 root + 1) % 256)
                    left_key root new_ptr in
                write_encoded v1 new_phys (some root_bytes) >> (λ v2.
                  ignoring (register_extent v2 new_root v2.node_size)
                    (λ v3. (with_root v3 root new_root, wrote)))
          ]

      -- A full node above the leaves: the right half goes to a new node, whose pointer `up` puts one level higher.
      unfoldable pub split_node :
          (Volume d → ℕ → InternalKeyPtr → Volume d × Edit)
          → PathElement
          → Volume d
          → ℕ
          → List InternalKeyPtr
          → Volume d × Edit
      split_node up parent v root ptrs = with_space v λ new_parent new_phys.
          write_pointers_to_node v parent.logical (left_half ptrs) parent.level
          >> (λ v1. write_pointers_to_node v1 new_parent (right_half ptrs) parent.level)
          >> (λ v2. ignoring (register_extent v2 new_parent v2.node_size) λ v3.
              elim (right_half ptrs) [
                | [] ↦ (v3, panicked)
                | p ∷ rest ↦
                    up v3 root (record { key = p.key; blockptr = new_parent; generation = 0 })
              ])

      -- The path is given from below, without the node that was split.
      unfoldable pub insert_ptr_into_parent :
          List PathElement → Volume d → ℕ → InternalKeyPtr → Volume d × Edit
      insert_ptr_into_parent [] v root new_ptr = grow_root v root new_ptr
      insert_ptr_into_parent (parent ∷ path) v root new_ptr =
          let up = insert_ptr_into_parent path in
          elim (resolve v.chunks parent.logical) [
            | none ↦ (v, no_mapping)
            | some phys ↦
                let v1 : Volume d = record v { dev = (read_node v phys).0 } in
                elim (read_node v phys).1 [
                  | none ↦ (v1, read_failed)
                  | some buf ↦ elim (decode_node_header (record { buf = buf; off = 0 })) [
                    | none ↦ (v1, panicked)
                    | some (h, r) ↦ elim (read_ptrs h.nritems r) [
                      | none ↦ (v1, panicked)
                      | some old ↦
                          let ptrs = insert_ptr new_ptr old in
                          if ltb v1.node_size (node_header_size + length ptrs * 33)
                          then split_node up parent v1 root ptrs
                          else write_pointers_to_node v1 parent.logical ptrs parent.level
                    ]
                  ]
                ]
          ]

      unfoldable pub split_leaf_with_path :
          List PathElement → Volume d → ℕ → List ItemEntry → Volume d × Edit
      split_leaf_with_path [] v root all = (v, panicked)
      split_leaf_with_path (leaf ∷ path) v root all = with_space v λ new_leaf new_phys.
          write_items_to_leaf v leaf.logical (left_half all)
          >> (λ v1. write_items_to_leaf v1 new_leaf (right_half all))
          >> (λ v2. ignoring (register_extent v2 new_leaf v2.node_size) λ v3.
              elim (right_half all) [
                | [] ↦ (v3, panicked)
                | x ∷ rest ↦
                    insert_ptr_into_parent path v3 root
                      (record { key = x.k; blockptr = new_leaf; generation = 0 })
              ])

      -- What the insertion into the leaf of the path comes to.
      unfoldable pub insert_on_path :
          Volume d → ℕ → Key → List ℕ → List PathElement → Volume d × Edit
      insert_on_path v logical k bytes [] = (v, panicked)
      insert_on_path v logical k bytes (leaf ∷ path) =
          let (v1, e) = insert_in k bytes v leaf.logical in
          elim e [
            | split all ↦ split_leaf_with_path (leaf ∷ path) v1 logical all
            | other ↦ (v1, other)
          ]

    -- `insertIntoLeaf`, to a depth of `fuel` insertions: the registering of a new node is one.
    unfoldable pub insert_into_leaf : ℕ → Volume d → ℕ → Key → List ℕ → Volume d × Edit
    insert_into_leaf zero v logical k bytes = (v, stuck)
    insert_into_leaf (suc fuel) v logical k bytes =
        let (v1, search) = find_leaf_with_path (level_of v logical) v logical k [] in
        elim search [
          | no_path e ↦ (v1, e)
          | path_to path ↦ insert_on_path (insert_into_leaf fuel) v1 logical k bytes path
        ]
