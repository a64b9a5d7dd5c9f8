-- ===== src/Btrfs/Tree.antt =====
-- btrfs/tree.go: the walk over the nodes of a tree, and the tree of the chunks.
pub mod Walk
pub mod ChunkTree
use werunos.Base.{
  ℕ, zero, suc, ◌+◌, ◌-◌, ◌%◌, ◌^◌, Bool, Option, none, some, List, length, ltb, ◌==◌,
  if◌then◌else◌, zeros, copy_at, slice,
}
use werunos.Block.Mbr.{ReaderAt}
use werunos.Btrfs.Types.{
  ByteReader, NodeHeader, decode_node_header, LeafItem, decode_leaf_item, InternalKeyPtr,
  decode_internal_ptr,
}
use werunos.Btrfs.Chunks.{ChunkMapping, resolve, chunk_item_key, parse_chunk_item}

pub data TreeError : Type 0 where
  no_mapping read_failed out_of_bounds : TreeError

-- What a walk ends with, and the state that its callbacks have made: `panicked` is a run-time panic of Go; `stuck`
-- is no Go value: the recursion was cut off.
pub data Walked (A : Type 0) : Type 0 where
  done : A → Walked A
  failed : TreeError → A → Walked A
  panicked stuck : Walked A

infixl 5 ◌>>=◌
abbrev pub ◌>>=◌ : {A : Type 0} → Walked A → (A → Walked A) → Walked A
done a >>= f = f a
failed e a >>= f = failed e a
panicked >>= f = panicked
stuck >>= f = stuck

abbrev pub node_header_size : ℕ
node_header_size = 101

module _ {A : Type 0} (cb : LeafItem → List ℕ → A → Walked A) where
  -- The loop over the items of a leaf, `n` of them left.
  unfoldable pub leaf_loop : ℕ → ByteReader → A → Walked A
  leaf_loop zero r a = done a
  leaf_loop (suc n) r a = elim (decode_leaf_item r) [
    | none ↦ panicked
    | some (item, r1) ↦
        let data_start = (node_header_size + item.offset) % 2 ^ 32 in
        let data_end = (data_start + item.size) % 2 ^ 32 in
        if ltb (length r.buf % 2 ^ 32) data_end
        then failed out_of_bounds a
        else if ltb data_end data_start
        then panicked
        else (do a1 ← cb item (slice r.buf data_start (data_end - data_start)) a; leaf_loop n r1 a1)
  ]

  -- The loop over the pointers of an inner node, `walk` going on at each.
  unfoldable pub node_loop : (ℕ → A → Walked A) → ℕ → ByteReader → A → Walked A
  node_loop walk zero r a = done a
  node_loop walk (suc n) r a = elim (decode_internal_ptr r) [
    | none ↦ panicked
    | some (ptr, r1) ↦ (do a1 ← walk ptr.blockptr a; node_loop walk n r1 a1)
  ]

  -- `walkTreeWithNodeCB`, to a depth of `fuel` nodes; `chunks` are the mappings of the context, which a
  -- callback may change, and the argument `level` is left out, which the body only passes on.
  module _ (dev : ReaderAt) (node_size : ℕ) (chunks : A → List ChunkMapping)
      (node_cb : Option (ℕ → A → A)) where
    abbrev pub visited : ℕ → A → A
    visited phys a = elim node_cb [ none ↦ a | some f ↦ f phys a ]

    unfoldable pub walk_tree_with_node_cb : ℕ → ℕ → A → Walked A
    walk_tree_with_node_cb zero addr a = stuck
    walk_tree_with_node_cb (suc fuel) addr a = elim (resolve (chunks a) addr) [
      | none ↦ failed no_mapping a
      | some phys ↦
          let a1 = visited phys a in
          let reply = dev phys node_size in
          let buf = copy_at (zeros node_size) 0 reply.bytes in
          elim reply.err [
            | some e ↦ failed read_failed a1
            | none ↦ elim (decode_node_header (record { buf = buf; off = 0 })) [
              | none ↦ panicked
              | some (h, r) ↦
                  if h.level == 0
                  then leaf_loop h.nritems r a1
                  else node_loop (walk_tree_with_node_cb fuel) h.nritems r a1
            ]
          ]
    ]

abbrev pub walk_tree :
    {A : Type 0}
    → (LeafItem → List ℕ → A → Walked A)
    → ReaderAt
    → ℕ
    → (A → List ChunkMapping)
    → ℕ
    → ℕ
    → A
    → Walked A
walk_tree cb dev node_size chunks = walk_tree_with_node_cb cb dev node_size chunks none

-- The callback of `resolveChunkTree`.
unfoldable pub chunk_cb : LeafItem → List ℕ → List ChunkMapping → Walked (List ChunkMapping)
chunk_cb item bytes chunks =
    if item.key.typ == chunk_item_key
    then elim (parse_chunk_item item bytes chunks) [ none ↦ panicked | some more ↦ done more ]
    else done chunks

unfoldable pub resolve_chunk_tree :
    ReaderAt → ℕ → ℕ → ℕ → List ChunkMapping → Walked (List ChunkMapping)
resolve_chunk_tree dev node_size fuel root_addr chunks =
    walk_tree chunk_cb dev node_size (λ cs. cs) fuel root_addr chunks
