-- ===== src/Btrfs/Edit/Effect.antt =====
-- What the operations on a leaf do to the device.
use werunos.Base.{
  ℕ, ◌+◌, ◌^◌, ◌≤◌, ◌<◌, ◌≡◌, ◌⊎◌, inl, inr, refl, sym, subst, ◌∙◌, Option, none, some, List,
  length, length-filled, byte_at, byte_at-filled, same_lists, patch, patch_cong, patch_outside,
  zeros, copy_at, le, ltb, leb, if_both, option_both, Option-cases, arith,
}
use werunos.Block.Device.{ReadWriterAt, IsDisk}
use werunos.Btrfs.Types.{Key}
use werunos.Btrfs.Chunks.{resolve}
use werunos.Btrfs.Tree.Walk.{Entry, HasItems}
use werunos.Btrfs.Leaf.{
  ItemEntry, insert_item, last_index, remove_index, replace_index, needed, read_items,
}
use werunos.Btrfs.Leaf.Encoded.{IsKey, HaveKeys}
use werunos.Btrfs.Leaf.Written.{IsWritten, encode_leaf-IsWritten}
use werunos.Btrfs.Edit.{
  Volume, Edit, wrote, no_mapping, read_failed, out_of_bounds, key_not_found, no_space, leaf_full,
  write_failed, panicked, stuck, split, write_leaf, with_items, delete_items, update_items,
  insert_items, delete_in, update_in, insert_in,
}
use werunos.Btrfs.Edit.Reads.{
  items_of, read_items-HasItems, needed_remove, remove_index-HaveKeys, replace_index-HaveKeys,
  insert_item-HaveKeys,
}

-- The device has a leaf with these entries at a logical address.
pub record IsLeafAt {d : ReadWriterAt} (h : IsDisk d) (v : Volume d) (logical : ℕ)
    (entries : List Entry) : Type 0 where
  pub phys : ℕ
  pub buf : List ℕ
  pub resolved : resolve v.chunks logical ≡ some phys
  pub same_length : length buf ≡ v.node_size
  pub there : (i : ℕ) → i < v.node_size → h.content v.dev (phys + i) ≡ byte_at buf i
  pub count : le 4 buf 96 ≡ length entries
  pub items : HasItems buf 101 entries
  pub keys : HaveKeys (items_of entries)
  pub room : needed (items_of entries) ≤ v.node_size

-- The sizes and the numbers of the volume fit into their words.
pub record IsSized {d : ReadWriterAt} (v : Volume d) (logical : ℕ) : Type 0 where
  pub node_size : v.node_size < 2 ^ 32
  pub generation : v.generation < 2 ^ 64
  pub address : logical < 2 ^ 64

module _ {d : ReadWriterAt} (h : IsDisk d) (v : Volume d) (logical : ℕ) (entries : List Entry)
    (leaf : IsLeafAt h v logical entries) (sized : IsSized v logical) where
  abbrev Same : Volume d → Type 0
  Same v' = (i : ℕ) → h.content v'.dev i ≡ h.content v.dev i

  -- The node has the new items, and no other byte of the device has changed.
  pub record Rewritten (v' : Volume d) (items : List ItemEntry) : Type 0 where
    pub out : List ℕ
    pub is_written : IsWritten v.generation logical leaf.buf items out
    pub done : (i : ℕ) → h.content v'.dev i ≡ patch (h.content v.dev) leaf.phys out i

  -- How an operation that makes `new` of the items ends: the node is rewritten with the new items, or it is as it was for
  -- the reason that the result names; where the write fails, the bytes outside the node are as they were. It neither
  -- panics nor finds an item outside the node.
  abbrev Effect : Option (List ItemEntry) → Volume d → Edit → Type 0
  Effect new v' wrote = (items : List ItemEntry) × (new ≡ some items) × Rewritten v' items
  Effect new v' key_not_found = (new ≡ none) × Same v'
  Effect new v' no_space =
      (items : List ItemEntry) × (new ≡ some items) × (v.node_size < needed items) × Same v'
  Effect new v' (split items) = (new ≡ some items) × (v.node_size < needed items) × Same v'
  Effect new v' leaf_full = (0xfff0 ≤ length (items_of entries)) × Same v'
  Effect new v' read_failed = Same v'
  Effect new v' write_failed =
      (i : ℕ)
      → (i < leaf.phys) ⊎ (leaf.phys + v.node_size ≤ i)
      → h.content v'.dev i ≡ h.content v.dev i
  Effect new v' no_mapping = ⊥
  Effect new v' out_of_bounds = ⊥
  Effect new v' panicked = ⊥
  Effect new v' stuck = ⊥

  pub record HasEffect (new : Option (List ItemEntry)) (result : Volume d × Edit) : Type 0 where
    pub others : result.0 ≡ record v { dev = result.0.dev }
    pub effect : Effect new result.0 result.1

  abbrev v1 : Volume d
  v1 = record v { dev = (d.read_at v.dev leaf.phys v.node_size).0 }

  write_leaf-HasEffect :
      (items : List ItemEntry)
      → HaveKeys items
      → needed items ≤ v.node_size
      → HasEffect (some items) (write_leaf v1 logical leaf.phys leaf.buf items)
  write_leaf-HasEffect items ks room =
      let w =
        encode_leaf-IsWritten v.generation logical leaf.buf items ks
          (omega (arith, leaf.same_length)) (omega (arith, leaf.same_length, sized.node_size))
          sized.generation sized.address in
      rw (write_leaf, w.1)
        (option_both (HasEffect (some items)) (d.write_at v1.dev leaf.phys w.0).1.err
          (λ e. record {
            others = refl;
            effect = (
              items,
              refl,
              record {
                out = w.0;
                is_written = w.2;
                done = λ i.
                    (h.writes v1.dev leaf.phys w.0).done e i
                    ∙ patch_cong (h.content v1.dev) (h.content v.dev) leaf.phys w.0 i (same i);
              },
            );
          })
          λ x e. record {
            others = refl;
            effect = λ i o. torn w.0 (w.2.same_length ∙ leaf.same_length) i o;
          })
    where
      same : (i : ℕ) → h.content v1.dev i ≡ h.content v.dev i
      same = (h.reads v.dev leaf.phys v.node_size).kept

      torn :
          (out : List ℕ)
          → length out ≡ v.node_size
          → (i : ℕ) → (i < leaf.phys) ⊎ (leaf.phys + v.node_size ≤ i)
          → h.content (d.write_at v1.dev leaf.phys out).0 i ≡ h.content v.dev i
      torn out l i o = elim ((h.writes v1.dev leaf.phys out).torn i) [
        | inl q ↦ q ∙ same i
        | inr q ↦ q ∙ patch_outside (h.content v1.dev) leaf.phys out i (omega (arith, l)) ∙ same i
      ]

  with_items-HasEffect :
      (new : Option (List ItemEntry))
      (edit : Volume d → ℕ → List ℕ → List ItemEntry → Volume d × Edit)
      → HasEffect new (edit v1 leaf.phys leaf.buf (items_of entries))
      → HasEffect new (with_items v logical edit)
  with_items-HasEffect new edit e =
      rw (with_items, leaf.resolved)
        (option_both After (d.read_at v.dev leaf.phys v.node_size).1.err
          (λ q.
            subst After_read (sym (is_buf q))
              (rw (leaf.count, read_items-HasItems leaf.buf entries 0 101 refl leaf.items) e))
          λ x q. record { others = refl; effect = (h.reads v.dev leaf.phys v.node_size).kept })
    where
      After_read : List ℕ → Type 0
      After_read buf =
          HasEffect new (elim (read_items buf (le 4 buf 96) 0) as (λ _. Volume d × Edit) [
            | none ↦ (v1, out_of_bounds)
            | some items ↦ edit v1 leaf.phys buf items
          ])

      After : d.State × Option (List ℕ) → Type 0
      After r = HasEffect new (elim r.1 as (λ _. Volume d × Edit) [
        | none ↦ (record v { dev = r.0 }, read_failed)
        | some buf ↦ elim (read_items buf (le 4 buf 96) 0) [
          | none ↦ (record v { dev = r.0 }, out_of_bounds)
          | some items ↦ edit (record v { dev = r.0 }) leaf.phys buf items
        ]
      ])

      is_buf :
          (d.read_at v.dev leaf.phys v.node_size).1.err ≡ none
          → copy_at (zeros v.node_size) 0 (d.read_at v.dev leaf.phys v.node_size).1.bytes ≡ leaf.buf
      is_buf q =
          same_lists _ leaf.buf
            (length-filled v.node_size (d.read_at v.dev leaf.phys v.node_size).1.bytes
              ∙ sym leaf.same_length)
            λ i lt.
              byte_at-filled v.node_size (d.read_at v.dev leaf.phys v.node_size).1.bytes i
                (omega (arith, leaf.same_length))
              ∙ (h.reads v.dev leaf.phys v.node_size).same i
                  (omega (arith, leaf.same_length, (h.reads v.dev leaf.phys v.node_size).full q))
              ∙ leaf.there i (omega (arith, leaf.same_length))

  same_read : (i : ℕ) → h.content v1.dev i ≡ h.content v.dev i
  same_read = (h.reads v.dev leaf.phys v.node_size).kept

  -- The items without the last one that has the key.
  abbrev pub removed : Key → Option (List ItemEntry)
  removed k = elim (last_index k (items_of entries)) [
    | none ↦ none
    | some i ↦ some (remove_index i (items_of entries))
  ]

  -- The items with other bytes in the last one that has the key.
  abbrev pub replaced : Key → List ℕ → Option (List ItemEntry)
  replaced k bytes = elim (last_index k (items_of entries)) [
    | none ↦ none
    | some i ↦ some (replace_index i bytes (items_of entries))
  ]

  -- `deleteFromLeaf`, at a leaf that is on the device and fits its node: the node is rewritten without the
  -- last item that has the key, and no other byte changes; where no item has the key, or a read fails, the
  -- device is as it was, and where the write fails the bytes outside the node are. It does not panic.
  pub delete_in-HasEffect : (k : Key) → HasEffect (removed k) (delete_in k v logical)
  unfolding delete_in
  delete_in-HasEffect k =
      with_items-HasEffect (removed k) (delete_items k logical)
        (elim (Option-cases (last_index k (items_of entries))) [
          | inl e ↦
              rw (delete_items, removed, e) (record { others = refl; effect = (refl, same_read) })
          | inr (i, e) ↦
              rw (delete_items, removed, e)
                (write_leaf-HasEffect (remove_index i (items_of entries))
                  (remove_index-HaveKeys (items_of entries) i leaf.keys)
                  (omega (arith, needed_remove (items_of entries) i, leaf.room)))
        ])

  -- `updateInLeaf`, at a leaf that is on the device and fits its node: the node is rewritten with the new
  -- bytes in the last item that has the key, and no other byte changes; where no item has the key, where the
  -- new items do not fit, or where a read fails, the device is as it was, and where the write fails the bytes
  -- outside the node are. It does not panic.
  pub update_in-HasEffect :
      (k : Key) (bytes : List ℕ) → HasEffect (replaced k bytes) (update_in k bytes v logical)
  unfolding update_in
  update_in-HasEffect k bytes =
      with_items-HasEffect (replaced k bytes) (update_items k bytes logical)
        (elim (Option-cases (last_index k (items_of entries))) [
          | inl e ↦
              rw (update_items, replaced, e) (record { others = refl; effect = (refl, same_read) })
          | inr (i, e) ↦
              let new = replace_index i bytes (items_of entries) in
              rw (update_items, replaced, e)
                (if_both (HasEffect (some new)) (ltb v.node_size (needed new))
                  (λ t. record { others = refl; effect = (new, refl, ground arith, same_read) })
                  (λ t.
                    write_leaf-HasEffect new
                      (replace_index-HaveKeys (items_of entries) i bytes leaf.keys) (ground arith)))
        ])

  -- `insertIntoLeaf`, at a leaf that is on the device and fits its node: the node is rewritten with the item
  -- before the first one that is not less, and no other byte changes; where the items do not fit they are
  -- handed on to be split, and then, as with a failed read or a leaf of 0xfff0 items, the device is as it
  -- was; where the write fails the bytes outside the node are. It does not panic.
  pub insert_in-HasEffect :
      (k : Key) (bytes : List ℕ)
      → IsKey k
      → HasEffect (some (insert_item k bytes (items_of entries))) (insert_in k bytes v logical)
  unfolding insert_in
  insert_in-HasEffect k bytes ks =
      let new = insert_item k bytes (items_of entries) in
      with_items-HasEffect (some new) (insert_items k bytes logical) (
        if_both (HasEffect (some new)) (leb 0xfff0 (length (items_of entries)))
          (λ t. record { others = refl; effect = (ground arith, same_read) })
          (λ _.
            if_both (HasEffect (some new)) (ltb v.node_size (needed new))
              (λ t. record { others = refl; effect = (refl, ground arith, same_read) })
              (λ t.
                write_leaf-HasEffect new
                  (insert_item-HaveKeys (items_of entries) k bytes ks leaf.keys) (ground arith))))
