-- ===== src/Vfs/Append/OnDisk.antt =====
-- An extent added to a leaf block, and the block read again from the disk.
use werunos.Base.{
  ℕ, ◌+◌, ◌*◌, ◌%◌, ◌^◌, ◌≡◌, sym, ap, subst, ◌∙◌, Option, none, some, some_inj, List, length,
  zeros, copy_at, byte_at-filled, length-filled, same_lists, patch_inside, index_eq, option_both,
  arith,
}
use werunos.Block.Device.{Reply, Written, ReadWriterAt, IsDisk}
use werunos.Block.Mbr.{ReaderAt}
use werunos.Vfs.Extents.{Extent, get_header, Parse, ok, read_child, parse_node, ◌>>=◌}
use werunos.Vfs.Extents.Codec.{IsExtent}
use werunos.Vfs.Extents.Find.{entries_at}
use werunos.Vfs.Append.{append_to_leaf_block}
use werunos.Vfs.Append.Mapping.{append_extent, EndsIn32, Appends, find-append_extent_or}
use werunos.Vfs.Append.Leaf.{HasRoom, append_to_leaf-Reads}

module _ {d : ReadWriterAt} (h : IsDisk d) (block_size block : ℕ) where
  abbrev pub reader : d.State → ReaderAt
  reader s off n = (d.read_at s off n).1

  abbrev pub block_offset : ℕ
  block_offset = block * block_size % 2 ^ 64

  -- What is read of a block that has been written.
  read_child-written :
      (s : d.State) (after : List ℕ)
      → length after ≡ block_size
      → (d.write_at s block_offset after).1.err ≡ none
      → (reader (d.write_at s block_offset after).0 block_offset block_size).err ≡ none
      → read_child (reader (d.write_at s block_offset after).0) block_size block ≡ ok after
  unfolding read_child
  read_child-written s after size w e =
      option_both (λ (r : Parse (List ℕ)). r ≡ ok after) reply.err (λ _. ap ok bytes)
        λ x q. absurd cc
    where
      s' : d.State
      s' = (d.write_at s block_offset after).0

      reply : Reply
      reply = reader s' block_offset block_size

      bytes : copy_at (zeros block_size) 0 reply.bytes ≡ after
      bytes =
          same_lists (copy_at (zeros block_size) 0 reply.bytes) after
            (omega (arith, length-filled block_size reply.bytes, size))
            λ i lt.
              byte_at-filled block_size reply.bytes i (omega (arith, size))
              ∙ (h.reads s' block_offset block_size).same i
                  (omega (arith, size, (h.reads s' block_offset block_size).full e))
              ∙ (h.writes s block_offset after).done w (block_offset + i)
              ∙ patch_inside (h.content s) block_offset after (block_offset + i) (omega arith)
                  (omega arith)
              ∙ index_eq after _ _ (omega arith)

  -- The parse of the block after the write.
  reparsed :
      (s : d.State) (buf : List ℕ) (e : Extent) (s' : d.State) (w : Written)
      → HasRoom buf
      → length buf ≡ block_size
      → IsExtent e
      → append_to_leaf_block d block_size s block buf (get_header buf) e ≡ some (s', w)
      → w.err ≡ none
      → (reader s' block_offset block_size).err ≡ none
      → (read_child (reader s') block_size block >>= parse_node (reader s') block_size 1)
        ≡ ok (append_extent (entries_at buf (get_header buf).entries 0) e)
  unfolding append_to_leaf_block
  reparsed s buf e s' w room size f run =
      let t = append_to_leaf-Reads buf e room f in
      subst Reparses (some_inj (sym (ap written t.written) ∙ run)) λ w_ok e_ok.
        ap (λ r. r >>= parse_node (reader (d.write_at s block_offset t.after).0) block_size 1)
          (read_child-written s t.after (t.same_length ∙ size) w_ok e_ok)
        ∙ t.reads (reader (d.write_at s block_offset t.after).0) block_size 0
    where
      written : Option (List ℕ) → Option (d.State × Written)
      written o = elim o [
        | none ↦ none
        | some data_bytes ↦ some (d.write_at s block_offset data_bytes)
      ]

      Reparses : d.State × Written → Type 0
      Reparses (s2, w2) =
          w2.err ≡ none
          → (reader s2 block_offset block_size).err ≡ none
          → (read_child (reader s2) block_size block >>= parse_node (reader s2) block_size 1)
            ≡ ok (append_extent (entries_at buf (get_header buf).entries 0) e)

  -- A leaf of a whole block that has room for an entry, and an extent whose fields fit and whose end is a
  -- block number of 32 bits: where `appendExtentToLeafBlock` has written the leaf without an error, and the
  -- device still reads, reading the block and parsing it gives extents by which every block that the old ones
  -- map is where it was, and every other block is where the new extent puts it, if it does.
  pub parse_node-append_to_leaf_block :
      (s : d.State) (buf : List ℕ) (e : Extent) (s' : d.State) (w : Written)
      → HasRoom buf
      → length buf ≡ block_size
      → IsExtent e
      → EndsIn32 e
      → append_to_leaf_block d block_size s block buf (get_header buf) e ≡ some (s', w)
      → w.err ≡ none
      → (reader s' block_offset block_size).err ≡ none
      → ((read_child (reader s') block_size block >>= parse_node (reader s') block_size 1)
          ≡ ok (append_extent (entries_at buf (get_header buf).entries 0) e))
        × Appends
            (entries_at buf (get_header buf).entries 0)
            e
            (append_extent (entries_at buf (get_header buf).entries 0) e)
  parse_node-append_to_leaf_block s buf e s' w room size f ends run w_ok e_ok =
      (reparsed s buf e s' w room size f run w_ok e_ok, find-append_extent_or _ e ends)
