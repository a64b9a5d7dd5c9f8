-- ===== src/Btrfs/Tree/ChunkTree.antt =====
-- The tree of the chunks gives its mappings to the context.
use werunos.Base.{
  ℕ, ◌+◌, ◌*◌, ◌^◌, ◌≤◌, ◌<◌, ◌≡◌, refl, sym, ap, ◌∙◌, Bool, ◌&&◌, not, some, List, [], ◌∷◌, ◌++◌,
  append-nil, append_assoc, length, leb, ◌==◌, if◌then◌else◌, Bool-cases, inl, inr, subst,
}
use werunos.Block.Mbr.{ReaderAt}
use werunos.Btrfs.Types.{LeafItem}
use werunos.Btrfs.Chunks.{ChunkMapping, resolve, chunk_item_key}
use werunos.Btrfs.Chunks.Items.{stripes, chunk_at, parse_chunk_item-chunk_at}
use werunos.Btrfs.Chunks.Resolve.{resolve-append}
use werunos.Btrfs.Tree.{done, chunk_cb, resolve_chunk_tree}
use werunos.Btrfs.Tree.Walk.{Entry, HasTree, for_each, walk_tree-HasTree, done_inj}

-- The entry is a chunk with stripes, and has them all.
abbrev pub is_chunk : LeafItem → List ℕ → Bool
is_chunk item bytes =
    (item.key.typ == chunk_item_key)
    && leb 48 (length bytes)
    && not (stripes bytes 0 == 0)
    && leb (48 + stripes bytes 0 * 32) (length bytes)

-- The mapping that an item describes, if any.
abbrev pub mapping_of : LeafItem → List ℕ → List ChunkMapping
mapping_of item bytes = if is_chunk item bytes then chunk_at item.key.offset bytes 0 ∷ [] else []

abbrev pub mappings_of : List Entry → List ChunkMapping
mappings_of [] = []
mappings_of ((item, bytes) ∷ entries) = mapping_of item bytes ++ mappings_of entries

chunk_cb-mapping_of :
    (item : LeafItem) (bytes : List ℕ) (chunks : List ChunkMapping)
    → chunk_cb item bytes chunks ≡ done (chunks ++ mapping_of item bytes)
unfolding chunk_cb
chunk_cb-mapping_of item bytes chunks = elim (Bool-cases (item.key.typ == chunk_item_key)) [
  | inl t ↦
      rw (t, parse_chunk_item-chunk_at item bytes chunks)
        (elim (Bool-cases fits) [
          | inl u ↦ rw u refl
          | inr u ↦ rw u (ap done (sym (append-nil chunks)))
        ])
  | inr t ↦ rw t (ap done (sym (append-nil chunks)))
]
  where
    fits : Bool
    fits =
        leb 48 (length bytes)
        && not (stripes bytes 0 == 0)
        && leb (48 + stripes bytes 0 * 32) (length bytes)

for_each-mappings_of :
    (entries : List Entry) (chunks : List ChunkMapping)
    → for_each chunk_cb entries chunks ≡ done (chunks ++ mappings_of entries)
unfolding for_each
for_each-mappings_of [] chunks = ap done (sym (append-nil chunks))
for_each-mappings_of ((item, bytes) ∷ entries) chunks = rw (chunk_cb-mapping_of item bytes chunks) (
    for_each-mappings_of entries (chunks ++ mapping_of item bytes)
    ∙ ap done (append_assoc chunks (mapping_of item bytes) (mappings_of entries)))

-- A walk over the tree of the chunks that the known mappings reach adds the mappings of its items in their order, and
-- neither fails nor panics.
pub resolve_chunk_tree-HasTree :
    (dev : ReaderAt) (node_size : ℕ) (chunks : List ChunkMapping) (h fuel root_addr : ℕ)
    (entries : List Entry)
    → 101 ≤ node_size
    → node_size < 2 ^ 32
    → h < fuel
    → HasTree dev node_size chunks h root_addr entries
    → resolve_chunk_tree dev node_size fuel root_addr chunks ≡ done (chunks ++ mappings_of entries)
unfolding resolve_chunk_tree
resolve_chunk_tree-HasTree dev node_size chunks h fuel root_addr entries wide small lt t =
    walk_tree-HasTree chunk_cb (λ cs. cs) keeps dev node_size chunks wide small h fuel root_addr
      entries chunks (λ x p r. r) lt t
    ∙ for_each-mappings_of entries chunks
  where
    keeps :
        (item : LeafItem) (bytes : List ℕ) (a b : List ChunkMapping)
        → chunk_cb item bytes a ≡ done b
        → (x p : ℕ) → resolve a x ≡ some p
        → resolve b x ≡ some p
    keeps item bytes a b e x p r =
        subst (λ (cs : List ChunkMapping). resolve cs x ≡ some p)
          (done_inj _ _ (sym (chunk_cb-mapping_of item bytes a) ∙ e))
          (resolve-append a (mapping_of item bytes) x p r)
