-- ===== src/Btrfs/Space/Occupied.antt =====
-- The ranges in use are those of the items of the two trees.
use werunos.Base.{
  ℕ, ◌^◌, ◌≤◌, ◌<◌, ◌≡◌, ◌≢◌, refl, sym, ap, ◌∙◌, false, some, List, [], ◌∷◌, ◌++◌, append-nil,
  append_assoc, ◌==◌, ne→==,
}
use werunos.Block.Device.{ReadWriterAt}
use werunos.Btrfs.Types.{LeafItem}
use werunos.Btrfs.Tree.{done, walk_tree}
use werunos.Btrfs.Tree.Walk.{Entry, HasTree, for_each, walk_tree-HasTree}
use werunos.Btrfs.Edit.{Volume}
use werunos.Btrfs.Space.{
  ExtentRange, extent_of, data_of, note_extent, note_data, reader, occupied_ranges,
}

-- The ranges that the items of a tree give, by what each of them gives.
abbrev pub ranges : (LeafItem → List ℕ → List ExtentRange) → List Entry → List ExtentRange
ranges f [] = []
ranges f ((item, bytes) ∷ entries) = f item bytes ++ ranges f entries

for_each-ranges :
    (f : LeafItem → List ℕ → List ExtentRange) (entries : List Entry) (found : List ExtentRange)
    → for_each (λ item bytes occupied. done (occupied ++ f item bytes)) entries found
      ≡ done (found ++ ranges f entries)
unfolding for_each
for_each-ranges f [] found = ap done (sym (append-nil found))
for_each-ranges f ((item, bytes) ∷ entries) found =
    for_each-ranges f entries (found ++ f item bytes)
    ∙ ap done (append_assoc found (f item bytes) (ranges f entries))

module _ {d : ReadWriterAt} (v : Volume d) where
  -- The device has the tree of the extents and that of the files.
  pub record HasTrees (fuel : ℕ) : Type 0 where
    pub loaded : v.extent_root ≢ 0
    pub extents : List Entry
    pub files : List Entry
    pub extents_height : ℕ
    pub files_height : ℕ
    pub extent_tree : HasTree (reader v) v.node_size v.chunks extents_height v.extent_root extents
    pub file_tree : HasTree (reader v) v.node_size v.chunks files_height v.fs_root files
    pub extents_fuel : extents_height < fuel
    pub files_fuel : files_height < fuel

  abbrev pub in_use : {fuel : ℕ} → HasTrees fuel → List ExtentRange
  in_use t = ranges (λ item _. extent_of v.node_size item) t.extents ++ ranges data_of t.files

  pub occupied_ranges-HasTrees :
      (fuel : ℕ) (t : HasTrees fuel)
      → 101 ≤ v.node_size
      → v.node_size < 2 ^ 32
      → occupied_ranges fuel v ≡ some (in_use t)
  unfolding occupied_ranges
  occupied_ranges-HasTrees fuel t wide small =
      let z : v.extent_root == 0 ≡ false = ne→== v.extent_root 0 t.loaded in
      rw (occupied_ranges, z, extent_walk, file_walk) refl
    where
      extent_walk :
          walk_tree
            (note_extent v.node_size)
            (reader v)
            v.node_size
            (λ _. v.chunks)
            fuel
            v.extent_root
            []
          ≡ done (ranges (λ item _. extent_of v.node_size item) t.extents)
      extent_walk =
          walk_tree-HasTree (note_extent v.node_size) (λ _. v.chunks) (λ _ _ _ _ _ x p r. r)
            (reader v) v.node_size v.chunks wide small t.extents_height fuel v.extent_root t.extents
            [] (λ x p r. r) t.extents_fuel t.extent_tree
          ∙ for_each-ranges (λ item _. extent_of v.node_size item) t.extents []

      file_walk :
          walk_tree note_data
            (reader v)
            v.node_size
            (λ _. v.chunks)
            fuel
            v.fs_root
            (ranges (λ item _. extent_of v.node_size item) t.extents)
          ≡ done (in_use t)
      file_walk =
          walk_tree-HasTree note_data (λ _. v.chunks) (λ _ _ _ _ _ x p r. r) (reader v) v.node_size
            v.chunks wide small t.files_height fuel v.fs_root t.files
            (ranges (λ item _. extent_of v.node_size item) t.extents) (λ x p r. r) t.files_fuel
            t.file_tree
          ∙ for_each-ranges data_of t.files
              (ranges (λ item _. extent_of v.node_size item) t.extents)
