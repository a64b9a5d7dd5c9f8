-- ===== src/Vfs/Extents/Find.antt =====
-- The entries of a leaf as a list, and which bytes it depends on.
use werunos.Base.{
  ℕ, zero, suc, ◌+◌, ◌-◌, ◌*◌, ◌≤◌, ◌<◌, ◌≡◌, refl, sym, ap, ap₂, ◌∙◌, List, [], ◌∷◌, ◌++◌,
  append_assoc, append-nil, length, byte_at, slice, byte_at-slice, length-slice, index_eq, ltb,
  if_both, not, ◌==◌, ltb→lt, arith,
}
use werunos.Vfs.Extents.{
  Extent, get_extent, get_header, header_size, entry_size, Parse, ok, leaf_entries, parse_node,
  ext_magic,
}
use werunos.Block.Mbr.{ReaderAt}
use werunos.Vfs.Extents.Codec.{get_extent_cong}

-- `n` entries of a node from entry `i` on.
unfoldable pub entries_at : List ℕ → ℕ → ℕ → List Extent
entries_at xs zero i = []
entries_at xs (suc n) i = get_extent xs (header_size + i * entry_size) ∷ entries_at xs n (i + 1)

pub entries_at_cong :
    (xs ys : List ℕ) (n i : ℕ)
    → ((j : ℕ)
        → header_size + i * entry_size ≤ j
        → j < header_size + (i + n) * entry_size
        → byte_at xs j ≡ byte_at ys j)
    → entries_at xs n i ≡ entries_at ys n i
unfolding entries_at
entries_at_cong xs ys zero i same = refl
entries_at_cong xs ys (suc n) i same =
    ap₂ (λ x l. x ∷ l)
      (get_extent_cong xs (12 + i * 12) ys (12 + i * 12)
        (λ j lt. same _ (omega arith) (omega arith)))
      (entries_at_cong xs ys n (i + 1) (λ j a b. same j (omega arith) (omega arith)))

pub entries_at_snoc :
    (xs : List ℕ) (n i : ℕ)
    → entries_at xs (suc n) i
      ≡ entries_at xs n i ++ (get_extent xs (header_size + (i + n) * entry_size) ∷ [])
unfolding entries_at
entries_at_snoc xs zero i =
    ap (λ (k : ℕ). get_extent xs (12 + k * 12) ∷ []) (let e : i ≡ i + 0 = omega arith in e)
entries_at_snoc xs (suc n) i =
    ap (λ l. get_extent xs (12 + i * 12) ∷ l)
      (entries_at_snoc xs n (i + 1)
        ∙ ap (λ (k : ℕ). entries_at xs n (i + 1) ++ (get_extent xs (12 + k * 12) ∷ []))
            (let e : i + 1 + n ≡ i + suc n = omega arith in e))

-- `parseLeafEntries` returns the entries, if the node holds them.
leaf_entries-entries_at :
    (xs : List ℕ) (n i : ℕ) (acc : List Extent)
    → header_size + (i + n) * entry_size ≤ length xs
    → leaf_entries (slice xs header_size (length xs - header_size)) n i acc
      ≡ ok (acc ++ entries_at xs n i)
unfolding leaf_entries entries_at
leaf_entries-entries_at xs zero i acc fits = ap ok (sym (append-nil acc))
leaf_entries-entries_at xs (suc n) i acc fits =
    if_both (λ r. r ≡ ok (acc ++ entries_at xs (suc n) i))
      (ltb (length (slice xs 12 (length xs - 12))) (i * 12 + 12))
      (λ t. absurd (omega (arith, ltb→lt _ _ t, length-slice xs 12 (length xs - 12))))
      λ _.
        leaf_entries-entries_at xs n (i + 1) _ (omega arith)
        ∙ ap ok (append_assoc acc _ _ ∙ ap (λ x. acc ++ (x ∷ entries_at xs n (i + 1))) same)
  where
    same : get_extent (slice xs 12 (length xs - 12)) (i * 12) ≡ get_extent xs (12 + i * 12)
    same = get_extent_cong _ (i * 12) xs (12 + i * 12) λ j lt.
        byte_at-slice xs 12 (length xs - 12) (i * 12 + j) (omega arith)
        ∙ index_eq xs _ _ (omega arith)

-- A leaf of the right magic that holds all its entries is read entry by entry.
pub parse_node-leaf :
    (disk : ReaderAt) (block_size fuel : ℕ) (xs : List ℕ)
    → (get_header xs).magic ≡ ext_magic
    → (get_header xs).depth ≡ 0
    → header_size + (get_header xs).entries * entry_size ≤ length xs
    → parse_node disk block_size (suc fuel) xs ≡ ok (entries_at xs (get_header xs).entries 0)
unfolding parse_node
parse_node-leaf disk block_size fuel xs magic depth fits =
    let hdr = get_header xs in
    if_both Reads (ltb (length xs) header_size) (λ t. absurd (omega (arith, ltb→lt _ _ t)))
      λ _.
        if_both Reads (not (hdr.magic == ext_magic)) (λ t. absurd (ground arith))
          λ _.
            if_both Reads (hdr.depth == 0)
              (λ _. leaf_entries-entries_at xs hdr.entries 0 [] (omega arith))
              (λ f. absurd (ground arith))
  where
    Reads : Parse (List Extent) → Type 0
    Reads r = r ≡ ok (entries_at xs (get_header xs).entries 0)
