-- ===== src/Vfs/Extents/Cycle.antt =====
-- The recursion of `parseExtentNode` on an index node that is its own child.
use werunos.Base.{
  ℕ, zero, suc, ◌+◌, ◌*◌, ◌≤◌, ◌<◌, ◌≡◌, ◌≢◌, refl, ap, ◌∙◌, not, List, [], ◌++◌, length, ltb, ◌==◌,
  if_both, ltb→lt, ==→eq, arith,
}
use werunos.Vfs.Extents.{
  Extent, get_header, get_idx, child_block, header_size, entry_size, ext_magic, Parse, ok, stuck,
  read_child, index_entries, parse_node, ◌>>=◌,
}
use werunos.Block.Mbr.{ReaderAt}

module _ (disk : ReaderAt) (block_size : ℕ) where
  -- The block that the `i`th entry of an index node points to.
  abbrev pub child_at : List ℕ → ℕ → Parse (List ℕ)
  child_at xs i =
      read_child disk block_size (child_block (get_idx xs (header_size + i * entry_size)))

  -- An index node of the right magic that holds all its entries, and whose first entry points to the
  -- block of the node itself.
  pub record IsLoop (xs : List ℕ) : Type 0 where
    pub magic : (get_header xs).magic ≡ ext_magic
    pub index : (get_header xs).depth ≢ 0
    pub some_entry : 0 < (get_header xs).entries
    pub fits : header_size + entry_size ≤ length xs
    pub itself : child_at xs 0 ≡ ok xs

  loop_entries :
      (xs : List ℕ) (f : List ℕ → Parse (List Extent)) (n : ℕ)
      → IsLoop xs
      → 0 < n
      → f xs ≡ stuck
      → index_entries disk block_size f xs n 0 [] ≡ stuck
  unfolding index_entries
  loop_entries xs f zero h lt e = elim lt [ ]
  loop_entries xs f (suc n) h lt e =
      if_both (λ (r : Parse (List Extent)). r ≡ stuck) (ltb (length xs) (12 + 0 * 12 + 12))
        (λ t. absurd (omega (arith, h.fits, ltb→lt _ _ t)))
        λ _.
          ap
            (λ (r : Parse (List ℕ)). r >>= λ child.
              f child >>= λ extents. index_entries disk block_size f xs n 1 ([] ++ extents))
            h.itself
          ∙ ap
              (λ (r : Parse (List Extent)).
                r >>= λ extents. index_entries disk block_size f xs n 1 ([] ++ extents))
              e

  -- On such a node the recursion never ends: however deep it may go, it is cut off.
  pub parse_node-IsLoop :
      (xs : List ℕ) (fuel : ℕ) → IsLoop xs → parse_node disk block_size fuel xs ≡ stuck
  unfolding parse_node
  parse_node-IsLoop xs zero h = refl
  parse_node-IsLoop xs (suc fuel) h =
      if_both Cut (ltb (length xs) 12) (λ t. absurd (omega (arith, h.fits, ltb→lt _ _ t)))
        λ _.
          if_both Cut (not ((get_header xs).magic == ext_magic))
            (λ t. absurd (ground (arith, h.magic)))
            λ _.
              if_both Cut ((get_header xs).depth == 0) (λ t. absurd (h.index (==→eq _ _ t)))
                λ _.
                  loop_entries xs (parse_node disk block_size fuel) (get_header xs).entries h
                    h.some_entry (parse_node-IsLoop xs fuel h)
    where
      Cut : Parse (List Extent) → Type 0
      Cut r = r ≡ stuck
