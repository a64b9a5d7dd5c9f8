-- ===== src/Vfs/Files/Mapped.antt =====
-- The two ways to find a byte of a file: by the position of its extent in the list, as `ReadFileAt`
-- does it, and by the block number of its extent.
use werunos.Base.{ℕ, ◌+◌, ◌*◌, ◌%◌, ◌^◌, ◌<◌, ◌≡◌, Option, none, some, List, [], ◌∷◌}
use werunos.Vfs.Extents.{Extent, block_count}

-- Each extent begins at the block at which the one before it ends, the first one at block `n`, and
-- the block numbers are below 2^32.
unfoldable pub IsContiguous : ℕ → List Extent → Type 0
IsContiguous n [] = Unit
IsContiguous n (e ∷ extents) =
    (e.block ≡ n) × (n + block_count e < 2 ^ 32) × IsContiguous (n + block_count e) extents

module _ (content : ℕ → ℕ) (block_size : ℕ) (pos : 0 < block_size) where
  -- The byte at `off` of the block that was found.
  abbrev byte_of : ℕ → Option ℕ → ℕ
  byte_of off found = elim found [
    | some block ↦ content (block * block_size % 2 ^ 64 + off)
    | none ↦ 0
  ]
