-- ===== src/Vfs/Files/Content.antt =====
-- What a file holds, byte by byte: by position in its extents, one behind the other, and by block
-- numbers.
use werunos.Base.{
  ℕ, ◌+◌, ◌-◌, ◌*◌, ◌/◌, ◌%◌, ◌^◌, ◌≤◌, ◌<◌, ◌≡◌, ap, ap₂, ◌∙◌, none, some, List, [], ◌∷◌, ltb,
  if◌then◌else◌, arith,
}
use native.Mathlib.Nat.{div-eq_of_lt, mod-eq_of_lt, div-eq-sub-div, mod-eq-sub-mod}
use werunos.Vfs.Extents.{Extent, uninitialized, block_count, phys_start, find_physical_block}

module _ (content : ℕ → ℕ) (block_size : ℕ) where
  -- Byte `x` of the blocks from block `phys` of the disk on.
  abbrev pub block_byte : ℕ → ℕ → ℕ
  block_byte phys x = content ((phys + x / block_size) * block_size % 2 ^ 64 + x % block_size)

  -- Byte `pos` of the extents; an extent without data and what is behind the last one are zeros.
  unfoldable pub file_byte : List Extent → ℕ → ℕ
  file_byte [] pos = 0
  file_byte (e ∷ extents) pos =
      let rest = file_byte extents (pos - block_count e * block_size) in
      if ltb pos (block_count e * block_size)
      then (if uninitialized e then 0 else block_byte (phys_start e) pos)
      else rest

  -- The byte that the block map of the file gives.
  unfoldable pub mapped_byte : List Extent → ℕ → ℕ
  mapped_byte extents pos = elim (find_physical_block extents (pos / block_size)) [
    | some block ↦ content (block * block_size % 2 ^ 64 + pos % block_size)
    | none ↦ 0
  ]

  module _ (pos : 0 < block_size) where
    pub block_byte-first :
        (phys x : ℕ) → x < block_size → block_byte phys x ≡ content (phys * block_size % 2 ^ 64 + x)
    block_byte-first phys x lt =
        ap₂ (λ (q r : ℕ). content ((phys + q) * block_size % 2 ^ 64 + r)) (div-eq_of_lt lt)
          (mod-eq_of_lt lt)
        ∙ ap (λ (k : ℕ). content (k * block_size % 2 ^ 64 + x))
            (let e : phys + 0 ≡ phys = omega arith in e)

    pub block_byte-next :
        (phys x : ℕ) → block_size ≤ x → block_byte phys x ≡ block_byte (phys + 1) (x - block_size)
    block_byte-next phys x le =
        ap₂ (λ (q r : ℕ). content ((phys + q) * block_size % 2 ^ 64 + r)) (div-eq-sub-div pos le)
          (mod-eq-sub-mod le)
        ∙ ap (λ (k : ℕ). content (k * block_size % 2 ^ 64 + (x - block_size) % block_size))
            (let e : phys + ((x - block_size) / block_size + 1)
                  ≡ phys + 1 + (x - block_size) / block_size =
                omega arith in
              e)
