-- ===== src/Vfs/Alloc/Effect.antt =====
-- What the change of a bitmap leaves on the disk: `record_change`, on a device that keeps the contract.
use werunos.Base.{
  ℕ, ◌+◌, ◌≤◌, ◌<◌, ◌≡◌, ◌⊎◌, inl, inr, refl, ◌∙◌, Bool, true, false, not, Option, none, some, List,
  length, set, length-take, patch, patch_outside, ltb, if_both, arith,
}
use werunos.Block.Device.{IoError, ReadWriterAt, IsDisk}
use werunos.Vfs.Alloc.{
  FileSystem, Struct, Resource, Change, Outcome, ok, err, panicked, bitmap_write, descriptor_write,
  bitmap_offset, put_bytes, write_group_descriptor, update_superblock, record_change,
  descriptor_offset, superblock_offset, sb_desc_size, counted_bgd, counted_sb, cut,
}

module _ {d : ReadWriterAt} (h : IsDisk d) where
  abbrev pub content : FileSystem d → ℕ → ℕ
  content fs = h.content fs.dev

  -- The byte `i` is neither in the superblock nor in the descriptor of the group.
  pub record Apart (fs : FileSystem d) (group i : ℕ) : Type 0 where
    pub superblock : (i < superblock_offset) ⊎ (superblock_offset + 1024 ≤ i)
    pub descriptor :
        (i < descriptor_offset fs.sb group)
        ⊎ (descriptor_offset fs.sb group + sb_desc_size fs.sb ≤ i)

  no_error : (o : Option IoError) → elim o [ none ↦ true | some e ↦ false ] ≡ true → o ≡ none
  no_error none e = refl
  no_error (some x) e = cc

  put_bytes-done :
      (fs : FileSystem d) (off : ℕ) (p : List ℕ) (i : ℕ)
      → (put_bytes d fs off p).1 ≡ true
      → content (put_bytes d fs off p).0 i ≡ patch (content fs) off p i
  put_bytes-done fs off p i e = (h.writes fs.dev off p).done (no_error _ e) i

  put_bytes-apart :
      (fs : FileSystem d) (off : ℕ) (p : List ℕ) (i : ℕ)
      → (i < off) ⊎ (off + length p ≤ i)
      → content (put_bytes d fs off p).0 i ≡ content fs i
  put_bytes-apart fs off p i out = elim ((h.writes fs.dev off p).torn i) [
    | inl e ↦ e
    | inr e ↦ e ∙ patch_outside (content fs) off p i out
  ]

  length-cut : (n : ℕ) (xs : Struct) → length (cut n xs) ≤ n
  length-cut n xs =
      if_both (λ (l : List ℕ). length l ≤ n) (ltb n (length xs))
        (λ _. omega (arith, length-take n xs)) λ t. ground (arith, t)

  write_group_descriptor-Apart :
      (fs : FileSystem d) (group : ℕ) (bgd : Struct) (i : ℕ)
      → Apart fs group i
      → content (write_group_descriptor d fs group bgd).0 i ≡ content fs i
  unfolding write_group_descriptor
  write_group_descriptor-Apart fs group bgd i a =
      put_bytes-apart fs (descriptor_offset fs.sb group) _ i (elim a.descriptor [
        | inl lt ↦ inl lt
        | inr ge ↦ inr (omega (arith, length-cut (sb_desc_size fs.sb) bgd))
      ])

  update_superblock-apart :
      (r : Resource) (change : Change) (fs : FileSystem d) (i : ℕ)
      → (i < superblock_offset) ⊎ (superblock_offset + 1024 ≤ i)
      → content (update_superblock d r change fs) i ≡ content fs i
  unfolding update_superblock
  update_superblock-apart r change fs i out =
      put_bytes-apart (record fs { sb = counted_sb r change fs.sb }) superblock_offset _ i
        (elim out [
          | inl lt ↦ inl lt
          | inr ge ↦ inr (omega (arith, length-cut 1024 (counted_sb r change fs.sb)))
        ])

  -- Where `record_change` succeeds, the disk has the new bitmap, and is else unchanged but for the
  -- superblock and the descriptor.
  abbrev pub Recorded : FileSystem d → ℕ → ℕ → List ℕ → ℕ → FileSystem d × Outcome ℕ → Type 0
  Recorded fs group off bitmap n (fs', ok m) =
      (m ≡ n) × ((i : ℕ) → Apart fs group i → content fs' i ≡ patch (content fs) off bitmap i)
  Recorded fs group off bitmap n (fs', err e) = (e ≡ bitmap_write) ⊎ (e ≡ descriptor_write)
  Recorded fs group off bitmap n (fs', panicked) = ⊥

  module _ (r : Resource) (change : Change) (fs : FileSystem d) (group : ℕ) (bgd : Struct)
      (bitmap : List ℕ) where
    pub record_change-Recorded :
        (n : ℕ)
        → Recorded fs group
            (bitmap_offset d r fs bgd)
            bitmap
            n
            (record_change d r change fs group bgd bitmap n)
    unfolding record_change
    record_change-Recorded n =
        if_both P (not w.1) (λ _. inl refl)
          λ t.
            if_both P (not written.1) (λ _. inr refl)
              λ _. (
                refl,
                λ i a.
                    update_superblock-apart r change written.0 i a.superblock
                    ∙ write_group_descriptor-Apart counted group (counted_bgd r change bgd) i
                        (record { superblock = a.superblock; descriptor = a.descriptor })
                    ∙ put_bytes-done fs (bitmap_offset d r fs bgd) bitmap i (ground (arith, t)),
              )
      where
        w : FileSystem d × Bool
        w = put_bytes d fs (bitmap_offset d r fs bgd) bitmap

        counted : FileSystem d
        counted = record w.0 { bgds = set w.0.bgds group (counted_bgd r change bgd) }

        written : FileSystem d × Bool
        written = write_group_descriptor d counted group (counted_bgd r change bgd)

        P : FileSystem d × Outcome ℕ → Type 0
        P = Recorded fs group (bitmap_offset d r fs bgd) bitmap n
