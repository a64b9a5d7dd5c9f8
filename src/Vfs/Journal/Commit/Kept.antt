-- ===== src/Vfs/Journal/Commit/Kept.antt =====
-- The bytes that the writes of a commit to the journal leave as they are.
use werunos.Base.{
  ℕ, ◌+◌, ◌*◌, ◌%◌, ◌^◌, ◌≤◌, ◌<◌, ◌≡◌, ◌⊎◌, refl, sym, subst, ◌∙◌, some, List, [], ◌∷◌, length,
  get_elem?, le, leb, ltb, ◌==◌, if_both, option_both, patch_outside, inl, inr,
}
use werunos.Block.Device.{ReadWriterAt, IsDisk}
use werunos.Vfs.Layout.{place, descriptor_fields}
use werunos.Vfs.Alloc.{FileSystem, Struct, sb_inodes_per_group}
use werunos.Vfs.Inodes.{
  Result, with_group, read_in_table, read_inode, inode_offset, encoded_size, group_of,
}
use werunos.Vfs.Extents.{Extent, find_physical_block}
use werunos.Vfs.Tx.Map.{Dirty}
use werunos.Vfs.Journal.{advance}
use werunos.Vfs.Journal.Recover.{journal_extents, sb_journal_inum}
use werunos.Vfs.Journal.Commit.{
  Committed, committed, journal_failed, ◌>>◌, put_or, write_journal_block, write_data, data_copies,
  data_copy,
}
use werunos.Vfs.Journal.Commit.Bounds.{length-data_copy}

-- Byte `i` lies in no block of the journal.
abbrev pub OutsideJournal : ℕ → List Extent → ℕ → Type 0
OutsideJournal size extents i =
    (pos phys : ℕ)
    → find_physical_block extents pos ≡ some phys
    → (i < phys * size % 2 ^ 64) ⊎ (phys * size % 2 ^ 64 + size ≤ i)

module _ {d : ReadWriterAt} (k : IsDisk d) (i : ℕ) where
  abbrev pub Kept : d.State → d.State → Type 0
  Kept s s' = k.content s' i ≡ k.content s i

  pub put_or-Kept :
      (e : Committed) (s : d.State) (off : ℕ) (bytes : List ℕ)
      → (i < off) ⊎ (off + length bytes ≤ i)
      → Kept s (put_or d e s off bytes).0
  put_or-Kept e s off bytes out = elim ((k.writes s off bytes).torn i) [
    | inl same ↦ same
    | inr new ↦ new ∙ patch_outside (k.content s) off bytes i out
  ]

  pub >>-Kept :
      (s : d.State) (m : d.State × Committed) (f : d.State → d.State × Committed)
      → Kept s m.0
      → ((s' : d.State) → Kept s' (f s').0)
      → Kept s (m >> f).0
  >>-Kept s (s', committed) f h g = g s' ∙ h
  >>-Kept s (s', e) f h g = h

  pub read_inode-Kept : (fs : FileSystem d) (n : ℕ) → Kept fs.dev (read_inode d fs n).0.dev
  unfolding read_inode with_group read_in_table
  read_inode-Kept fs n =
      if_both {A = FileSystem d × Result Struct} P (n == 0) (λ _. refl)
        λ _.
          if_both P (sb_inodes_per_group fs.sb == 0) (λ _. refl)
            λ _.
              if_both P (leb fs.group_count (group_of d fs n)) (λ _. refl)
                λ _.
                  option_both P (get_elem? fs.bgds (group_of d fs n)) (λ _. refl)
                    λ bgd _. in_table bgd
    where
      P : FileSystem d × Result Struct → Type 0
      P x = Kept fs.dev x.0.dev

      in_table : (bgd : Struct) → P (read_in_table d fs n bgd)
      in_table bgd =
          let reply = d.read_at fs.dev (inode_offset d fs bgd n) fs.inode_size in
          let same : Kept fs.dev reply.0 =
            (k.reads fs.dev (inode_offset d fs bgd n) fs.inode_size).kept i in
          if_both P (le 4 bgd (place descriptor_fields 2) == 0) (λ _. refl)
            λ _.
              if_both P (leb (2 ^ 63) (inode_offset d fs bgd n)) (λ _. refl)
                λ _.
                  option_both P reply.1.err
                    (λ _. if_both P (ltb fs.inode_size encoded_size) (λ _. same) λ _. same)
                    λ e _. same

  pub journal_extents-Kept :
      (fuel : ℕ) (fs : FileSystem d) → Kept fs.dev (journal_extents d fuel fs).0.dev
  unfolding journal_extents
  journal_extents-Kept fuel fs = read_inode-Kept fs (sb_journal_inum fs.sb)

  module _ (size : ℕ) (extents : List Extent) (out : OutsideJournal size extents i) where
    pub write_journal_block-Kept :
        (s : d.State) (pos : ℕ) (bytes : List ℕ)
        → length bytes ≡ size
        → Kept s (write_journal_block size d extents s pos bytes).0
    unfolding write_journal_block
    write_journal_block-Kept s pos bytes same =
        option_both {B = d.State × Committed} (λ x. Kept s x.0) (find_physical_block extents pos)
          (λ _. refl)
          λ phys e. put_or-Kept journal_failed s (phys * size % 2 ^ 64) bytes (
            subst (λ (n : ℕ). (i < phys * size % 2 ^ 64) ⊎ (phys * size % 2 ^ 64 + n ≤ i))
              (sym same) (out pos phys e))

    pub write_data-Kept :
        (maxlen : ℕ) (dirty : Dirty) (pos : ℕ) (s : d.State)
        → Kept s (write_data size d extents maxlen (data_copies size dirty) pos s).0
    unfolding write_data
    write_data-Kept maxlen [] pos s = refl
    write_data-Kept maxlen ((n, bytes) ∷ dirty) pos s =
        >>-Kept s (write_journal_block size d extents s (advance maxlen pos) (data_copy size bytes))
          _
          (write_journal_block-Kept s (advance maxlen pos) (data_copy size bytes)
            (length-data_copy size bytes))
          λ s'. write_data-Kept maxlen dirty (advance maxlen pos) s'
