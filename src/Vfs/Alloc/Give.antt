-- ===== src/Vfs/Alloc/Give.antt =====
-- What `FreeBlock` and `FreeInode` do to the disk.
use werunos.Base.{
  leb→le, ℕ, ◌+◌, ◌-◌, ◌/◌, ◌%◌, ◌^◌, ◌≤◌, ◌<◌, ◌≡◌, inl, inr, refl, sym, ap, ◌∙◌, true, false,
  none, some, List, get_elem?, set, byte_at, zeros, copy_at, patch-set, leb, ◌==◌, ==→eq,
  if◌then◌else◌, if_both, option_both, some_inj, subst, Bool-cases, length-filled, byte_at-filled,
  arith,
}
use werunos.Block.Device.{Reply, ReadWriterAt, IsDisk}
use werunos.Vfs.Alloc.{
  FileSystem, Struct, Resource, blocks, inodes, given, Outcome, ok, err, panicked, none_free,
  bitmap_read, bitmap_write, descriptor_write, invalid_number, out_of_range, already_free,
  bitmap_offset, per_group, free_local, free,
}
use werunos.Vfs.Alloc.Bits.{bit_clear, without_bit}
use werunos.Vfs.Alloc.Effect.{content, Apart, Recorded, record_change-Recorded}

-- The group of a block or of an inode, and its bit there.
abbrev pub group_of : Resource → Struct → ℕ → ℕ
group_of blocks sb n = n / per_group blocks sb % 2 ^ 32
group_of inodes sb n = (n - 1) / per_group inodes sb % 2 ^ 32

abbrev pub index_of : Resource → Struct → ℕ → ℕ
index_of blocks sb n = n % per_group blocks sb
index_of inodes sb n = (n - 1) % per_group inodes sb

module _ {d : ReadWriterAt} (h : IsDisk d) where
  -- The byte of the bitmap, on the disk.
  abbrev pub bit_at : Resource → FileSystem d → Struct → ℕ → ℕ
  bit_at r fs bgd index = bitmap_offset d r fs bgd + index / 8

  pub record Gives (r : Resource) (fs fs' : FileSystem d) (group index : ℕ) : Type 0 where
    pub bgd : Struct
    pub there : get_elem? fs.bgds group ≡ some bgd
    pub byte_lt : index / 8 < fs.block_size
    pub was_set : bit_clear (content h fs (bit_at r fs bgd index)) (index % 8) ≡ false
    pub now :
        (i : ℕ)
        → Apart h fs group i
        → content h fs' i ≡ (
            if i == bit_at r fs bgd index
            then without_bit (content h fs i) (index % 8)
            else content h fs i)

  abbrev pub Freed : Resource → FileSystem d → ℕ → ℕ → FileSystem d × Outcome ℕ → Type 0
  Freed r fs group index (fs', ok m) = Gives r fs fs' group index
  Freed r fs group index (fs', err already_free) =
      ((i : ℕ) → content h fs' i ≡ content h fs i)
      × ((bgd : Struct)
          → get_elem? fs.bgds group ≡ some bgd
          → bit_clear (content h fs (bit_at r fs bgd index)) (index % 8) ≡ true)
  Freed r fs group index (fs', err out_of_range) =
      ((i : ℕ) → content h fs' i ≡ content h fs i) × (fs.group_count ≤ group)
  Freed r fs group index (fs', err none_free) = ⊥
  Freed r fs group index (fs', err e) = Unit {0}
  Freed r fs group index (fs', panicked) = ((i : ℕ) → content h fs' i ≡ content h fs i)

  module _ (r : Resource) (fs : FileSystem d) (group index : ℕ) (bgd : Struct)
      (there : get_elem? fs.bgds group ≡ some bgd) where
    abbrev read : d.State × Reply
    read = d.read_at fs.dev (bitmap_offset d r fs bgd) fs.block_size

    abbrev after : FileSystem d
    after = record fs { dev = read.0 }

    abbrev bitmap : List ℕ
    bitmap = copy_at (zeros fs.block_size) 0 read.1.bytes

    kept : (i : ℕ) → h.content read.0 i ≡ content h fs i
    kept = (h.reads fs.dev (bitmap_offset d r fs bgd) fs.block_size).kept

    byte_at-bitmap :
        (i : ℕ)
        → read.1.err ≡ none
        → i < fs.block_size
        → byte_at bitmap i ≡ content h fs (bitmap_offset d r fs bgd + i)
    byte_at-bitmap i e lt =
        byte_at-filled fs.block_size read.1.bytes i lt
        ∙ (h.reads fs.dev _ _).same i
            (omega (arith, (h.reads fs.dev (bitmap_offset d r fs bgd) fs.block_size).full e))

    Recorded-Freed :
        (n : ℕ) (x : FileSystem d × Outcome ℕ)
        → read.1.err ≡ none
        → index / 8 < fs.block_size
        → bit_clear (byte_at bitmap (index / 8)) (index % 8) ≡ false
        → Recorded h after group
            (bitmap_offset d r fs bgd)
            (set bitmap (index / 8) (without_bit (byte_at bitmap (index / 8)) (index % 8)))
            n
            x
        → Freed r fs group index x
    Recorded-Freed n (fs', ok m) e lt c (m_eq, now) = record {
      bgd = bgd;
      there = there;
      byte_lt = lt;
      was_set = ap (λ x. bit_clear x (index % 8)) (sym (byte_at-bitmap (index / 8) e lt)) ∙ c;
      now = λ i a.
          now i (record { superblock = a.superblock; descriptor = a.descriptor })
          ∙ patch-set (h.content read.0) (bitmap_offset d r fs bgd) bitmap (index / 8) _ i
              (λ j j_lt.
                byte_at-bitmap j e (omega (arith, length-filled fs.block_size read.1.bytes))
                ∙ sym (kept (bitmap_offset d r fs bgd + j)))
              (omega (arith, lt, length-filled fs.block_size read.1.bytes))
          ∙ at i;
    }
      where
        at :
            (i : ℕ)
            → (if i == bit_at r fs bgd index
                then without_bit (byte_at bitmap (index / 8)) (index % 8)
                else h.content read.0 i)
              ≡ (if i == bit_at r fs bgd index
                  then without_bit (content h fs i) (index % 8)
                  else content h fs i)
        at i = elim (Bool-cases (i == bit_at r fs bgd index)) [
          | inl q ↦ rw (
            q,
            byte_at-bitmap (index / 8) e lt,
            ap (content h fs) (==→eq i (bit_at r fs bgd index) q),
          )
          | inr q ↦ rw (q, kept i)
        ]
    Recorded-Freed n (fs', err bitmap_write) e lt c t = tt
    Recorded-Freed n (fs', err descriptor_write) e lt c t = tt
    Recorded-Freed n (fs', err bitmap_read) e lt c t = tt
    Recorded-Freed n (fs', err invalid_number) e lt c t = tt
    Recorded-Freed n (fs', err none_free) e lt c t = elim t [ inl q ↦ cc | inr q ↦ cc ]
    Recorded-Freed n (fs', err out_of_range) e lt c t = elim t [ inl q ↦ cc | inr q ↦ cc ]
    Recorded-Freed n (fs', err already_free) e lt c t = elim t [ inl q ↦ cc | inr q ↦ cc ]
    Recorded-Freed n (fs', panicked) e lt c t = elim t [ ]

  free_local-Freed :
      (r : Resource) (fs : FileSystem d) (n group index : ℕ)
      → Freed r fs group index (free_local d r fs n group index)
  unfolding free_local
  free_local-Freed r fs n group index =
      option_both (Freed r fs group index) (get_elem? fs.bgds group) (λ _. λ i. refl)
        λ bgd there.
          option_both (Freed r fs group index) (read r fs group index bgd there).1.err
            (λ e.
              if_both (Freed r fs group index) (leb fs.block_size (index / 8))
                (λ _. kept r fs group index bgd there)
                λ lt.
                  if_both (Freed r fs group index)
                    (bit_clear (byte_at (bitmap r fs group index bgd there) (index / 8))
                      (index % 8))
                    (λ c. (
                      kept r fs group index bgd there,
                      λ b t.
                          subst
                            (λ x. bit_clear (content h fs (bit_at r fs x index)) (index % 8) ≡ true)
                            (some_inj (sym there ∙ t))
                            (ap (λ x. bit_clear x (index % 8))
                                (sym (
                                  byte_at-bitmap r fs group index bgd there (index / 8) e
                                    (ground arith)))
                              ∙ c),
                    ))
                    λ c. Recorded-Freed r fs group index bgd there n _ e (ground arith) c (
                      record_change-Recorded h r given (after r fs group index bgd there) group bgd
                        _ n))
            λ _ _. tt

  -- `FreeBlock` and `FreeInode` succeed only on a bit that is set on the disk, and clear it; every
  -- other byte is as before, but for the superblock and the descriptor of the group. Where they
  -- report the number as out of range its group is, where they report it as already free its bit is
  -- clear, and then, as with a panic, the disk is as it was.
  pub free-Freed :
      (r : Resource) (fs : FileSystem d) (n : ℕ)
      → Freed r fs (group_of r fs.sb n) (index_of r fs.sb n) (free d r fs n)
  unfolding free
  free-Freed blocks fs n =
      if_both F (per_group blocks fs.sb == 0) (λ _ i. refl)
        λ _.
          if_both F (leb fs.group_count (group_of blocks fs.sb n)) (λ t. (λ i. refl, leb→le _ _ t))
            λ _. free_local-Freed blocks fs n (group_of blocks fs.sb n) (index_of blocks fs.sb n)
    where
      F : FileSystem d × Outcome ℕ → Type 0
      F = Freed blocks fs (group_of blocks fs.sb n) (index_of blocks fs.sb n)
  free-Freed inodes fs n =
      if_both F (n == 0) (λ _. tt)
        λ _.
          if_both F (per_group inodes fs.sb == 0) (λ _ i. refl)
            λ _.
              if_both F (leb fs.group_count (group_of inodes fs.sb n))
                (λ t. (λ i. refl, leb→le _ _ t))
                λ _.
                  free_local-Freed inodes fs n (group_of inodes fs.sb n) (index_of inodes fs.sb n)
    where
      F : FileSystem d × Outcome ℕ → Type 0
      F = Freed inodes fs (group_of inodes fs.sb n) (index_of inodes fs.sb n)
