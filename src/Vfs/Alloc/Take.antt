-- ===== src/Vfs/Alloc/Take.antt =====
-- What `AllocateBlock` and `AllocateInode` do to the disk.
use werunos.Base.{
  ℕ, zero, suc, ◌+◌, ◌-◌, ◌*◌, ◌/◌, ◌%◌, ◌≤◌, ◌<◌, ◌≡◌, ◌≢◌, inl, inr, refl, sym, ap, subst, ◌∙◌,
  ==→eq, true, false, Option, none, some, List, length, get_elem?, set, drop, byte_at, zeros,
  copy_at, ◌==◌, if◌then◌else◌, if_both, option_both, some_inj, Bool-cases, length-filled,
  byte_at-filled, index_eq, get_or-drop, length-drop, patch-set, arith,
}
use werunos.Block.Device.{Reply, ReadWriterAt, IsDisk}
use werunos.Vfs.Alloc.{
  FileSystem, Struct, Resource, taken, Outcome, ok, err, panicked, none_free, bitmap_read,
  bitmap_write, descriptor_write, invalid_number, out_of_range, already_free, bitmap_offset,
  free_count, start_bit, number, record_change, allocate_from, allocate,
}
use werunos.Vfs.Alloc.Bits.{bit_clear, with_bit, scan, Found, scan-Found}
use werunos.Vfs.Alloc.Effect.{content, Apart, Recorded, record_change-Recorded}

module _ {d : ReadWriterAt} (h : IsDisk d) where
  -- The bit `bit` of the byte `byte_idx` of the bitmap of a group is one that may be taken, and
  -- `fs'` is `fs` with that bit set.
  pub record Takes (r : Resource) (fs fs' : FileSystem d) (n : ℕ) : Type 0 where
    pub group : ℕ
    pub bgd : Struct
    pub byte_idx : ℕ
    pub bit : ℕ
    pub there : get_elem? fs.bgds group ≡ some bgd
    pub is_number : n ≡ number r fs.sb group byte_idx bit
    pub bit_lt : bit < 8
    pub byte_lt : byte_idx < fs.block_size
    pub allowed : start_bit r group ≤ byte_idx * 8 + bit
    pub was_clear : bit_clear (content h fs (bitmap_offset d r fs bgd + byte_idx)) bit ≡ true
    pub now :
        (i : ℕ)
        → Apart h fs group i
        → content h fs' i ≡ (
            if i == bitmap_offset d r fs bgd + byte_idx
            then with_bit (content h fs i) bit
            else content h fs i)

  -- Every bit of the group that may be taken is set.
  abbrev pub IsFull : Resource → FileSystem d → ℕ → Struct → Type 0
  IsFull r fs group bgd =
      (i k : ℕ)
      → i < fs.block_size
      → k < 8
      → start_bit r group ≤ i * 8 + k
      → bit_clear (content h fs (bitmap_offset d r fs bgd + i)) k ≡ false

  -- No group from `group` on, of `n`, that counts free bits has one.
  abbrev pub AllFull : Resource → FileSystem d → ℕ → ℕ → Type 0
  AllFull r fs n group =
      (g : ℕ) (bgd : Struct)
      → group ≤ g
      → g < group + n
      → get_elem? fs.bgds g ≡ some bgd
      → free_count d r fs bgd ≢ 0
      → IsFull r fs g bgd

  abbrev pub Allocated : Resource → FileSystem d → ℕ → ℕ → FileSystem d × Outcome ℕ → Type 0
  Allocated r fs n group (fs', ok m) = Takes r fs fs' m
  Allocated r fs n group (fs', err none_free) =
      ((i : ℕ) → content h fs' i ≡ content h fs i) × AllFull r fs n group
  Allocated r fs n group (fs', err e) = Unit {0}
  Allocated r fs n group (fs', panicked) = Unit {0}

  module _ (r : Resource) (fs : FileSystem d) where
    -- The same file system after reads.
    abbrev after : d.State → FileSystem d
    after s = record fs { dev = s }

    abbrev Kept : d.State → Type 0
    Kept s = (i : ℕ) → h.content s i ≡ content h fs i

    IsFull-at :
        (g : ℕ) (b : Struct) {group : ℕ} {bgd : Struct}
        → (free_count d r fs bgd ≢ 0 → IsFull r fs group bgd)
        → g ≡ group
        → bgd ≡ b
        → free_count d r fs b ≢ 0
        → IsFull r fs g b
    IsFull-at g b {group} {bgd} full p q =
        subst (λ x. free_count d r fs x ≢ 0 → IsFull r fs g x) q
          (subst (λ (x : ℕ). free_count d r fs bgd ≢ 0 → IsFull r fs x bgd) (sym p) full)

    Allocated-next :
        (n group : ℕ) (bgd : Struct) (x : FileSystem d × Outcome ℕ)
        → get_elem? fs.bgds group ≡ some bgd
        → (free_count d r fs bgd ≢ 0 → IsFull r fs group bgd)
        → Allocated r fs n (group + 1) x
        → Allocated r fs (suc n) group x
    Allocated-next n group bgd (fs', ok m) there full a = a
    Allocated-next n group bgd (fs', err none_free) there full (kept, all) = (
      kept,
      λ g b lo hi e nz. elim (Bool-cases (g == group)) [
        | inl q ↦
            IsFull-at g b full (==→eq g group q)
              (some_inj (sym there ∙ ap (get_elem? fs.bgds) (sym (==→eq g group q)) ∙ e)) nz
        | inr q ↦ all g b (ground arith) (omega arith) e nz
      ],
    )
    Allocated-next n group bgd (fs', err e) there full a = tt
    Allocated-next n group bgd (fs', panicked) there full a = tt

    -- The bitmap as it is read.
    abbrev read : d.State → Struct → d.State × Reply
    read s bgd = d.read_at s (bitmap_offset d r fs bgd) fs.block_size

    abbrev bitmap : d.State → Struct → List ℕ
    bitmap s bgd = copy_at (zeros fs.block_size) 0 (read s bgd).1.bytes

    byte_at-bitmap :
        (s : d.State) (bgd : Struct) (i : ℕ)
        → Kept s
        → (read s bgd).1.err ≡ none
        → i < fs.block_size
        → byte_at (bitmap s bgd) i ≡ content h fs (bitmap_offset d r fs bgd + i)
    byte_at-bitmap s bgd i kept e lt =
        byte_at-filled fs.block_size (read s bgd).1.bytes i lt
        ∙ (h.reads s _ _).same i
            (omega (arith, (h.reads s (bitmap_offset d r fs bgd) fs.block_size).full e))
        ∙ kept _

    searched : (s : d.State) (group : ℕ) (bgd : Struct) → Option (ℕ × ℕ)
    searched s group bgd =
        scan (drop (start_bit r group / 8) (bitmap s bgd)) (start_bit r group / 8)
          (start_bit r group % 8)

    -- A bit that the search finds, and the disk with it set.
    Recorded-Takes :
        (s : d.State) (group : ℕ) (bgd : Struct) (n byte_idx bit : ℕ) (x : FileSystem d × Outcome ℕ)
        → get_elem? fs.bgds group ≡ some bgd
        → Kept s
        → (read s bgd).1.err ≡ none
        → Found
            (drop (start_bit r group / 8) (bitmap s bgd))
            (start_bit r group / 8)
            (start_bit r group % 8)
            (some (byte_idx, bit))
        → Recorded h
            (after (read s bgd).0)
            group
            (bitmap_offset d r fs bgd)
            (set (bitmap s bgd) byte_idx (with_bit (byte_at (bitmap s bgd) byte_idx) bit))
            (number r fs.sb group byte_idx bit)
            x
        → Allocated r fs (suc n) group x
    Recorded-Takes s group bgd n byte_idx bit (fs', ok m) there kept e (c, lo, hi, bit_lt, from)
          (m_eq, now) =
        record {
          group = group;
          bgd = bgd;
          byte_idx = byte_idx;
          bit = bit;
          there = there;
          is_number = m_eq;
          bit_lt = bit_lt;
          byte_lt = byte_lt;
          allowed = allowed;
          was_clear =
              ap (λ x. bit_clear x bit)
                (sym (byte_at-bitmap s bgd byte_idx kept e byte_lt)
                  ∙ index_eq (bitmap s bgd) _ _ (
                      let q : byte_idx
                          ≡ (start_bit r group / 8) + (byte_idx - (start_bit r group / 8)) =
                        omega arith in
                      q)
                  ∙ sym (
                      get_or-drop (start_bit r group / 8) (bitmap s bgd)
                        (byte_idx - (start_bit r group / 8)) 0))
              ∙ c;
          now = λ i a.
              now i (record { superblock = a.superblock; descriptor = a.descriptor })
              ∙ patch-set (h.content (read s bgd).0) (bitmap_offset d r fs bgd) (bitmap s bgd)
                  byte_idx _ i
                  (λ j lt.
                    byte_at-bitmap s bgd j kept e (omega (arith, size))
                    ∙ sym (still (bitmap_offset d r fs bgd + j)))
                  (omega (arith, size, byte_lt))
              ∙ at i;
        }
      where
        size : length (bitmap s bgd) ≡ fs.block_size
        size = length-filled fs.block_size (read s bgd).1.bytes

        byte_lt : byte_idx < fs.block_size
        byte_lt = omega (arith, size, length-drop (start_bit r group / 8) (bitmap s bgd))

        still : (i : ℕ) → h.content (read s bgd).0 i ≡ content h fs i
        still i = (h.reads s (bitmap_offset d r fs bgd) fs.block_size).kept i ∙ kept i

        old : byte_at (bitmap s bgd) byte_idx ≡ content h fs (bitmap_offset d r fs bgd + byte_idx)
        old = byte_at-bitmap s bgd byte_idx kept e byte_lt

        at :
            (i : ℕ)
            → (if i == bitmap_offset d r fs bgd + byte_idx
                then with_bit (byte_at (bitmap s bgd) byte_idx) bit
                else h.content (read s bgd).0 i)
              ≡ (if i == bitmap_offset d r fs bgd + byte_idx
                  then with_bit (content h fs i) bit
                  else content h fs i)
        at i = elim (Bool-cases (i == bitmap_offset d r fs bgd + byte_idx)) [
          | inl q ↦ rw (q, old, ap (content h fs) (==→eq i (bitmap_offset d r fs bgd + byte_idx) q))
          | inr q ↦ rw (q, still i)
        ]

        allowed : start_bit r group ≤ byte_idx * 8 + bit
        allowed = elim (Bool-cases (byte_idx == (start_bit r group / 8))) [
          | inl q ↦ omega (arith, ==→eq _ _ q, from (==→eq _ _ q))
          | inr q ↦ ground arith
        ]
    Recorded-Takes s group bgd n byte_idx bit (fs', err bitmap_write) there kept e f h' = tt
    Recorded-Takes s group bgd n byte_idx bit (fs', err descriptor_write) there kept e f h' = tt
    Recorded-Takes s group bgd n byte_idx bit (fs', err none_free) there kept e f h' = elim h' [
      | inl q ↦ cc
      | inr q ↦ cc
    ]
    Recorded-Takes s group bgd n byte_idx bit (fs', err bitmap_read) there kept e f h' = tt
    Recorded-Takes s group bgd n byte_idx bit (fs', err invalid_number) there kept e f h' = tt
    Recorded-Takes s group bgd n byte_idx bit (fs', err out_of_range) there kept e f h' = tt
    Recorded-Takes s group bgd n byte_idx bit (fs', err already_free) there kept e f h' = tt
    Recorded-Takes s group bgd n byte_idx bit (fs', panicked) there kept e f h' = elim h' [ ]

    None-IsFull :
        (s : d.State) (group : ℕ) (bgd : Struct)
        → Kept s
        → (read s bgd).1.err ≡ none
        → Found
            (drop (start_bit r group / 8) (bitmap s bgd))
            (start_bit r group / 8)
            (start_bit r group % 8)
            none
        → IsFull r fs group bgd
    None-IsFull s group bgd kept e f i k lt k_lt from =
        ap (λ x. bit_clear x k)
          (sym (byte_at-bitmap s bgd i kept e lt)
            ∙ index_eq (bitmap s bgd) _ _
                (let q : i ≡ start_bit r group / 8 + (i - start_bit r group / 8) = omega arith in q)
            ∙ sym
                (get_or-drop (start_bit r group / 8) (bitmap s bgd) (i - start_bit r group / 8) 0))
        ∙ f (i - start_bit r group / 8) k
            (omega (
              arith,
              length-drop (start_bit r group / 8) (bitmap s bgd),
              length-filled fs.block_size (read s bgd).1.bytes,
            ))
            k_lt (λ q. omega arith)

    searched_bits :
        (n group : ℕ) (s : d.State) (bgd : Struct)
        → get_elem? fs.bgds group ≡ some bgd
        → Kept s
        → (read s bgd).1.err ≡ none
        → (next : FileSystem d × Outcome ℕ) → Allocated r fs n (group + 1) next
        → (o : Option (ℕ × ℕ))
        → Found
            (drop (start_bit r group / 8) (bitmap s bgd))
            (start_bit r group / 8)
            (start_bit r group % 8)
            o
        → Allocated r fs (suc n) group (elim o [
          | none ↦ next
          | some (byte_idx, bit) ↦
              record_change d r taken
                (after (read s bgd).0)
                group
                bgd
                (set (bitmap s bgd) byte_idx (with_bit (byte_at (bitmap s bgd) byte_idx) bit))
                (number r fs.sb group byte_idx bit)
        ])
    searched_bits n group s bgd there kept e next a none f =
        Allocated-next n group bgd next there (λ _. None-IsFull s group bgd kept e f) a
    searched_bits n group s bgd there kept e next a (some (byte_idx, bit)) f =
        Recorded-Takes s group bgd n byte_idx bit _ there kept e f (
          record_change-Recorded h r taken (after (read s bgd).0) group bgd _
            (number r fs.sb group byte_idx bit))

    allocate_from-Allocated :
        (n group : ℕ) (s : d.State)
        → Kept s
        → Allocated r fs n group (allocate_from d r n group (after s))
    unfolding allocate_from
    allocate_from-Allocated zero group s kept = (kept, λ g b lo hi. absurd (omega arith))
    allocate_from-Allocated (suc n) group s kept =
        option_both (Allocated r fs (suc n) group) (get_elem? fs.bgds group) (λ _. tt)
          λ bgd there.
            if_both (Allocated r fs (suc n) group) (free_count d r fs bgd == 0)
              (λ z.
                Allocated-next n group bgd (allocate_from d r n (group + 1) (after s)) there
                  (λ nz. absurd (nz (==→eq _ _ z))) (allocate_from-Allocated n (group + 1) s kept))
              λ _.
                option_both (Allocated r fs (suc n) group) (read s bgd).1.err
                  (λ e.
                    searched_bits n group s bgd there kept e _
                      (allocate_from-Allocated n (group + 1) (read s bgd).0
                        (λ i. (h.reads s (bitmap_offset d r fs bgd) fs.block_size).kept i ∙ kept i))
                      (scan (drop (start_bit r group / 8) (bitmap s bgd)) (start_bit r group / 8)
                        (start_bit r group % 8))
                      (scan-Found (drop (start_bit r group / 8) (bitmap s bgd))
                        (start_bit r group / 8) (start_bit r group % 8) (omega arith)))
                  λ _ _. tt

  -- `AllocateBlock` and `AllocateInode` give the number of a bit that was clear on the disk, in range
  -- and not reserved, and set it; every other byte is as before, but for the superblock and the
  -- descriptor of the group. They find none only where each group with a count other than 0 has all
  -- these bits set, and then leave the disk as it is.
  pub allocate-Allocated :
      (r : Resource) (fs : FileSystem d) → Allocated r fs fs.group_count 0 (allocate d r fs)
  unfolding allocate
  allocate-Allocated r fs = allocate_from-Allocated r fs fs.group_count 0 fs.dev (λ i. refl)
