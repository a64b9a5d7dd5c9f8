-- ===== src/Vfs/Files/Result.antt =====
-- What `ReadFileAt` returns.
use werunos.Base.{
  ℕ, zero, suc, ◌+◌, ◌-◌, ◌*◌, ◌%◌, ◌^◌, ◌<◌, ◌≡◌, inl, inr, refl, sym, ap, ◌∙◌, true, false,
  Option, none, some, some_inj, List, [], ◌∷◌, length, byte_at, zeros, byte_at-zeros,
  length-replicate, copy_at, length-copy_at, byte_at-copy_at, patch_inside, ltb, leb, if◌then◌else◌,
  if_both, option_both, Bool-cases, min, arith,
}
use werunos.Base.Holds.{byte_at-copy_at_outside}
use werunos.Block.Device.{ReadWriterAt, IsDisk}
use werunos.Vfs.Extents.{Extent, uninitialized, block_count, phys_start}
use werunos.Vfs.Files.{Reading, read_blocks, read_extents, read_file_at}
use werunos.Vfs.Files.Content.{file_byte}
use werunos.Vfs.Files.Blocks.{between, Fills}
use werunos.Vfs.Files.ReadAt.{extents_size, read_extents-FillsFile}

-- No read of the device fails.
abbrev pub NeverFails : ReadWriterAt → Type 0
NeverFails d = (s : d.State) (off n : ℕ) → (d.read_at s off n).1.err ≡ none

module _ {d : ReadWriterAt} (works : NeverFails d) (block_size start stop : ℕ) where
  read_blocks-good :
      (n phys lo : ℕ) (r : Reading d)
      → r.good ≡ true
      → (read_blocks d block_size start stop n phys lo r).good ≡ true
  unfolding read_blocks
  read_blocks-good zero phys lo r g = g
  read_blocks-good (suc n) phys lo r g =
      if_both IsGood (leb ((lo + block_size) % 2 ^ 64) start)
        (λ _. read_blocks-good n (phys + 1) _ r g)
        λ _.
          if_both IsGood (leb stop lo) (λ _. g)
            λ _.
              option_both IsGood (d.read_at r.dev (phys * block_size % 2 ^ 64) block_size).1.err
                (λ _. read_blocks-good n (phys + 1) _ _ g)
                λ x e. absurd (
                  let q : none ≡ some x =
                    sym (works r.dev (phys * block_size % 2 ^ 64) block_size) ∙ e in
                  cc)
    where
      IsGood : Reading d → Type 0
      IsGood r' = r'.good ≡ true

  pub read_extents-good :
      (extents : List Extent) (lo : ℕ) (r : Reading d)
      → r.good ≡ true
      → (read_extents d block_size start stop extents lo r).good ≡ true
  unfolding read_extents
  read_extents-good [] lo r g = g
  read_extents-good (e ∷ extents) lo r g =
      if_both IsGood (leb ((lo + block_count e * block_size) % 2 ^ 64) start)
        (λ _. read_extents-good extents _ r g)
        λ _.
          if_both IsGood (leb stop lo) (λ _. g)
            λ _.
              if_both IsGood (uninitialized e) (λ _. read_extents-good extents _ r g)
                λ _.
                  if_both IsGood
                    (read_blocks d block_size start stop (block_count e) (phys_start e) lo r).good
                    (λ v. read_extents-good extents _ _ v)
                    λ _. read_blocks-good (block_count e) (phys_start e) lo r g
    where
      IsGood : Reading d → Type 0
      IsGood r' = r'.good ≡ true

module _ {d : ReadWriterAt} (h : IsDisk d) (block_size : ℕ) (extents : List Extent) (file_size : ℕ)
    (s : d.State) (buf : List ℕ) (start : ℕ) where
  -- What a call gives: the device holds what it held; the count is what the buffer takes of the file,
  -- if reads do not fail; and with a count, so many bytes of the buffer are those of the file from
  -- `start` on, and the others are as they were.
  pub record ReadsFile (out : d.State × List ℕ × Option ℕ) : Type 0 where
    pub kept : (i : ℕ) → h.content out.0 i ≡ h.content s i
    pub same_length : length out.1 ≡ length buf
    pub counted : NeverFails d → out.2 ≡ some (min (length buf) (file_size - start))
    pub filled :
        (n : ℕ)
        → out.2 ≡ some n
        → (n ≡ min (length buf) (file_size - start))
          × ((i : ℕ)
              → byte_at out.1 i ≡ (
                  if ltb i n
                  then file_byte (h.content s) block_size extents (start + i)
                  else byte_at buf i))

  -- Where the sizes of the extents do not reach 2^64, a read gives the bytes of the extents, one
  -- behind the other, up to the size of the file.
  pub read_file_at-ReadsFile :
      0 < block_size
      → extents_size block_size extents < 2 ^ 64
      → ReadsFile (read_file_at d block_size extents file_size s buf start)
  unfolding read_file_at
  read_file_at-ReadsFile pos small =
      if_both ReadsFile (leb file_size start) (λ t. outside t)
        λ t. if_both ReadsFile r'.good (λ g. inside (ground arith) g) λ g. failed (ground arith) g
    where
      outside : leb file_size start ≡ true → ReadsFile (s, buf, some 0)
      outside t = record {
        kept = λ i. refl;
        same_length = refl;
        counted = λ _. ap some (ground arith);
        filled = λ n e.
            let q : 0 ≡ n = some_inj e in
            (ground arith, λ i. let u : ltb i n ≡ false = ground arith in rw u);
      }

      stop : ℕ
      stop = min (start + length buf) file_size

      cleared : List ℕ
      cleared = copy_at buf 0 (zeros (stop - start))

      r : Reading d
      r = record { dev = s; buf = cleared; good = true }

      r' : Reading d
      r' = read_extents d block_size start stop extents 0 r

      length-cleared : length cleared ≡ length buf
      length-cleared = length-copy_at buf 0 (zeros (stop - start))

      byte_at-cleared : (i : ℕ) → between 0 stop (start + i) ≡ true → byte_at cleared i ≡ 0
      byte_at-cleared i t =
          byte_at-copy_at buf 0 (zeros (stop - start)) i (ground arith)
          ∙ patch_inside (byte_at buf) 0 (zeros (stop - start)) i (omega arith)
              (ground (arith, length-replicate (stop - start) (zero)))
          ∙ byte_at-zeros (stop - start) (i - 0)

      same_outside :
          (i : ℕ)
          → between 0 (min stop stop) (start + i) ≡ false
          → byte_at cleared i ≡ byte_at buf i
      same_outside i t =
          byte_at-copy_at_outside buf 0 (zeros (stop - start)) i
            (inr (ground (arith, length-replicate (stop - start) (zero))))

      fills :
          start < file_size
          → Fills h block_size start stop pos 0 stop
              (file_byte (h.content s) block_size extents)
              r
              r'
      fills lt =
          read_extents-FillsFile h block_size start stop pos (h.content s) (omega arith) extents 0 r
            (omega arith) (omega (arith, length-cleared)) (λ i. refl) byte_at-cleared

      bytes :
          start < file_size
          → (i n : ℕ) → stop - start ≡ n
          → (if between 0 (min stop stop) (start + i)
              then file_byte (h.content s) block_size extents (start + i - 0)
              else byte_at cleared i)
            ≡ (if ltb i n
                then file_byte (h.content s) block_size extents (start + i)
                else byte_at buf i)
      bytes lt i n q = elim (Bool-cases (between 0 (min stop stop) (start + i))) [
        | inl t ↦
            let u : ltb i n ≡ true = ground arith in
            rw (t, u)
              (ap (file_byte (h.content s) block_size extents)
                (let k : start + i - 0 ≡ start + i = omega arith in k))
        | inr t ↦ let u : ltb i n ≡ false = ground arith in rw (t, u) (same_outside i t)
      ]

      inside : start < file_size → r'.good ≡ true → ReadsFile (r'.dev, r'.buf, some (stop - start))
      inside lt g = record {
        kept = (fills lt).kept;
        same_length = (fills lt).same_length ∙ length-cleared;
        counted = λ _. ap some (omega arith);
        filled = λ n e.
            let q : stop - start ≡ n = some_inj e in
            (omega arith, λ i. (fills lt).filled g i ∙ bytes lt i n q);
      }

      failed : start < file_size → r'.good ≡ false → ReadsFile (r'.dev, r'.buf, none)
      failed lt g = record {
        kept = (fills lt).kept;
        same_length = (fills lt).same_length ∙ length-cleared;
        counted = λ works. absurd (
            let q : true ≡ false =
              sym (read_extents-good works block_size start stop extents 0 r refl) ∙ g in
            cc);
        filled = λ n e. absurd cc;
      }
