-- ===== src/Block/Aligned/Writes.antt =====
-- `AlignedReaderAt.WriteAt` keeps the contract of a disk: its read, merge and write of whole sectors
-- changes no byte outside the range that it was given.
use werunos.Base.{
  ℕ, ◌+◌, ◌-◌, ◌^◌, ◌≤◌, ◌<◌, ◌≡◌, ◌≢◌, ◌⊎◌, refl, sym, ap, ◌∙◌, subst, ◌&&◌, Option, none, some,
  List, length, byte_at, zeros, copy_at, patch, arith, Bool-cases, length-copy_at, byte_at-copy_at,
  byte_at-filled, length-filled, get_or-past, index_eq, patch_cong, patch_empty, ◌==◌, if_both,
  ==→eq, inl, inr, leb, ltb, leb→le, ltb→lt, ltb-false→le,
}
use werunos.Block.Device.{
  IoError, eof, fault, Reply, Written, ReadWriterAt, ReadsTrue, WritesTrue, IsDisk, unless_fault,
}
use werunos.Block.Aligned.{
  aligned_start, aligned_end, all_or_none, merge_and_write, write_at, aligned,
}
use werunos.Block.Aligned.Reads.{sectors_cover, read_at-Reads}

err_known : (e : Option IoError) → e ≢ some fault → (e ≡ none) ⊎ (e ≡ some eof)
err_known none h = inl refl
err_known (some eof) h = inr refl
err_known (some fault) h = absurd (h refl)

-- What a read that did not fail leaves in a zeroed buffer is what the disk holds.
pub filled_true :
    (before after : ℕ → ℕ) (start total : ℕ) (r : Reply) (j : ℕ)
    → ReadsTrue before after start total r
    → r.err ≢ some fault
    → j < total
    → byte_at (copy_at (zeros total) 0 r.bytes) j ≡ before (start + j)
filled_true before after start total r j t e lt =
    byte_at-filled total r.bytes j lt ∙ elim (Bool-cases (ltb j (length r.bytes))) [
      | inl h ↦ t.same j (ground arith)
      | inr h ↦ get_or-past r.bytes j 0 (ltb-false→le _ _ h) ∙ sym (past_zero (ltb-false→le _ _ h))
    ]
  where
    past_zero : length r.bytes ≤ j → before (start + j) ≡ 0
    past_zero h = elim (err_known r.err e) [
      | inl x ↦ absurd (omega (arith, t.full x))
      | inr x ↦ t.ended x j h
    ]

-- The merged sectors differ from the disk in the range of `buf` alone.
merged_inside :
    (before : ℕ → ℕ) (tmp buf : List ℕ) (start total skip i : ℕ)
    → length tmp ≡ total
    → ((j : ℕ) → j < total → byte_at tmp j ≡ before (start + j))
    → start ≤ i
    → i < start + total
    → patch before start (copy_at tmp skip buf) i ≡ patch before (start + skip) buf i
merged_inside before tmp buf start total skip i len same lo hi =
    let back : start + (i - start) ≡ i = omega arith in
    let apart : i - start - skip ≡ i - (start + skip) = omega arith in
    ground (
      arith,
      length-copy_at tmp skip buf,
      byte_at-copy_at tmp skip buf (i - start) (omega arith),
      same (i - start) (omega arith),
      ap before back,
      index_eq buf _ _ apart,
    )

merged_patch :
    (before : ℕ → ℕ) (tmp buf : List ℕ) (start total skip i : ℕ)
    → length tmp ≡ total
    → skip + length buf ≤ total
    → ((j : ℕ) → j < total → byte_at tmp j ≡ before (start + j))
    → patch before start (copy_at tmp skip buf) i ≡ patch before (start + skip) buf i
merged_patch before tmp buf start total skip i len fits same = elim (Bool-cases (leb start i)) [
  | inr lo ↦ ground (arith, length-copy_at tmp skip buf)
  | inl lo ↦ elim (Bool-cases (ltb i (start + total))) [
    | inl hi ↦
        merged_inside before tmp buf start total skip i len same (leb→le _ _ lo) (ltb→lt _ _ hi)
    | inr hi ↦ ground (arith, length-copy_at tmp skip buf)
  ]
]

all_or_none-WritesTrue :
    (before after : ℕ → ℕ) (off n : ℕ) (p : List ℕ) (w : Written)
    → n ≡ length p
    → ((i : ℕ) → (after i ≡ before i) ⊎ (after i ≡ patch before off p i))
    → (w.err ≡ none → (i : ℕ) → after i ≡ patch before off p i)
    → WritesTrue before after off p (all_or_none n w)
unfolding all_or_none
all_or_none-WritesTrue before after off n p w e torn done = record {
  torn = torn;
  fits = ground arith;
  full = λ h. ground arith;
  done = λ h. done (ground arith);
}

module _ {d : ReadWriterAt} (k : IsDisk d) where
  abbrev Writes : d.State → ℕ → List ℕ → d.State × Written → Type 0
  Writes s off p x = WritesTrue (k.content s) (k.content x.0) off p x.1

  merge-Writes :
      (s s' : d.State) (start total skip : ℕ) (buf : List ℕ) (r : Reply)
      → skip + length buf ≤ total
      → ReadsTrue (k.content s) (k.content s') start total r
      → Writes s (start + skip) buf (merge_and_write d start total skip buf (s', r))
  unfolding merge_and_write
  merge-Writes s s' start total skip buf r fits t =
      unless_fault (Writes s (start + skip) buf) r.err
        (λ _. record {
          torn = λ i. inl (t.kept i);
          fits = omega arith;
          full = λ x. cc;
          done = λ x. cc;
        })
        λ ok.
          all_or_none-WritesTrue _ _ (start + skip) (length buf) buf w.1 refl
            (λ i. elim (written.torn i) [
              | inl x ↦ inl (x ∙ t.kept i)
              | inr x ↦ inr (x ∙ same i ok)
            ])
            (λ x i. written.done x i ∙ same i ok)
    where
      tmp : List ℕ
      tmp = copy_at (zeros total) 0 r.bytes

      w : d.State × Written
      w = d.write_at s' start (copy_at tmp skip buf)

      written : Writes s' start (copy_at tmp skip buf) w
      written = k.writes s' start (copy_at tmp skip buf)

      same :
          (i : ℕ)
          → r.err ≢ some fault
          → patch (k.content s') start (copy_at tmp skip buf) i
            ≡ patch (k.content s) (start + skip) buf i
      same i ok =
          merged_patch (k.content s') tmp buf start total skip i (length-filled total r.bytes) fits
            (λ j lt. filled_true _ _ start total r j t ok lt ∙ sym (t.kept (start + j)))
          ∙ patch_cong (k.content s') (k.content s) (start + skip) buf i (t.kept i)

  Writes-nothing :
      (s : d.State) (off : ℕ) (p : List ℕ)
      → length p ≡ 0
      → Writes s off p (s, record { count = 0; err = none })
  Writes-nothing s off p e = record {
    torn = λ i. inl refl;
    fits = omega arith;
    full = λ _. sym e;
    done = λ _ i. sym (patch_empty (k.content s) off p i e);
  }

  Writes-cong :
      (s : d.State) (a b : ℕ) (p : List ℕ) (x : d.State × Written)
      → a ≡ b
      → Writes s a p x
      → Writes s b p x
  Writes-cong s a b p x e t = subst (λ (o : ℕ). Writes s o p x) e t

  -- The effect on a disk, over the numbers of the model, which do not wrap.
  write_at-Writes :
      (ss : ℕ) (s : d.State) (off : ℕ) (p : List ℕ)
      → 0 < ss
      → Writes s off p (write_at d ss s off p)
  unfolding write_at
  write_at-Writes ss s off p h =
      if_both (Writes s off p) (length p == 0) (λ e. Writes-nothing s off p (==→eq (length p) 0 e))
        λ _.
          if_both (Writes s off p) (start == off && total == length p) (λ _. k.writes s off p)
            λ _.
              let e : start + (off - start) ≡ off =
                omega (arith, sectors_cover ss off (length p) h) in
              Writes-cong s _ off p _ e (
                merge-Writes s _ start total (off - start) p _ (sectors_cover ss off (length p) h).1
                  (k.reads s start total))
    where
      start : ℕ
      start = aligned_start ss off

      total : ℕ
      total = aligned_end ss off (length p) - start

  -- Over a disk, at an offset that is not negative and for a range that stays below 2^63 with a sector more:
  -- where `AlignedReaderAt.WriteAt` reports no error the range holds the new bytes; in every case each byte
  -- is the old or the new one, and no byte outside the range is changed.
  pub write_at-WritesTrue :
      (ss : ℕ) (s : d.State) (off : ℕ) (p : List ℕ)
      → 0 < ss
      → off + length p + ss ≤ 2 ^ 63
      → WritesTrue
          (k.content s)
          (k.content (write_at d ss s off p).0)
          off
          p
          (write_at d ss s off p).1
  write_at-WritesTrue ss s off p h in_range = write_at-Writes ss s off p h

  -- `AlignedReaderAt` over a disk is a disk with the same content.
  pub aligned-IsDisk : (ss : ℕ) → 0 < ss → IsDisk (aligned d ss)
  aligned-IsDisk ss h = record {
    content = k.content;
    reads = λ s off n. read_at-Reads k ss s off n h;
    writes = λ s off p. write_at-Writes ss s off p h;
  }
