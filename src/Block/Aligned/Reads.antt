-- ===== src/Block/Aligned/Reads.antt =====
-- `AlignedReaderAt.ReadAt` keeps the contract of a disk.
use native.Mathlib.Nat.{div-mul-le_self, lt-div-mul-add}
use werunos.Base.{
  ℕ, ◌+◌, ◌-◌, ◌^◌, ◌≤◌, ◌<◌, ◌≡◌, ◌≢◌, ◌⊎◌, refl, sym, ap, ◌∙◌, min, Option, none, some, length,
  zeros, copy_at, slice, arith, byte_at-filled, byte_at-slice, length-filled, length-slice, ◌==◌,
  ◌&&◌, [], subst, if_both, ==→eq, inl, inr, if◌then◌else◌,
}
use werunos.Block.Device.{IoError, eof, Reply, ReadWriterAt, ReadsTrue, IsDisk}
use werunos.Block.Aligned.{aligned_start, aligned_end, trim, read_at}

-- The sectors begin at or before the range and end at or behind it.
pub sectors_cover :
    (ss off n : ℕ)
    → 0 < ss
    → (aligned_start ss off ≤ off)
      × (off - aligned_start ss off + n ≤ aligned_end ss off n - aligned_start ss off)
sectors_cover ss off n h = (
  div-mul-le_self off ss,
  omega (arith, div-mul-le_self off ss, lt-div-mul-add {a = off + n + ss - 1} {b = ss} h),
)

-- The error of a read that has delivered `usable` of `n` bytes.
cut_none :
    (usable n : ℕ) (e : Option IoError)
    → (if usable == n then none else elim e [ some x ↦ some x | none ↦ some eof ]) ≡ none
    → usable ≡ n
cut_none usable n e h = ground arith

cut_eof :
    (usable n : ℕ) (e : Option IoError)
    → (if usable == n then none else elim e [ some x ↦ some x | none ↦ some eof ]) ≡ some eof
    → (usable ≢ n) × ((e ≡ some eof) ⊎ (e ≡ none))
cut_eof usable n e h = ground arith

-- A true answer to the read of the sectors is cut to a true answer to the read of the range.
trim-ReadsTrue :
    (before after : ℕ → ℕ) (start total skip n : ℕ) (r : Reply)
    → skip + n ≤ total
    → ReadsTrue before after start total r
    → ReadsTrue before after (start + skip) n (trim total skip n r)
unfolding trim
trim-ReadsTrue before after start total skip n r h t = record {
  kept = t.kept;
  fits = omega (arith, length-slice (copy_at (zeros total) 0 r.bytes) skip usable);
  same = λ i lt.
      let lt' : i < usable = omega (arith, long) in
      let e : start + (skip + i) ≡ start + skip + i = omega arith in
      byte_at-slice _ skip usable i lt'
      ∙ byte_at-filled total r.bytes (skip + i) (omega arith)
      ∙ t.same (skip + i) (omega arith)
      ∙ ap before e;
  full = λ e. long ∙ cut_none usable n r.err e;
  ended = λ e i lt.
      let e' : start + (skip + i) ≡ start + skip + i = omega arith in
      let (short, at_end) = cut_eof usable n r.err e in
      sym (ap before e')
      ∙ t.ended (elim at_end [ inl x ↦ x | inr x ↦ absurd (omega (arith, t.full x)) ]) (skip + i)
          (omega (arith, long));
}
  where
    usable : ℕ
    usable = min (length r.bytes - skip) n

    long : length (slice (copy_at (zeros total) 0 r.bytes) skip usable) ≡ usable
    long = omega (
      arith,
      length-slice (copy_at (zeros total) 0 r.bytes) skip usable,
      length-filled total r.bytes,
    )

module _ {d : ReadWriterAt} (k : IsDisk d) where
  abbrev Reads : d.State → ℕ → ℕ → d.State × Reply → Type 0
  Reads s off n x = ReadsTrue (k.content s) (k.content x.0) off n x.1

  Reads-nothing :
      (s : d.State) (off n : ℕ) → n ≡ 0 → Reads s off n (s, record { bytes = []; err = none })
  Reads-nothing s off n e = record {
    kept = λ i. refl;
    fits = omega arith;
    same = λ i lt. absurd (omega arith);
    full = λ _. sym e;
    ended = λ x. cc;
  }

  Reads-cong :
      (s : d.State) (a b n : ℕ) (x : d.State × Reply) → a ≡ b → Reads s a n x → Reads s b n x
  Reads-cong s a b n x e t = subst (λ (o : ℕ). Reads s o n x) e t

  -- The answer of a disk, over the numbers of the model, which do not wrap.
  pub read_at-Reads :
      (ss : ℕ) (s : d.State) (off n : ℕ) → 0 < ss → Reads s off n (read_at d ss s off n)
  unfolding read_at
  read_at-Reads ss s off n h =
      if_both (Reads s off n) (n == 0) (λ e. Reads-nothing s off n (==→eq n 0 e))
        λ _.
          if_both (Reads s off n) (start == off && total == n) (λ _. k.reads s off n)
            λ _.
              let e : start + (off - start) ≡ off = omega (arith, sectors_cover ss off n h) in
              Reads-cong s _ off n _ e (
                trim-ReadsTrue _ _ start total (off - start) n _ (sectors_cover ss off n h).1
                  (k.reads s start total))
    where
      start : ℕ
      start = aligned_start ss off

      total : ℕ
      total = aligned_end ss off n - start

  -- Over a disk, at an offset that is not negative and for a range that stays below 2^63 with a sector more:
  -- the bytes that `AlignedReaderAt.ReadAt` returns are the disk's, it returns them all unless it reports an
  -- error, it reports the end only where the rest counts as zeros, and it changes nothing.
  pub read_at-ReadsTrue :
      (ss : ℕ) (s : d.State) (off n : ℕ)
      → 0 < ss
      → off + n + ss ≤ 2 ^ 63
      → ReadsTrue (k.content s) (k.content (read_at d ss s off n).0) off n (read_at d ss s off n).1
  read_at-ReadsTrue ss s off n h in_range = read_at-Reads ss s off n h
