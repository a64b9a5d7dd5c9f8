-- ===== src/Vfs/Tx/Writes.antt =====
-- `TxDevice.WriteAt` writes to what the transaction sees, and leaves the disk alone.
use native.Mathlib.Nat.{div-mul-le_self, add-zero, le-div_iff_mul-le}
use werunos.Base.{
  ℕ, zero, suc, ◌+◌, ◌-◌, ◌*◌, ◌/◌, ◌%◌, ◌≤◌, ◌<◌, ◌≡◌, ◌≢◌, ◌⊎◌, refl, sym, ap, subst, ◌∙◌, Option,
  none, some, List, length, byte_at, patch, ltb, ◌==◌, if◌then◌else◌, arith, Bool-cases,
  option_both, if_both, inl, inr, patch_empty, patch_outside, eq→==, ne→==, ==→eq, ltb→lt,
  ltb-false→le,
}
use werunos.Base.Blocks.{block_rest, block_split, block_lower, block_upper}
use werunos.Block.Device.{IoError, Written, ReadWriterAt, IsDisk}
use werunos.Vfs.Tx.{TxState, load_block, merge, write_blocks, write_at}
use werunos.Vfs.Tx.Map.{store, IsDirty, store-IsDirty}
use werunos.Vfs.Tx.View.{seen_base, view}
use werunos.Vfs.Tx.Merge.{Loaded, load_block-Loaded, seen-store, byte_at-merge, length-merge}

shift : (b n : ℕ) → b + suc n ≡ b + 1 + n
shift b n = omega arith

blocks_count : {a b : ℕ} → a ≤ b → a + (b + 1 - a) ≡ b + 1
blocks_count le = omega arith

module _ {d : ReadWriterAt} (k : IsDisk d) (size : ℕ) where
  -- The blocks before `b` are written: `v` is what was seen and `g` what the disk held at first.
  record Progress (g v : ℕ → ℕ) (off : ℕ) (p : List ℕ) (b : ℕ) (st : TxState d) : Type 0 where
    good : IsDirty size st.dirty
    disk : (i : ℕ) → k.content st.inner i ≡ g i
    below : (i : ℕ) → i < b * size → view k size st i ≡ patch v off p i
    above : (i : ℕ) → b * size ≤ i → view k size st i ≡ v i

  -- A write inside a transaction: the disk is untouched, and what the transaction sees is written
  -- as by a write to a disk.
  pub record WritesOwn (before : TxState d) (off : ℕ) (p : List ℕ) (after : TxState d) (w : Written)
      : Type 0 where
    pub good : IsDirty size after.dirty
    pub disk : (i : ℕ) → k.content after.inner i ≡ k.content before.inner i
    pub torn :
        (i : ℕ)
        → (view k size after i ≡ view k size before i)
          ⊎ (view k size after i ≡ patch (view k size before) off p i)
    pub full : w.err ≡ none → w.count ≡ length p
    pub done : w.err ≡ none → (i : ℕ) → view k size after i ≡ patch (view k size before) off p i

  record Outcome (g v : ℕ → ℕ) (off : ℕ) (p : List ℕ) (b : ℕ) (x : TxState d × Option IoError)
      : Type 0 where
    good : IsDirty size x.0.dirty
    disk : (i : ℕ) → k.content x.0.inner i ≡ g i
    torn : (i : ℕ) → (view k size x.0 i ≡ v i) ⊎ (view k size x.0 i ≡ patch v off p i)
    done : x.1 ≡ none → Progress g v off p b x.0

  Progress-torn :
      (g v : ℕ → ℕ) (off : ℕ) (p : List ℕ) (b : ℕ) (st : TxState d)
      → Progress g v off p b st
      → (i : ℕ) → (view k size st i ≡ v i) ⊎ (view k size st i ≡ patch v off p i)
  Progress-torn g v off p b st t i = elim (Bool-cases (ltb i (b * size))) [
    | inl lt ↦ inr (t.below i (ltb→lt _ _ lt))
    | inr ge ↦ inl (t.above i (ltb-false→le _ _ ge))
  ]

  module _ (h : 0 < size) (g v : ℕ → ℕ) (off : ℕ) (p : List ℕ) where
    -- The block `b` once it is loaded, merged and stored.
    module _ (b : ℕ) (st : TxState d) (x : d.State × List ℕ × Option IoError)
        (t : Progress g v off p b st) (l : Loaded k size st b x) (ok : x.2 ≡ none) where
      abbrev next : TxState d
      next = record { dirty = store b (merge size off p b x.1) st.dirty; inner = x.0 }

      view-next :
          (i : ℕ)
          → view k size next i ≡ (
              if b == i / size
              then byte_at (merge size off p b x.1) (i % size)
              else view k size st i)
      view-next i =
          seen_base size next.dirty _ _ i (l.kept i)
          ∙ seen-store size b (merge size off p b x.1) st.dirty (k.content st.inner) i

      view-next_hit : (i : ℕ) → b ≡ i / size → view k size next i ≡ patch v off p i
      view-next_hit i e =
          let scaled : b * size ≡ i / size * size = ap (λ (n : ℕ). n * size) e in
          let small : i % size < size =
            omega (arith, block_rest size h i, block_upper size h i, block_lower size h i) in
          let back : b * size + i % size ≡ i =
            omega (arith, block_rest size h i, block_lower size h i) in
          view-next i
          ∙ rw (eq→== b _ e) (
              byte_at-merge size off p b x.1 (i % size) v l.whole small
                (l.same ok (i % size) small ∙ t.above _ (omega arith))
              ∙ ap (patch v off p) back)

      view-next_miss : (i : ℕ) → b ≢ i / size → view k size next i ≡ view k size st i
      view-next_miss i ne = view-next i ∙ rw (ne→== b _ ne)

      Progress-next : Progress g v off p (b + 1) next
      Progress-next = record {
        good = store-IsDirty size b _ st.dirty (length-merge size off p b x.1 ∙ l.whole) t.good;
        disk = λ i. l.kept i ∙ t.disk i;
        below = λ i lt. elim (block_split size h b i) [
          | inl (e, _, _) ↦ view-next_hit i e
          | inr (ne, inl lo) ↦ view-next_miss i ne ∙ t.below i lo
          | inr (ne, inr hi) ↦ absurd (omega arith)
        ];
        above = λ i le. elim (block_split size h b i) [
          | inl (e, _, hi) ↦ absurd (omega arith)
          | inr (ne, _) ↦ view-next_miss i ne ∙ t.above i (omega arith)
        ];
      }

    Outcome-failed :
        (b n : ℕ) (st : TxState d) (x : d.State × List ℕ × Option IoError) {e : IoError}
        → Progress g v off p b st
        → Loaded k size st b x
        → Outcome g v off p n (record { dirty = st.dirty; inner = x.0 }, some e)
    Outcome-failed b n st x t l = record {
      good = t.good;
      disk = λ i. l.kept i ∙ t.disk i;
      torn = λ i. elim (Progress-torn g v off p b st t i) [
        | inl y ↦ inl (seen_base size st.dirty _ _ i (l.kept i) ∙ y)
        | inr y ↦ inr (seen_base size st.dirty _ _ i (l.kept i) ∙ y)
      ];
      done = λ e'. cc;
    }

    write_blocks-Outcome :
        (n b : ℕ) (st : TxState d)
        → Progress g v off p b st
        → Outcome g v off p (b + n) (write_blocks size d n b off p st)
    unfolding write_blocks
    write_blocks-Outcome zero b st t = record {
      good = t.good;
      disk = t.disk;
      torn = Progress-torn g v off p b st t;
      done = λ _. rw add-zero t;
    }
    write_blocks-Outcome (suc n) b st t =
        let l = load_block-Loaded k size h st b t.good in
        option_both (Outcome g v off p (b + suc n)) (load_block size d st b).2
          (λ ok.
            rw (shift b n) (
              write_blocks-Outcome n (b + 1) _
                (Progress-next b st (load_block size d st b) t l ok)))
          λ e _. Outcome-failed b (b + suc n) st (load_block size d st b) t l

  Progress-start :
      (st : TxState d) (off : ℕ) (p : List ℕ)
      → IsDirty size st.dirty
      → Progress (k.content st.inner) (view k size st) off p (off / size) st
  Progress-start st off p good = record {
    good = good;
    disk = λ i. refl;
    below = λ i lt.
        sym
          (patch_outside (view k size st) off p i (inl (omega (arith, div-mul-le_self off size))));
    above = λ i _. refl;
  }

  WritesOwn-Outcome :
      (h : 0 < size) (st : TxState d) (off : ℕ) (p : List ℕ) (x : TxState d × Option IoError)
      → length p ≢ 0
      → Outcome (k.content st.inner) (view k size st) off p ((off + length p - 1) / size + 1) x
      → WritesOwn st off p x.0 (elim x.1 [
        | some e ↦ record { count = 0; err = some e }
        | none ↦ record { count = length p; err = none }
      ])
  WritesOwn-Outcome h st off p x ne o = record {
    good = o.good;
    disk = o.disk;
    torn = o.torn;
    full = λ e. ground arith;
    done = λ e i. written (o.done (ground arith)) i;
  }
    where
      last : ℕ
      last = (off + length p - 1) / size

      written :
          Progress (k.content st.inner) (view k size st) off p (last + 1) x.0
          → (i : ℕ) → view k size x.0 i ≡ patch (view k size st) off p i
      written t i = elim (Bool-cases (ltb i ((last + 1) * size))) [
        | inl lt ↦ t.below i (ltb→lt _ _ lt)
        | inr ge ↦
            t.above i (ltb-false→le _ _ ge)
            ∙ sym (
                patch_outside (view k size st) off p i (
                  inr
                    (omega (arith, ltb-false→le _ _ ge, block_upper size h (off + length p - 1)))))
      ]

  -- Inside a transaction a write changes no byte of the disk; without an error the transaction then
  -- sees the new bytes in the range and its own bytes elsewhere, and after an error each byte is the
  -- old or the new one. The dirty blocks stay of full size, each kept once.
  pub write_at-WritesOwn :
      (st : TxState d) (off : ℕ) (p : List ℕ)
      → 0 < size
      → IsDirty size st.dirty
      → WritesOwn st off p (write_at size d st off p).0 (write_at size d st off p).1
  unfolding write_at
  write_at-WritesOwn st off p h good =
      if_both {A = TxState d × Written} (λ x. WritesOwn st off p x.0 x.1) (length p == 0)
        (λ e. record {
          good = good;
          disk = λ i. refl;
          torn = λ i. inl refl;
          full = λ _. sym (==→eq _ 0 e);
          done = λ _ i. sym (patch_empty (view k size st) off p i (==→eq _ 0 e));
        })
        λ ne.
          WritesOwn-Outcome h st off p _ (λ z. ground arith)
            (subst
              (λ (c : ℕ).
                Outcome (k.content st.inner) (view k size st) off p c
                  (write_blocks size d (last + 1 - off / size) (off / size) off p st))
              (blocks_count (later (λ z. ground arith)))
              (write_blocks-Outcome h _ _ off p _ (off / size) st (Progress-start st off p good)))
    where
      last : ℕ
      last = (off + length p - 1) / size

      later : length p ≢ 0 → off / size ≤ last
      later ne = (le-div_iff_mul-le h).1 (omega (arith, div-mul-le_self off size))
