-- ===== src/Vfs/Tx/View.antt =====
-- What the disk holds as a transaction sees it, and `TxDevice.ReadAt` as a read of that.
use Prim.Native.Nat.{max}
use werunos.Base.{
  ℕ, ◌+◌, ◌-◌, ◌*◌, ◌/◌, ◌%◌, ◌≤◌, ◌<◌, ◌≡◌, ◌⊎◌, refl, sym, ap, ◌∙◌, min, Option, none, some, List,
  [], ◌∷◌, length, byte_at, copy_at, slice, ltb, ◌==◌, if◌then◌else◌, arith, Bool-cases, inl, inr,
  if_both, length-copy_at, byte_at-copy_at, byte_at-slice, length-slice, index_eq, ltb→lt,
  ltb-false→le, ==→eq, eq→==, ne→==, true, false,
}
use werunos.Base.Blocks.{block_rest, block_split}
use werunos.Block.Device.{ReadWriterAt, IsDisk}
use werunos.Vfs.Tx.{TxState, overlay_block, overlay}
use werunos.Vfs.Tx.Map.{Dirty, lookup, IsDirty}

-- Byte `i` of the dirty blocks over `f`.
unfoldable pub seen : ℕ → Dirty → (ℕ → ℕ) → ℕ → ℕ
seen size dirty f i = elim (lookup (i / size) dirty) [
  | some block_data ↦ byte_at block_data (i % size)
  | none ↦ f i
]

pub seen_absent :
    (size : ℕ) (m : Dirty) (f : ℕ → ℕ) (i : ℕ) → lookup (i / size) m ≡ none → seen size m f i ≡ f i
unfolding seen
seen_absent size m f i e = rw (e, seen)

pub seen_present :
    (size : ℕ) (m : Dirty) (f : ℕ → ℕ) (i : ℕ) {bd : List ℕ}
    → lookup (i / size) m ≡ some bd
    → seen size m f i ≡ byte_at bd (i % size)
unfolding seen
seen_present size m f i e = rw (e, seen)

pub seen_cong :
    (size : ℕ) (m m' : Dirty) (f : ℕ → ℕ) (i : ℕ)
    → lookup (i / size) m ≡ lookup (i / size) m'
    → seen size m f i ≡ seen size m' f i
unfolding seen
seen_cong size m m' f i e =
    ap (λ (o : Option (List ℕ)). elim o [ some bd ↦ byte_at bd (i % size) | none ↦ f i ]) e

pub seen_hit :
    (size k : ℕ) (bd : List ℕ) (m : Dirty) (f : ℕ → ℕ) (i : ℕ)
    → (k == i / size) ≡ true
    → seen size ((k, bd) ∷ m) f i ≡ byte_at bd (i % size)
unfolding lookup
seen_hit size k bd m f i t = seen_present size ((k, bd) ∷ m) f i (rw t)

pub seen_miss :
    (size k : ℕ) (bd : List ℕ) (m : Dirty) (f : ℕ → ℕ) (i : ℕ)
    → (k == i / size) ≡ false
    → seen size ((k, bd) ∷ m) f i ≡ seen size m f i
unfolding lookup
seen_miss size k bd m f i t = seen_cong size ((k, bd) ∷ m) m f i (rw t)

-- The copy of the part `lo` to `hi` of a block that begins at `start` into what was read at `off`.
overlay_copy :
    (p bd : List ℕ) (off start size lo hi j : ℕ)
    → length bd ≡ size
    → off ≤ lo
    → start ≤ lo
    → lo ≤ off + j
    → off + j < hi
    → hi ≤ start + size
    → hi ≤ off + length p
    → byte_at (copy_at p (lo - off) (slice bd (lo - start) (hi - lo))) j
      ≡ byte_at bd (off + j - start)
overlay_copy p bd off start size lo hi j len a b c d e f =
    byte_at-copy_at p (lo - off) (slice bd (lo - start) (hi - lo)) j (omega arith)
    ∙ ground (
      arith,
      length-slice bd (lo - start) (hi - lo),
      byte_at-slice bd (lo - start) (hi - lo) (j - (lo - off)) (omega arith),
      index_eq bd (lo - start + (j - (lo - off))) (off + j - start) (omega arith),
    )

length-overlay_block :
    (size off : ℕ) (b : ℕ × List ℕ) (p : List ℕ) → length (overlay_block size off b p) ≡ length p
unfolding overlay_block
length-overlay_block size off (k, bd) p =
    if_both {A = List ℕ} (λ q. length q ≡ length p)
      (ltb (max off (k * size)) (min (off + length p) (k * size + size)))
      (λ _. length-copy_at p _ _) (λ _. refl)

overlay_block_inside :
    (size off k : ℕ) (bd p : List ℕ) (j : ℕ)
    → length bd ≡ size
    → j < length p
    → k * size ≤ off + j
    → off + j < k * size + size
    → byte_at (overlay_block size off (k, bd) p) j ≡ byte_at bd (off + j - k * size)
unfolding overlay_block
overlay_block_inside size off k bd p j len lt lo hi =
    if_both (λ q. byte_at q j ≡ byte_at bd (off + j - k * size))
      (ltb (max off (k * size)) (min (off + length p) (k * size + size)))
      (λ _.
        overlay_copy p bd off (k * size) size (max off (k * size))
          (min (off + length p) (k * size + size)) j len (omega arith) (omega arith) (omega arith)
          (omega arith) (omega arith) (omega arith))
      λ f. absurd (omega (arith, ltb-false→le _ _ f))

overlay_block_outside :
    (size off k : ℕ) (bd p : List ℕ) (j : ℕ)
    → j < length p
    → (off + j < k * size) ⊎ (k * size + size ≤ off + j)
    → byte_at (overlay_block size off (k, bd) p) j ≡ byte_at p j
unfolding overlay_block
overlay_block_outside size off k bd p j lt out =
    if_both (λ q. byte_at q j ≡ byte_at p j)
      (ltb (max off (k * size)) (min (off + length p) (k * size + size)))
      (λ t.
        byte_at-copy_at p _ _ j lt
        ∙ ground (
          arith,
          length-slice bd (max off (k * size) - k * size)
              (min (off + length p) (k * size + size) - max off (k * size)),
          ltb→lt _ _ t,
        ))
      λ _. refl

module _ (size : ℕ) (h : 0 < size) where
  overlay_block-seen :
      (off k : ℕ) (bd p : List ℕ) (j : ℕ)
      → length bd ≡ size
      → j < length p
      → byte_at (overlay_block size off (k, bd) p) j
        ≡ (if k == (off + j) / size then byte_at bd ((off + j) % size) else byte_at p j)
  overlay_block-seen off k bd p j len lt = elim (block_split size h k (off + j)) [
    | inl (e, lo, hi) ↦ rw (eq→== k _ e) (
        overlay_block_inside size off k bd p j len lt lo hi
        ∙ index_eq bd _ _ (omega (arith, block_rest size h (off + j), ap (λ (n : ℕ). n * size) e)))
    | inr (ne, out) ↦ rw (ne→== k _ ne) (overlay_block_outside size off k bd p j lt out)
  ]

  pub length-overlay : (off : ℕ) (m : Dirty) (p : List ℕ) → length (overlay size off m p) ≡ length p
  unfolding overlay
  length-overlay off [] p = refl
  length-overlay off (b ∷ m) p =
      length-overlay off m (overlay_block size off b p) ∙ length-overlay_block size off b p

  pub overlay-seen :
      (off : ℕ) (m : Dirty) (p : List ℕ) (f : ℕ → ℕ) (j : ℕ)
      → IsDirty size m
      → j < length p
      → byte_at p j ≡ f (off + j)
      → byte_at (overlay size off m p) j ≡ seen size m f (off + j)
  unfolding overlay seen lookup
  overlay-seen off [] p f j d lt e = e
  overlay-seen off ((k, bd) ∷ m) p f j d lt e =
      let head = overlay_block-seen off k bd p j d.1 lt in
      let lt' : j < length (overlay_block size off (k, bd) p) =
        omega (arith, length-overlay_block size off (k, bd) p) in
      elim (Bool-cases (k == (off + j) / size)) [
        | inl t ↦
            let absent : lookup ((off + j) / size) m ≡ none =
              ap (λ (n : ℕ). lookup n m) (sym (==→eq k _ t)) ∙ d.0 in
            overlay-seen off m _ (λ _. byte_at bd ((off + j) % size)) j d.2 lt' (rw t at head)
            ∙ seen_absent size m (λ _. byte_at bd ((off + j) % size)) (off + j) absent
            ∙ sym (seen_hit size k bd m f (off + j) t)
        | inr t ↦
            overlay-seen off m _ f j d.2 lt' ((rw t at head) ∙ e)
            ∙ sym (seen_miss size k bd m f (off + j) t)
      ]

pub seen_base :
    (size : ℕ) (m : Dirty) (f g : ℕ → ℕ) (i : ℕ) → f i ≡ g i → seen size m f i ≡ seen size m g i
unfolding seen
seen_base size m f g i e = ground (arith, e)

-- What the disk holds as the transaction sees it.
abbrev pub view : {d : ReadWriterAt} → IsDisk d → ℕ → TxState d → ℕ → ℕ
view k size st = seen size st.dirty (k.content st.inner)
