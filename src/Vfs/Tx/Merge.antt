-- ===== src/Vfs/Tx/Merge.antt =====
-- The blocks that `TxDevice.WriteAt` loads, merges and stores.
use Prim.Native.Nat.{max}
use werunos.Base.{
  ℕ, ◌+◌, ◌-◌, ◌*◌, ◌/◌, ◌%◌, ◌<◌, ◌≡◌, ◌≢◌, refl, sym, ap, ◌∙◌, min, Option, none, some, List,
  length, byte_at, copy_at, slice, patch, ◌==◌, if◌then◌else◌, arith, Bool-cases, option_both, inl,
  inr, length-copy_at, byte_at-copy_at, byte_at-slice, length-slice, length-filled, index_eq,
  patch_inside, patch_outside, range_split,
}
use werunos.Base.Blocks.{block_rest, block_of}
use werunos.Block.Device.{IoError, fault, Reply, ReadWriterAt, ReadsTrue, IsDisk}
use werunos.Block.Aligned.Writes.{filled_true}
use werunos.Vfs.Tx.{TxState, load_block, merge}
use werunos.Vfs.Tx.Map.{Dirty, lookup, store, IsDirty, lookup-store, lookup-IsDirty}
use werunos.Vfs.Tx.View.{seen, seen_absent, seen_present, seen_cong, view}

pub length-merge :
    (size off : ℕ) (p : List ℕ) (b : ℕ) (bd : List ℕ) → length (merge size off p b bd) ≡ length bd
unfolding merge
length-merge size off p b bd = length-copy_at bd _ _

merged_copy :
    (bd p : List ℕ) (off start size lo hi j : ℕ) (v : ℕ → ℕ)
    → length bd ≡ size
    → lo ≡ max off start
    → hi ≡ min (off + length p) (start + size)
    → j < size
    → byte_at bd j ≡ v (start + j)
    → byte_at (copy_at bd (lo - start) (slice p (lo - off) (hi - lo))) j ≡ patch v off p (start + j)
merged_copy bd p off start size lo hi j v len elo ehi lt e =
    byte_at-copy_at bd (lo - start) sl j (omega arith)
    ∙ elim (range_split off (length p) (start + j)) [
      | inl (a, b) ↦
          patch_inside (byte_at bd) (lo - start) sl j (omega arith) (omega (arith, long))
          ∙ byte_at-slice p (lo - off) (hi - lo) (j - (lo - start)) (omega arith)
          ∙ index_eq p _ _ (omega arith)
          ∙ sym (patch_inside v off p (start + j) a b)
      | inr out ↦
          patch_outside (byte_at bd) (lo - start) sl j (omega (arith, long))
          ∙ e
          ∙ sym (patch_outside v off p (start + j) out)
    ]
  where
    sl : List ℕ
    sl = slice p (lo - off) (hi - lo)

    long : length sl ≡ min (hi - lo) (length p - (lo - off))
    long = length-slice p (lo - off) (hi - lo)

-- Byte `j` of the merged block is byte `start + j` of the disk after the write, if it was before.
pub byte_at-merge :
    (size off : ℕ) (p : List ℕ) (b : ℕ) (bd : List ℕ) (j : ℕ) (v : ℕ → ℕ)
    → length bd ≡ size
    → j < size
    → byte_at bd j ≡ v (b * size + j)
    → byte_at (merge size off p b bd) j ≡ patch v off p (b * size + j)
unfolding merge
byte_at-merge size off p b bd j v len lt e =
    merged_copy bd p off (b * size) size _ _ j v len refl refl lt e

-- Storing a block shows its bytes at its positions, and changes no other.
pub seen-store :
    (size b : ℕ) (nb : List ℕ) (m : Dirty) (f : ℕ → ℕ) (i : ℕ)
    → seen size (store b nb m) f i
      ≡ (if b == i / size then byte_at nb (i % size) else seen size m f i)
seen-store size b nb m f i = elim (Bool-cases (b == i / size)) [
  | inl t ↦ rw t (seen_present size (store b nb m) f i (lookup-store b (i / size) nb m ∙ rw t))
  | inr t ↦ rw t (seen_cong size (store b nb m) m f i (lookup-store b (i / size) nb m ∙ rw t))
]

-- Loading a block changes nothing, and without an error yields the block as the transaction sees it.
pub record Loaded {d : ReadWriterAt} (k : IsDisk d) (size : ℕ) (st : TxState d) (b : ℕ)
    (x : d.State × List ℕ × Option IoError) : Type 0 where
  pub kept : (i : ℕ) → k.content x.0 i ≡ k.content st.inner i
  pub whole : length x.1 ≡ size
  pub same : x.2 ≡ none → (j : ℕ) → j < size → byte_at x.1 j ≡ view k size st (b * size + j)

not_failed :
    (e : Option IoError) → (elim e [ some fault ↦ some fault | _ ↦ none ]) ≡ none → e ≢ some fault
not_failed e h = λ x. ground arith

module _ {d : ReadWriterAt} (k : IsDisk d) (size : ℕ) (h : 0 < size) where
  number : (b j : ℕ) → j < size → (b * size + j) / size ≡ b
  number b j lt = block_of size h b (b * size + j) (omega arith) (omega arith)

  rest : (b j : ℕ) → j < size → (b * size + j) % size ≡ j
  rest b j lt =
      omega (arith, block_rest size h (b * size + j), ap (λ (n : ℕ). n * size) (number b j lt))

  pub load_block-Loaded :
      (st : TxState d) (b : ℕ) → IsDirty size st.dirty → Loaded k size st b (load_block size d st b)
  unfolding load_block
  load_block-Loaded st b good =
      option_both (Loaded k size st b) (lookup b st.dirty)
        (λ e. record {
          kept = t.kept;
          whole = length-filled size r.bytes;
          same = λ ok j lt.
              filled_true _ _ (b * size) size r j t (not_failed r.err ok) lt
              ∙ sym (
                  seen_absent size st.dirty (k.content st.inner) (b * size + j)
                    (ap (λ (n : ℕ). lookup n st.dirty) (number b j lt) ∙ e));
        })
        λ bd e. record {
          kept = λ i. refl;
          whole = lookup-IsDirty size b bd st.dirty good e;
          same = λ _ j lt.
              index_eq bd _ _ (sym (rest b j lt))
              ∙ sym (
                  seen_present size st.dirty (k.content st.inner) (b * size + j)
                    (ap (λ (n : ℕ). lookup n st.dirty) (number b j lt) ∙ e));
        }
    where
      r : Reply
      r = (d.read_at st.inner (b * size) size).1

      t :
          ReadsTrue
            (k.content st.inner)
            (k.content (d.read_at st.inner (b * size) size).0)
            (b * size)
            size
            r
      t = k.reads st.inner (b * size) size
