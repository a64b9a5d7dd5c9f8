-- ===== src/Vfs/Journal/Recovers.antt =====
-- The replay of a descriptor that a commit has written.
use werunos.Base.{
  ℕ, suc, ◌+◌, ◌*◌, ◌/◌, ◌≤◌, ◌<◌, ◌≡◌, ◌≢◌, ◌⊎◌, refl, sym, ap, ◌∙◌, true, false, not, Option,
  none, some, List, ◌∷◌, length, le, ltb, ◌==◌, if_both, option_both, arith, Bool-cases, inl, inr,
  ltb→lt, ltb-false→le, ==→eq,
}
use werunos.Block.Device.{ReadWriterAt, IsDisk}
use werunos.Vfs.Extents.{Extent}
use werunos.Vfs.Tx.Map.{Dirty, IsDirty}
use werunos.Vfs.Journal.{
  jbd2_block, Replayed, done, panicked, stuck, failed, ReplayError, wrong_type, Replaying, advance,
  read_journal_block, apply_tag, tag_loop, tag_rounds,
}
use werunos.Vfs.Journal.Commit.{tag_flags, descriptor_block}
use werunos.Vfs.Journal.Commit.Bounds.{descriptor_block-eq-none, length-descriptor_block}
use werunos.Vfs.Journal.Logged.{HaveNumbers, descriptor_block-HasTags, le-data_copy}
use werunos.Vfs.Journal.Reapply.{
  IsFault, AreReady, HasCopy, HasCopies, ReadsCopy, read_journal_block-HasCopy, Reapplied,
  tag_loop-Reapplied, tag_loop-step, after_tag,
}

-- The number of tags is within the rounds.
within_rounds :
    (size sequence : ℕ) (dirty : Dirty) (out : List ℕ)
    → 12 ≤ size
    → descriptor_block size sequence dirty ≡ some out
    → length dirty ≤ suc (size / 8)
within_rounds size sequence dirty out le e = elim (Bool-cases (ltb size (12 + 8 * length dirty))) [
  | inl t ↦
      let z : descriptor_block size sequence dirty ≡ none =
        (descriptor_block-eq-none size sequence dirty le).1
          (ltb→lt size (12 + 8 * length dirty) t) in
      absurd (let q : none ≡ some out = sym z ∙ e in cc)
  | inr f ↦ omega (arith, ltb-false→le size (12 + 8 * length dirty) f)
]

module _ {d : ReadWriterAt} (k : IsDisk d) (size : ℕ) (wide : 12 ≤ size) (extents : List Extent)
    (start maxlen : ℕ) where
  -- Blocks are of 12 bytes or more. A commit of one dirty block or more, of full size, each kept once, whose numbers are below 2^32 and whose
  -- tags fit the descriptor. Where the journal has the copies of the blocks at the positions that follow,
  -- none of which is the position where the replay has begun (there the code stops at an unexpected wrap),
  -- and each block can be put back (it is of bytes, its second word is the type of a block of data, its
  -- number is not 0, and its place begins below 2^64 and is not in the journal), the replay of the descriptor
  -- puts every block back, escaped ones as they were, and counts each, or it stops at a fault of the device;
  -- it does not panic and is not cut off.
  pub tag_loop-descriptor_block :
      (sequence : ℕ) (dirty : Dirty) (out : List ℕ) (r : Replaying d)
      → descriptor_block size sequence dirty ≡ some out
      → 0 < length dirty
      → HaveNumbers dirty
      → IsDirty size dirty
      → AreReady size extents dirty
      → HasCopies size extents start maxlen (k.content r.dev) r.pos dirty
      → Reapplied k size
          (omega arith)
          extents
          start
          maxlen
          dirty
          r
          (tag_loop d size extents start maxlen (tag_rounds size) out 12 r)
  tag_loop-descriptor_block sequence dirty out r e some_block numbers good ready copies =
      tag_loop-Reapplied k size (omega arith) extents start maxlen out 12 dirty (tag_rounds size) r
        (length-descriptor_block size sequence dirty out e)
        (descriptor_block-HasTags size sequence dirty out e numbers) good ready copies some_block
        (within_rounds size sequence dirty out wide e)

  -- A replay that fails without a change of the disk or of the count.
  abbrev pub Refused : Replaying d → Replaying d × Replayed → Type 0
  Refused r (r', failed e) =
      (IsFault e ⊎ (e ≡ wrong_type))
      × ((i : ℕ) → k.content r'.dev i ≡ k.content r.dev i)
      × (r'.blocks_applied ≡ r.blocks_applied)
  Refused r (r', done) = ⊥
  Refused r (r', panicked) = ⊥
  Refused r (r', stuck) = ⊥

  apply_tag-Refused :
      (n flags : ℕ) (bytes : List ℕ) (r : Replaying d)
      → length bytes ≡ size
      → le 4 bytes 4 ≢ jbd2_block
      → HasCopy size extents start (k.content r.dev) (advance maxlen r.pos) bytes
      → Refused r (apply_tag d size extents start maxlen (record { blocknr = n; flags = flags }) r)
  unfolding apply_tag
  apply_tag-Refused n flags bytes r full untyped copy =
      if_both P (pos == start) (λ t. absurd (copy.apart (==→eq pos start t)))
        λ _.
          option_both P got.1
            (λ ok.
              if_both P (not (le 4 got.2 4 == jbd2_block)) (λ _. (inr refl, facts.0, refl))
                λ good.
                  absurd
                    (untyped (sym (same_type ok) ∙ ==→eq (le 4 got.2 4) jbd2_block (typed good))))
            λ e q. (inl (facts.2 e q), facts.0, refl)
    where
      P : Replaying d × Replayed → Type 0
      P x = Refused r x

      pos : ℕ
      pos = advance maxlen r.pos

      got : d.State × Option ReplayError × List ℕ
      got = read_journal_block d size extents r.dev pos

      facts : ReadsCopy k size (omega arith) extents start maxlen r.dev bytes got
      facts =
          read_journal_block-HasCopy k size (omega arith) extents start maxlen r.dev pos bytes copy

      same_type : got.1 ≡ none → le 4 got.2 4 ≡ le 4 bytes 4
      same_type ok = ap (λ (xs : List ℕ). le 4 xs 4) (facts.1 ok) ∙ le-data_copy size bytes full

      typed : not (le 4 got.2 4 == jbd2_block) ≡ false → (le 4 got.2 4 == jbd2_block) ≡ true
      typed h = elim (Bool-cases (le 4 got.2 4 == jbd2_block)) [
        | inl t ↦ t
        | inr f ↦ let z : not false ≡ false = rw f at h in cc
      ]

  -- Blocks are of 12 bytes or more, and a commit logs them as they are, without a header. Where the first dirty block is of full size and
  -- has a number other than 0, the numbers are below 2^32 and the tags fit the descriptor, the journal has
  -- the copy of the first block at the next position, which is not the one where the replay has begun, and
  -- the second word of that block is not the type of a block of data: the replay of the descriptor is refused
  -- (or stops at a fault of the device), and nothing of the commit is put back.
  pub tag_loop-Refused :
      (sequence n : ℕ) (bytes : List ℕ) (rest : Dirty) (out : List ℕ) (r : Replaying d)
      → descriptor_block size sequence ((n, bytes) ∷ rest) ≡ some out
      → HaveNumbers ((n, bytes) ∷ rest)
      → 0 < n
      → length bytes ≡ size
      → le 4 bytes 4 ≢ jbd2_block
      → HasCopy size extents start (k.content r.dev) (advance maxlen r.pos) bytes
      → Refused r (tag_loop d size extents start maxlen (tag_rounds size) out 12 r)
  tag_loop-Refused sequence n bytes rest out r e numbers some_number full untyped copy =
      rw
        (tag_loop-step k size (omega arith) extents start maxlen (size / 8) out 12 n bytes rest r
          (length rest == 0) refl (length-descriptor_block size sequence ((n, bytes) ∷ rest) out e)
          some_number (descriptor_block-HasTags size sequence ((n, bytes) ∷ rest) out e numbers))
        (refused
          (apply_tag d size extents start maxlen
            (record { blocknr = n; flags = tag_flags bytes rest }) r)
          (apply_tag-Refused n (tag_flags bytes rest) bytes r full untyped copy))
    where
      refused :
          (x : Replaying d × Replayed)
          → Refused r x
          → Refused r (
              after_tag k size
                (omega arith)
                extents
                start
                maxlen
                x
                (length rest == 0)
                (tag_loop d size extents start maxlen (size / 8) out 20 x.0))
      refused (r', failed e) h = h
      refused (r', done) h = absurd h
      refused (r', panicked) h = h
      refused (r', stuck) h = h
