-- ===== src/Vfs/Journal/Reapply.antt =====
-- The replay of what a commit has logged.
use werunos.Base.{
  ℕ, zero, suc, ◌+◌, ◌-◌, ◌*◌, ◌%◌, ◌^◌, ◌≤◌, ◌<◌, ◌≡◌, ◌≢◌, ◌⊎◌, refl, sym, ap, ap₂, subst, ◌∙◌,
  Bool, true, false, not, Option, none, some, List, [], ◌∷◌, length, length-filled, byte_at,
  byte_at-filled, same_lists, IsBytes, zeros, copy_at, le, ltb, ◌==◌, if◌then◌else◌, if_both,
  option_both, patch, patch_outside, patch_cong, range_split, arith, inl, inr, eq→==, ne→==, ==→eq,
}
use werunos.Block.Device.{Reply, ReadWriterAt, IsDisk}
use werunos.Vfs.Extents.{Extent, find_physical_block}
use werunos.Vfs.Tx.Map.{Dirty, IsDirty, lookup}
use werunos.Vfs.Tx.View.{seen, seen_base, seen_absent}
use werunos.Vfs.Tx.Commit.{seen-patch}
use werunos.Vfs.Journal.{
  is_last, is_escaped, has_crc, jbd2_block, Replayed, done, panicked, stuck, failed, ReplayError,
  block_unread, write_failed, Replaying, advance, xor_front, esc_bytes, read_journal_block,
  apply_tag, tag_loop,
}
use werunos.Vfs.Journal.Commit.{data_copy, tag_flags, advance_by}
use werunos.Vfs.Journal.Commit.Bounds.{length-data_copy}
use werunos.Vfs.Journal.Commit.Kept.{OutsideJournal}
use werunos.Vfs.Journal.Logged.{HasTags, tag_flags_read, unescaped-data_copy, le-data_copy}

-- The errors that a device causes.
abbrev pub IsFault : ReplayError → Type 0
IsFault e = (e ≡ block_unread) ⊎ (e ≡ write_failed)

-- A dirty block that the replay can put back: its second word is the type of a block of data, and its place is not in the
-- journal.
pub record IsReady (size : ℕ) (extents : List Extent) (n : ℕ) (bytes : List ℕ) : Type 0 where
  pub some_number : 0 < n
  pub in_range : n * size < 2 ^ 64
  pub are_bytes : IsBytes bytes
  pub typed : le 4 bytes 4 ≡ jbd2_block
  pub outside : (j : ℕ) → j < size → OutsideJournal size extents (n * size + j)

abbrev pub AreReady : ℕ → List Extent → Dirty → Type 0
AreReady size extents [] = Unit
AreReady size extents ((n, bytes) ∷ rest) =
    IsReady size extents n bytes × AreReady size extents rest

-- The journal has the copy of a block at a position, which is not the one where the replay began.
pub record HasCopy (size : ℕ) (extents : List Extent) (start : ℕ) (f : ℕ → ℕ) (pos : ℕ)
    (bytes : List ℕ) : Type 0 where
  pub phys : ℕ
  pub found : find_physical_block extents pos ≡ some phys
  pub apart : pos ≢ start
  pub there : (j : ℕ) → j < size → f (phys * size % 2 ^ 64 + j) ≡ byte_at (data_copy size bytes) j

-- The journal has the copies of the dirty blocks, one behind the other, from behind `pos` on.
abbrev pub HasCopies : ℕ → List Extent → ℕ → ℕ → (ℕ → ℕ) → ℕ → Dirty → Type 0
HasCopies size extents start maxlen f pos [] = Unit
HasCopies size extents start maxlen f pos ((n, bytes) ∷ rest) =
    HasCopy size extents start f (advance maxlen pos) bytes
    × HasCopies size extents start maxlen f (advance maxlen pos) rest

module _ {d : ReadWriterAt} (k : IsDisk d) (size : ℕ) (pos_size : 0 < size) (extents : List Extent)
    (start maxlen : ℕ) where
  -- A read of the journal that gives the copy of a block, or fails by a fault of the device.
  abbrev pub ReadsCopy : d.State → List ℕ → d.State × Option ReplayError × List ℕ → Type 0
  ReadsCopy s bytes x =
      ((i : ℕ) → k.content x.0 i ≡ k.content s i)
      × (x.1 ≡ none → x.2 ≡ data_copy size bytes)
      × ((e : ReplayError) → x.1 ≡ some e → IsFault e)

  pub read_journal_block-HasCopy :
      (s : d.State) (pos : ℕ) (bytes : List ℕ)
      → HasCopy size extents start (k.content s) pos bytes
      → ReadsCopy s bytes (read_journal_block d size extents s pos)
  unfolding read_journal_block
  read_journal_block-HasCopy s pos bytes c =
      rw (c.found, read_journal_block)
        (option_both (ReadsCopy s bytes) reply.err (λ ok. (kept, λ _. same ok, λ e q. cc))
          λ x _. (kept, λ q. cc, λ e q. inl (cc)))
    where
      reply : Reply
      reply = (d.read_at s (c.phys * size % 2 ^ 64) size).1

      kept : (i : ℕ) → k.content (d.read_at s (c.phys * size % 2 ^ 64) size).0 i ≡ k.content s i
      kept i = (k.reads s (c.phys * size % 2 ^ 64) size).kept i

      same : reply.err ≡ none → copy_at (zeros size) 0 reply.bytes ≡ data_copy size bytes
      same ok =
          same_lists (copy_at (zeros size) 0 reply.bytes) (data_copy size bytes)
            (length-filled size reply.bytes ∙ sym (length-data_copy size bytes))
            λ i lt.
              byte_at-filled size reply.bytes i (omega (arith, length-data_copy size bytes))
              ∙ (k.reads s (c.phys * size % 2 ^ 64) size).same i (
                  omega (
                    arith,
                    length-data_copy size bytes,
                    (k.reads s (c.phys * size % 2 ^ 64) size).full ok,
                  ))
              ∙ c.there i (omega (arith, length-data_copy size bytes))

  -- How the replay of one tag ends.
  abbrev AppliedOne : ℕ → List ℕ → Replaying d → Replaying d × Replayed → Type 0
  AppliedOne n bytes r (r', done) =
      ((i : ℕ) → k.content r'.dev i ≡ patch (k.content r.dev) (n * size) bytes i)
      × (r'.pos ≡ advance maxlen r.pos)
      × (r'.blocks_applied ≡ (r.blocks_applied + 1) % 2 ^ 32)
  AppliedOne n bytes r (r', failed e) = IsFault e
  AppliedOne n bytes r (r', panicked) = ⊥
  AppliedOne n bytes r (r', stuck) = ⊥

  apply_tag-AppliedOne :
      (n : ℕ) (bytes : List ℕ) (rest : Dirty) (r : Replaying d)
      → length bytes ≡ size
      → IsReady size extents n bytes
      → HasCopy size extents start (k.content r.dev) (advance maxlen r.pos) bytes
      → AppliedOne n bytes r (
          apply_tag d size extents start maxlen
            (record { blocknr = n; flags = tag_flags bytes rest })
            r)
  unfolding apply_tag
  apply_tag-AppliedOne n bytes rest r full ready copy =
      if_both P (pos == start) (λ t. absurd (copy.apart (==→eq pos start t)))
        λ _.
          option_both P got.1
            (λ ok.
              if_both P (not (le 4 got.2 4 == jbd2_block))
                (λ bad.
                  let t : (le 4 got.2 4 == jbd2_block) ≡ true =
                    eq→== (le 4 got.2 4) jbd2_block (typed ok) in
                  let z : not true ≡ true = rw t at bad in cc)
                λ _.
                  option_both P (d.write_at got.0 at out).1.err (λ w. (new ok w, refl, refl))
                    λ x _. inr refl)
            λ e q. facts.2 e q
    where
      P : Replaying d × Replayed → Type 0
      P x = AppliedOne n bytes r x

      pos : ℕ
      pos = advance maxlen r.pos

      at : ℕ
      at = n * size % 2 ^ 64

      got : d.State × Option ReplayError × List ℕ
      got = read_journal_block d size extents r.dev pos

      out : List ℕ
      out = if is_escaped (tag_flags bytes rest) then xor_front esc_bytes got.2 else got.2

      facts : ReadsCopy r.dev bytes got
      facts = read_journal_block-HasCopy r.dev pos bytes copy

      typed : got.1 ≡ none → le 4 got.2 4 ≡ jbd2_block
      typed ok =
          ap (λ (xs : List ℕ). le 4 xs 4) (facts.1 ok) ∙ le-data_copy size bytes full ∙ ready.typed

      back : got.1 ≡ none → out ≡ bytes
      back ok =
          ap₂ (λ (b : Bool) (xs : List ℕ). if b then xor_front esc_bytes xs else xs)
            (tag_flags_read bytes rest).1 (facts.1 ok)
          ∙ unescaped-data_copy size bytes full ready.are_bytes

      new :
          got.1 ≡ none
          → (d.write_at got.0 at out).1.err ≡ none
          → (i : ℕ)
          → k.content (d.write_at got.0 at out).0 i ≡ patch (k.content r.dev) (n * size) bytes i
      new ok w i =
          (k.writes got.0 at out).done w i
          ∙ patch_cong (k.content got.0) (k.content r.dev) at out i (facts.0 i)
          ∙ ap₂ (λ (a : ℕ) (xs : List ℕ). patch (k.content r.dev) a xs i)
              (let e : n * size % 2 ^ 64 ≡ n * size = omega (arith, ready.in_range) in e) (back ok)

  -- The copies are still there when a block has been put back.
  HasCopies-patch :
      (n : ℕ) (bytes : List ℕ) (f f' : ℕ → ℕ)
      → length bytes ≡ size
      → IsReady size extents n bytes
      → ((i : ℕ) → f' i ≡ patch f (n * size) bytes i)
      → (pos : ℕ) (dirty : Dirty) → HasCopies size extents start maxlen f pos dirty
      → HasCopies size extents start maxlen f' pos dirty
  HasCopies-patch n bytes f f' full ready same pos [] c = tt
  HasCopies-patch n bytes f f' full ready same pos ((m, other) ∷ rest) (c, cs) = (
    record {
      phys = c.phys;
      found = c.found;
      apart = c.apart;
      there = λ j lt.
          same (c.phys * size % 2 ^ 64 + j)
          ∙ patch_outside f (n * size) bytes (c.phys * size % 2 ^ 64 + j) (
              out (c.phys * size % 2 ^ 64) j lt
                (λ i l. ready.outside i l (advance maxlen pos) c.phys c.found))
          ∙ c.there j lt;
    },
    HasCopies-patch n bytes f f' full ready same (advance maxlen pos) rest cs,
  )
    where
      out :
          (at j : ℕ)
          → j < size
          → ((i : ℕ) → i < size → (n * size + i < at) ⊎ (at + size ≤ n * size + i))
          → (at + j < n * size) ⊎ (n * size + length bytes ≤ at + j)
      out at j lt far = elim (range_split (n * size) (length bytes) (at + j)) [
        | inr o ↦ o
        | inl (lo, hi) ↦ absurd (omega (arith, full, far (at + j - n * size) (omega (arith, full))))
      ]

  -- How the replay of the tags of the dirty blocks ends: all of them are put back, or the device has a fault.
  abbrev pub Reapplied : Dirty → Replaying d → Replaying d × Replayed → Type 0
  Reapplied dirty r (r', done) =
      ((i : ℕ) → k.content r'.dev i ≡ seen size dirty (k.content r.dev) i)
      × (r'.pos ≡ advance_by maxlen (length dirty) r.pos)
      × (r'.blocks_applied ≡ (r.blocks_applied + length dirty) % 2 ^ 32)
  Reapplied dirty r (r', failed e) = IsFault e
  Reapplied dirty r (r', panicked) = ⊥
  Reapplied dirty r (r', stuck) = ⊥

  Reapplied-last :
      (n : ℕ) (bytes : List ℕ) (r : Replaying d)
      → IsDirty size ((n, bytes) ∷ [])
      → (x : Replaying d × Replayed) → AppliedOne n bytes r x
      → Reapplied ((n, bytes) ∷ []) r x
  Reapplied-last n bytes r good (r', done) (new, at, count) = (
    λ i.
        new i
        ∙ sym (
            seen_absent size [] (patch (k.content r.dev) (n * size) bytes) i
              (unfold lookup in refl))
        ∙ seen-patch size pos_size n bytes [] (k.content r.dev) i good,
    at,
    count,
  )
  Reapplied-last n bytes r good (r', failed e) fault = fault
  Reapplied-last n bytes r good (r', panicked) bad = bad
  Reapplied-last n bytes r good (r', stuck) bad = bad

  Reapplied-next :
      (n : ℕ) (bytes : List ℕ) (rest : Dirty) (r r' : Replaying d)
      → IsDirty size ((n, bytes) ∷ rest)
      → AppliedOne n bytes r (r', done)
      → (x : Replaying d × Replayed) → Reapplied rest r' x
      → Reapplied ((n, bytes) ∷ rest) r x
  Reapplied-next n bytes rest r r' good (new, at, count) (r2, done) (new2, at2, count2) = (
    λ i.
        new2 i
        ∙ seen_base size rest _ _ i (new i)
        ∙ seen-patch size pos_size n bytes rest (k.content r.dev) i good,
    at2 ∙ ap (advance_by maxlen (length rest)) at,
    omega (arith, count, count2),
  )
  Reapplied-next n bytes rest r r' good one (r2, failed e) fault = fault
  Reapplied-next n bytes rest r r' good one (r2, panicked) bad = bad
  Reapplied-next n bytes rest r r' good one (r2, stuck) bad = bad

  -- What the loop does with the result of a tag.
  abbrev pub after_tag :
      Replaying d × Replayed → Bool → Replaying d × Replayed → Replaying d × Replayed
  after_tag (r', x) last rest = elim x [
    | done ↦ if last then (r', done) else rest
    | panicked ↦ (r', panicked)
    | stuck ↦ (r', stuck)
    | failed e ↦ (r', failed e)
  ]

  abbrev pub loop_at : ℕ → List ℕ → ℕ → Replaying d → Replaying d × Replayed
  loop_at fuel buf off r = tag_loop d size extents start maxlen fuel buf off r

  abbrev pub round_at : ℕ → List ℕ → Replaying d → ℕ → ℕ → Bool → ℕ → Replaying d × Replayed
  round_at fuel buf r blocknr flags last off =
      let next =
        apply_tag d size extents start maxlen (record { blocknr = blocknr; flags = flags }) r in
      after_tag next last (loop_at fuel buf off next.0)

  abbrev pub behind_tag : ℕ → ℕ → ℕ
  behind_tag off flags = off + 8 + (if has_crc flags then 4 else 0)

  -- The round of the loop at a tag of a dirty block.
  pub tag_loop-step :
      (fuel : ℕ) (buf : List ℕ) (off n : ℕ) (bytes : List ℕ) (rest : Dirty) (r : Replaying d)
      (last : Bool)
      → (length rest == 0) ≡ last
      → length buf ≡ size
      → 0 < n
      → HasTags buf off ((n, bytes) ∷ rest)
      → loop_at (suc fuel) buf off r ≡ round_at fuel buf r n (tag_flags bytes rest) last (off + 8)
  unfolding tag_loop HasTags
  tag_loop-step fuel buf off n bytes rest r last is full some_number (room, number, flags, tags) =
      let inside : ltb size (off + 8) ≡ false = ground (arith, room, full) in
      let numbered : (le 4 buf off == 0) ≡ false =
        ne→== (le 4 buf off) 0 (λ z. absurd (omega (arith, number))) in
      let read = tag_flags_read bytes rest in
      let fl = tag_flags bytes rest in
      let at : behind_tag off fl ≡ off + 8 =
        ap (λ (c : Bool). off + 8 + (if c then 4 else 0)) read.2 ∙ omega arith in
      rw (inside, numbered)
        (ap
            (λ (a : ℕ).
              round_at fuel buf r a (le 4 buf (off + 4)) (is_last (le 4 buf (off + 4)))
                (behind_tag off (le 4 buf (off + 4))))
            number
          ∙ ap (λ (f : ℕ). round_at fuel buf r n f (is_last f) (behind_tag off f)) flags
          ∙ ap₂ (λ (b : Bool) (o : ℕ). round_at fuel buf r n fl b o) (read.0 ∙ is) at)

  Reapplied-more :
      (n : ℕ) (bytes : List ℕ) (rest : Dirty) (r : Replaying d)
      (loop : Replaying d → Replaying d × Replayed)
      → IsDirty size ((n, bytes) ∷ rest)
      → ((r' : Replaying d) → AppliedOne n bytes r (r', done) → Reapplied rest r' (loop r'))
      → (x : Replaying d × Replayed) → AppliedOne n bytes r x
      → Reapplied ((n, bytes) ∷ rest) r (after_tag x false (loop x.0))
  Reapplied-more n bytes rest r loop good ih (r', done) one =
      Reapplied-next n bytes rest r r' good one (loop r') (ih r' one)
  Reapplied-more n bytes rest r loop good ih (r', failed e) one = one
  Reapplied-more n bytes rest r loop good ih (r', panicked) one = one
  Reapplied-more n bytes rest r loop good ih (r', stuck) one = one

  pub tag_loop-Reapplied :
      (buf : List ℕ) (off : ℕ) (dirty : Dirty) (fuel : ℕ) (r : Replaying d)
      → length buf ≡ size
      → HasTags buf off dirty
      → IsDirty size dirty
      → AreReady size extents dirty
      → HasCopies size extents start maxlen (k.content r.dev) r.pos dirty
      → 0 < length dirty
      → length dirty ≤ fuel
      → Reapplied dirty r (tag_loop d size extents start maxlen fuel buf off r)
  unfolding HasTags
  tag_loop-Reapplied buf off [] fuel r full tags good ready copies some_block enough =
      absurd (omega arith)
  tag_loop-Reapplied buf off (b ∷ rest) zero r full tags good ready copies some_block enough =
      absurd (omega arith)
  tag_loop-Reapplied buf off ((n, bytes) ∷ []) (suc fuel) r full tags good (ready, _) (copy, _)
        some_block enough =
      let next =
        apply_tag d size extents start maxlen (record { blocknr = n; flags = tag_flags bytes [] })
          r in
      rw (tag_loop-step fuel buf off n bytes [] r true refl full ready.some_number tags)
        (last next (apply_tag-AppliedOne n bytes [] r good.1 ready copy))
    where
      last :
          (x : Replaying d × Replayed)
          → AppliedOne n bytes r x
          → Reapplied ((n, bytes) ∷ []) r (after_tag x true (loop_at fuel buf (off + 8) x.0))
      last (r', done) one = Reapplied-last n bytes r good (r', done) one
      last (r', failed e) one = one
      last (r', panicked) one = one
      last (r', stuck) one = one
  tag_loop-Reapplied buf off ((n, bytes) ∷ (b ∷ rest)) (suc fuel) r full tags good (ready, readies)
        (copy, copies) some_block enough =
      let ih : (r' : Replaying d)
          → AppliedOne n bytes r (r', done)
          → Reapplied (b ∷ rest) r' (loop_at fuel buf (off + 8) r') =
        λ r' one.
          tag_loop-Reapplied buf (off + 8) (b ∷ rest) fuel r' full tags.3 good.2 readies
            (HasCopies-patch n bytes (k.content r.dev) (k.content r'.dev) good.1 ready one.0 r'.pos
              (b ∷ rest)
              (subst (λ (p : ℕ). HasCopies size extents start maxlen (k.content r.dev) p (b ∷ rest))
                (sym one.1) copies))
            (omega arith) (omega arith) in
      rw
        (tag_loop-step fuel buf off n bytes (b ∷ rest) r false
          (ne→== (length (b ∷ rest)) 0 (λ z. absurd (omega arith))) full ready.some_number tags)
        (Reapplied-more n bytes (b ∷ rest) r (loop_at fuel buf (off + 8)) good ih
          (apply_tag d size extents start maxlen
            (record { blocknr = n; flags = tag_flags bytes (b ∷ rest) }) r)
          (apply_tag-AppliedOne n bytes (b ∷ rest) r good.1 ready copy))
