-- ===== src/Vfs/Journal/Commit/Effect.antt =====
-- What a commit leaves on the disk.
use werunos.Base.{
  ℕ, ◌+◌, ◌*◌, ◌/◌, ◌%◌, ◌^◌, ◌<◌, ◌≡◌, ◌⊎◌, refl, sym, subst, ◌∙◌, true, false, ◌||◌, Option, none,
  some, List, [], ◌∷◌, length, zeros, copy_at, length-filled, ltb, ◌==◌, if◌then◌else◌, if_both,
  option_both, arith, inl, inr, eq→==, ne→==, ◌≤◌,
}
use werunos.Base.Blocks.{block_split}
use werunos.Block.Device.{IoError, ReadWriterAt, IsDisk}
use werunos.Vfs.Alloc.{FileSystem}
use werunos.Vfs.Extents.{Extent, find_physical_block}
use werunos.Vfs.Tx.{write_dirty}
use werunos.Vfs.Tx.Map.{Dirty, lookup, IsDirty}
use werunos.Vfs.Tx.View.{seen, seen_base, seen_absent}
use werunos.Vfs.Tx.Commit.{write_dirty-seen}
use werunos.Vfs.Journal.{
  Replayed, done, panicked, stuck, failed, get_journal_super, JournalSuper, advance,
}
use werunos.Vfs.Journal.Recover.{sb_journal_inum, journal_extents, is_journal_magic}
use werunos.Vfs.Journal.Commit.{
  Committed, committed, commit_panicked, super_update_failed, ◌>>◌, put_or, write_journal_block,
  write_data, data_copies, write_back, write_log, commit_by, commit_stuck, unread_journal,
  commit_dirty, advance_by, descriptor_block, commit_block, next_super, no_super, super_failed,
  writeback_failed,
}
use werunos.Vfs.Journal.Commit.Bounds.{
  length-descriptor_block, length-commit_block, length-next_super,
}
use werunos.Vfs.Journal.Commit.Kept.{
  OutsideJournal, Kept, put_or-Kept, >>-Kept, journal_extents-Kept, write_journal_block-Kept,
  write_data-Kept,
}

module _ {d : ReadWriterAt} (k : IsDisk d) (size : ℕ) (pos_size : 0 < size) (i : ℕ) where
  -- A byte in no dirty block is kept by the writing of the dirty blocks.
  write_dirty-Kept :
      (m : Dirty) (s : d.State)
      → IsDirty size m
      → lookup (i / size) m ≡ none
      → Kept k i s (write_dirty size d m s).0
  unfolding write_dirty lookup
  write_dirty-Kept [] s good absent = refl
  write_dirty-Kept ((b, bd) ∷ m) s good absent = elim (block_split size pos_size b i) [
    | inl (e, lo, hi) ↦ absurd (
        let t : (b == i / size) ≡ true = eq→== b (i / size) e in
        let z : some bd ≡ none = rw t at absent in cc)
    | inr (ne, out) ↦
        let f : (b == i / size) ≡ false = ne→== b (i / size) ne in
        let here : Kept k i s (d.write_at s (b * size) bd).0 =
          put_or-Kept k i committed s (b * size) bd
            (subst (λ (n : ℕ). (i < b * size) ⊎ (b * size + n ≤ i)) (sym good.1) out) in
        option_both {B = d.State × Option IoError} (λ x. Kept k i s x.0)
          (d.write_at s (b * size) bd).1.err
          (λ _. write_dirty-Kept m (d.write_at s (b * size) bd).0 good.2 (rw f at absent) ∙ here)
          λ _ _. here
  ]

  -- How a step from `s` on ends: committed, and the byte is that of the dirty blocks over what was there; or not, and it
  -- is kept where no dirty block has it.
  pub record Ends (dirty : Dirty) (s : d.State) (x : d.State × Committed) : Type 0 where
    pub all : x.1 ≡ committed → k.content x.0 i ≡ seen size dirty (k.content s) i
    pub torn : lookup (i / size) dirty ≡ none → Kept k i s x.0

  Ends-Kept :
      (dirty : Dirty) (s s' : d.State) (x : d.State × Committed)
      → Kept k i s s'
      → Ends dirty s' x
      → Ends dirty s x
  Ends-Kept dirty s s' x same e = record {
    all = λ c. e.all c ∙ seen_base size dirty (k.content s') (k.content s) i same;
    torn = λ absent. e.torn absent ∙ same;
  }

  -- A step that fails and keeps the byte.
  Ends-failed :
      (dirty : Dirty) (s : d.State) (x : d.State × Committed)
      → (x.1 ≡ committed → ⊥)
      → Kept k i s x.0
      → Ends dirty s x
  Ends-failed dirty s x bad same = record { all = λ c. absurd (bad c); torn = λ _. same }

  >>-Ends :
      (dirty : Dirty) (s : d.State) (m : d.State × Committed) (f : d.State → d.State × Committed)
      → Kept k i s m.0
      → ((s' : d.State) → Ends dirty s' (f s'))
      → Ends dirty s (m >> f)
  >>-Ends dirty s (s', committed) f same g = Ends-Kept dirty s s' (f s') same (g s')
  >>-Ends dirty s (s', e) f same g = Ends-failed dirty s (s', e) (λ c. cc) same

  write_back-Ends :
      (dirty : Dirty) (s : d.State) → IsDirty size dirty → Ends dirty s (write_back size d dirty s)
  write_back-Ends dirty s good = record {
    all = λ c.
        write_dirty-seen size pos_size k dirty s i good (none_of (write_dirty size d dirty s).1 c);
    torn = λ absent. write_dirty-Kept dirty s good absent;
  }
    where
      none_of :
          (e : Option IoError)
          → elim e [ none ↦ committed | some _ ↦ writeback_failed ] ≡ committed
          → e ≡ none
      none_of none c = refl
      none_of (some x) c = cc

  module _ (extents : List Extent) (out : OutsideJournal size extents i) where
    write_log-Ends :
        (phys : ℕ) (jsb_bytes : List ℕ) (now : ℕ) (dirty : Dirty) (s : d.State)
        → find_physical_block extents 0 ≡ some phys
        → length jsb_bytes ≡ size
        → IsDirty size dirty
        → Ends dirty s (write_log size d extents (phys * size % 2 ^ 64) jsb_bytes now dirty s)
    unfolding write_log
    write_log-Ends phys jsb_bytes now dirty s found same good =
        option_both {B = d.State × Committed} (Ends dirty s)
          (descriptor_block size jsb.sequence dirty)
          (λ _. Ends-failed dirty s (s, commit_panicked) (λ c. cc) refl)
          λ desc e.
            >>-Ends dirty s (first desc >> fill >> finish >> update) (write_back size d dirty)
              (>>-Kept k i s (first desc >> fill >> finish) update
                (>>-Kept k i s (first desc >> fill) finish
                  (>>-Kept k i s (first desc) fill
                    (write_journal_block-Kept k i size extents out s pos desc
                      (length-descriptor_block size jsb.sequence dirty desc e))
                    λ s'. write_data-Kept k i size extents out jsb.maxlen dirty pos s')
                  λ s'.
                    write_journal_block-Kept k i size extents out s' end
                      (commit_block size jsb.sequence now)
                      (length-commit_block size jsb.sequence now))
                λ s'. put_or-Kept k i super_update_failed s' (phys * size % 2 ^ 64) super (
                  subst (λ (n : ℕ). (i < phys * size % 2 ^ 64) ⊎ (phys * size % 2 ^ 64 + n ≤ i))
                    (sym (length-next_super jsb.sequence (advance jsb.maxlen end) jsb_bytes ∙ same))
                    (out 0 phys found)))
              λ s'. write_back-Ends dirty s' good
      where
        jsb : JournalSuper
        jsb = get_journal_super jsb_bytes

        pos : ℕ
        pos = if (jsb.start == 0) || ltb jsb.maxlen jsb.start then 1 else jsb.start

        end : ℕ
        end = advance jsb.maxlen (advance_by jsb.maxlen (length dirty) pos)

        super : List ℕ
        super = next_super jsb.sequence (advance jsb.maxlen end) jsb_bytes

        first : List ℕ → d.State × Committed
        first desc = write_journal_block size d extents s pos desc

        fill : d.State → d.State × Committed
        fill = write_data size d extents jsb.maxlen (data_copies size dirty) pos

        finish : d.State → d.State × Committed
        finish s3 = write_journal_block size d extents s3 end (commit_block size jsb.sequence now)

        update : d.State → d.State × Committed
        update s4 = put_or d super_update_failed s4 (phys * size % 2 ^ 64) super

    commit_by-Ends :
        (now : ℕ) (fs : FileSystem d) (dirty : Dirty)
        → IsDirty size dirty
        → Ends dirty fs.dev (
          (commit_by size d extents now fs dirty).0.dev,
          (commit_by size d extents now fs dirty).1,
        )
    unfolding commit_by
    commit_by-Ends now fs dirty good =
        option_both P (find_physical_block extents 0)
          (λ _. Ends-failed dirty fs.dev (fs.dev, no_super) (λ c. cc) refl)
          λ phys found.
            let at = phys * size % 2 ^ 64 in
            let s = (d.read_at fs.dev at size).0 in
            let reply = (d.read_at fs.dev at size).1 in
            let same : Kept k i fs.dev s = (k.reads fs.dev at size).kept i in
            option_both P reply.err
              (λ _.
                if_both P
                  (is_journal_magic d
                    (get_journal_super (copy_at (zeros size) 0 reply.bytes)).header.magic)
                  (λ _. Ends-Kept dirty fs.dev s _ same (
                    write_log-Ends phys (copy_at (zeros size) 0 reply.bytes) now dirty s found
                      (length-filled size reply.bytes) good))
                  λ _.
                    Ends-Kept dirty fs.dev s (write_back size d dirty s) same
                      (write_back-Ends dirty s good))
              λ e _. Ends-failed dirty fs.dev (s, super_failed) (λ c. cc) same
      where
        P : FileSystem d × Committed → Type 0
        P x = Ends dirty fs.dev (x.0.dev, x.1)

  -- A commit of dirty blocks of full size, each kept once, with a journal or without one: where it ends
  -- without an error, a byte outside the journal is that of the dirty blocks, or the old one where no dirty
  -- block has it; and however it ends, a byte outside the journal and the dirty blocks is kept.
  pub commit_dirty-Ends :
      (fuel now : ℕ) (fs : FileSystem d) (dirty : Dirty)
      → IsDirty size dirty
      → OutsideJournal size (journal_extents d fuel fs).1.1 i
      → Ends dirty fs.dev
          ((commit_dirty size d fuel now fs dirty).0.dev, (commit_dirty size d fuel now fs dirty).1)
  unfolding commit_dirty
  commit_dirty-Ends fuel now fs [] good out = record {
    all = λ _. sym (seen_absent size [] (k.content fs.dev) i (unfold lookup in refl));
    torn = λ _. refl;
  }
  commit_dirty-Ends fuel now fs (b ∷ dirty) good out =
      if_both {A = FileSystem d × Committed} P (length all == 0) (λ e. absurd (ground arith))
        λ _.
          if_both {A = FileSystem d × Committed} P (sb_journal_inum fs.sb == 0)
            {x = (
              record fs { dev = (write_back size d all fs.dev).0 },
              (write_back size d all fs.dev).1,
            )}
            (λ _. write_back-Ends all fs.dev good) λ _. in_journal (journal_extents d fuel fs).1.0
    where
      all : Dirty
      all = b ∷ dirty

      fs1 : FileSystem d
      fs1 = (journal_extents d fuel fs).0

      extents : List Extent
      extents = (journal_extents d fuel fs).1.1

      same : Kept k i fs.dev fs1.dev
      same = journal_extents-Kept k i fuel fs

      P : FileSystem d × Committed → Type 0
      P x = Ends all fs.dev (x.0.dev, x.1)

      in_journal :
          (x : Replayed)
          → P (elim x [
            | panicked ↦ (fs1, commit_panicked)
            | stuck ↦ (fs1, commit_stuck)
            | failed e ↦ (fs1, unread_journal)
            | done ↦ commit_by size d extents now fs1 all
          ])
      in_journal panicked = Ends-failed all fs.dev (fs1.dev, commit_panicked) (λ c. cc) same
      in_journal stuck = Ends-failed all fs.dev (fs1.dev, commit_stuck) (λ c. cc) same
      in_journal (failed e) = Ends-failed all fs.dev (fs1.dev, unread_journal) (λ c. cc) same
      in_journal done =
          Ends-Kept all fs.dev fs1.dev _ same (commit_by-Ends extents out now fs1 all good)
