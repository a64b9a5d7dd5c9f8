-- ===== src/Vfs/Journal/Commit.antt =====
-- vfs/journal_writer.go: `CommitTransaction` of a file system with a journal. Blocks are of 24 bytes at least. The dirty
-- blocks come in the order of the list, where Go gives them in any.
pub mod Bounds
pub mod Kept
pub mod Effect
use werunos.Base.{
  ℕ, zero, suc, ◌+◌, ◌-◌, ◌*◌, ◌/◌, ◌%◌, ◌^◌, Bool, true, false, not, ◌&&◌, ◌||◌, Option, none,
  some, List, [], ◌∷◌, length, zeros, copy_at, le, put_le, ltb, leb, ◌==◌, if◌then◌else◌,
}
use werunos.Block.Device.{IoError, Reply, ReadWriterAt}
use werunos.Vfs.Alloc.{FileSystem}
use werunos.Vfs.Extents.{Extent, find_physical_block}
use werunos.Vfs.Tx.{TxState, write_dirty, Dev, direct, in_tx}
use werunos.Vfs.Tx.Map.{Dirty}
use werunos.Vfs.Journal.{
  get_journal_super, JournalSuper, jbd2_magic, jbd2_descriptor, jbd2_commit, Replayed, done,
  panicked, stuck, failed, xor_front, esc_bytes, wrap, advance,
}
use werunos.Vfs.Journal.Recover.{sb_journal_inum, journal_extents, is_journal_magic}

-- How a commit ends.
pub data Committed : Type 0 where
  committed unread_journal no_super super_failed unmapped journal_failed super_update_failed
        writeback_failed commit_panicked commit_stuck :
      Committed

-- Whether a block begins like a block of the journal.
abbrev pub is_magic : List ℕ → Bool
is_magic bytes = leb 4 (length bytes) && (le 4 bytes 0 == jbd2_magic)

-- A step after another one, unless that one failed.
infixl 5 ◌>>◌
abbrev pub ◌>>◌ : {S : Type 0} → S × Committed → (S → S × Committed) → S × Committed
(s, committed) >> f = f s
(s, e) >> f = (s, e)

module _ (d : ReadWriterAt) where
  -- A write, and what it ends with if it fails.
  abbrev pub put_or : Committed → d.State → ℕ → List ℕ → d.State × Committed
  put_or e s off bytes =
      let (s', w) = d.write_at s off bytes in (s', elim w.err [ none ↦ committed | some _ ↦ e ])

-- The position that is `n` blocks behind `pos`.
abbrev pub advance_by : ℕ → ℕ → ℕ → ℕ
advance_by maxlen zero pos = pos
advance_by maxlen (suc n) pos = advance_by maxlen n (advance maxlen pos)

-- The flags of a tag: `escape`, and `last` where no block follows.
abbrev pub tag_flags : List ℕ → Dirty → ℕ
tag_flags bytes rest = (if is_magic bytes then 1 else 0) + (if length rest == 0 then 64 else 0)

-- The tags from `off` on; where one does not fit into the block, the slice panics, which is `none`.
unfoldable pub put_tags : Dirty → ℕ → List ℕ → Option (List ℕ)
put_tags [] off desc = some desc
put_tags ((n, bytes) ∷ dirty) off desc =
    let rest = put_tags dirty (off + 8) (
      copy_at (copy_at desc off (put_le 4 (n % 2 ^ 32))) (off + 4)
        (put_le 4 (tag_flags bytes dirty))) in
    if ltb (length desc) (off + 8) then none else rest

-- The superblock of the journal with the next sequence and the next start.
unfoldable pub next_super : ℕ → ℕ → List ℕ → List ℕ
next_super sequence next_start jsb =
    copy_at (copy_at jsb 12 (put_le 4 ((sequence + 1) % 2 ^ 32))) 16 (put_le 4 next_start)

module _ (block_size : ℕ) where
  -- The block as it goes to the journal.
  unfoldable pub data_copy : List ℕ → List ℕ
  data_copy bytes =
      let copy = copy_at (zeros block_size) 0 bytes in
      if is_magic bytes then xor_front esc_bytes copy else copy

  abbrev pub data_copies : Dirty → List (List ℕ)
  data_copies [] = []
  data_copies ((n, bytes) ∷ dirty) = data_copy bytes ∷ data_copies dirty

  -- A block of the journal with its header.
  abbrev pub header_block : ℕ → ℕ → List ℕ
  header_block kind sequence =
      copy_at (copy_at (copy_at (zeros block_size) 0 (put_le 4 jbd2_magic)) 4 (put_le 4 kind)) 8
        (put_le 4 sequence)

  unfoldable pub descriptor_block : ℕ → Dirty → Option (List ℕ)
  descriptor_block sequence dirty = put_tags dirty 12 (header_block jbd2_descriptor sequence)

  -- `now` is the time of the commit in seconds.
  unfoldable pub commit_block : ℕ → ℕ → List ℕ
  commit_block sequence now = copy_at (header_block jbd2_commit sequence) 16 (put_le 8 now)

  module _ (d : ReadWriterAt) (extents : List Extent) where
    unfoldable pub write_journal_block : d.State → ℕ → List ℕ → d.State × Committed
    write_journal_block s pos bytes = elim (find_physical_block extents pos) [
      | none ↦ (s, unmapped)
      | some phys ↦ put_or d journal_failed s (phys * block_size % 2 ^ 64) bytes
    ]

    -- The blocks of data, each one behind the last position.
    unfoldable pub write_data : ℕ → List (List ℕ) → ℕ → d.State → d.State × Committed
    write_data maxlen [] pos s = (s, committed)
    write_data maxlen (bytes ∷ rest) pos s =
        write_journal_block s (advance maxlen pos) bytes
        >> write_data maxlen rest (advance maxlen pos)

  module _ (d : ReadWriterAt) where
    abbrev pub write_back : Dirty → d.State → d.State × Committed
    write_back dirty s =
        let (s', e) = write_dirty block_size d dirty s in
        (s', elim e [ none ↦ committed | some _ ↦ writeback_failed ])

    -- The writes of a commit in their order: the descriptor, the data, the commit, the superblock of the journal, which is
    -- at `super_at`, and last the dirty blocks themselves.
    unfoldable pub write_log : List Extent → ℕ → List ℕ → ℕ → Dirty → d.State → d.State × Committed
    write_log extents super_at jsb_bytes now dirty s =
        let jsb = get_journal_super jsb_bytes in
        let pos = if (jsb.start == 0) || ltb jsb.maxlen jsb.start then 1 else jsb.start in
        let end = advance jsb.maxlen (advance_by jsb.maxlen (length dirty) pos) in
        elim (descriptor_block jsb.sequence dirty) [
          | none ↦ (s, commit_panicked)
          | some desc ↦
              write_journal_block d extents s pos desc
              >> write_data d extents jsb.maxlen (data_copies dirty) pos
              >> (λ s3. write_journal_block d extents s3 end (commit_block jsb.sequence now))
              >> (λ s4.
                  put_or d super_update_failed s4 super_at
                    (next_super jsb.sequence (advance jsb.maxlen end) jsb_bytes))
              >> write_back dirty
        ]

    -- The commit by the journal of these extents, or the writing of the dirty blocks alone where it has no superblock.
    unfoldable pub commit_by : List Extent → ℕ → FileSystem d → Dirty → FileSystem d × Committed
    commit_by extents now fs dirty = elim (find_physical_block extents 0) [
      | none ↦ (fs, no_super)
      | some phys ↦
          let super_at = phys * block_size % 2 ^ 64 in
          let (s, reply) = d.read_at fs.dev super_at block_size in
          let jsb_bytes = copy_at (zeros block_size) 0 reply.bytes in
          let (logged, logged_end) = write_log extents super_at jsb_bytes now dirty s in
          let (plain, plain_end) = write_back dirty s in
          elim reply.err [
            | some e ↦ (record fs { dev = s }, super_failed)
            | none ↦
                if is_journal_magic d (get_journal_super jsb_bytes).header.magic
                then (record fs { dev = logged }, logged_end)
                else (record fs { dev = plain }, plain_end)
          ]
    ]

    -- `CommitTransaction` of the dirty blocks, `fs.dev` being the device below the transaction again.
    unfoldable pub commit_dirty : ℕ → ℕ → FileSystem d → Dirty → FileSystem d × Committed
    commit_dirty fuel now fs dirty =
        let (fs1, (x, extents)) = journal_extents d fuel fs in
        let (plain, plain_end) = write_back dirty fs.dev in
        if length dirty == 0
        then (fs, committed)
        else if sb_journal_inum fs.sb == 0
        then (record fs { dev = plain }, plain_end)
        else elim x [
          | panicked ↦ (fs1, commit_panicked)
          | stuck ↦ (fs1, commit_stuck)
          | failed e ↦ (fs1, unread_journal)
          | done ↦ commit_by extents now fs1 dirty
        ]

-- `CommitTransaction`: outside a transaction it does nothing, and after it the file system has its own device again.
unfoldable pub commit :
    (d : ReadWriterAt) → ℕ → ℕ → FileSystem d → Dev d → (FileSystem d × Dev d) × Committed
commit d fuel now fs (direct s) = ((fs, direct s), committed)
commit d fuel now fs (in_tx st) =
    let (fs', x) = commit_dirty fs.block_size d fuel now (record fs { dev = st.inner }) st.dirty in
    ((fs', direct fs'.dev), x)
