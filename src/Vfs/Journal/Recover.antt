-- ===== src/Vfs/Journal/Recover.antt =====
-- vfs/jbd2.go: `replayJournal` from the superblock on, `cleanOrphans`, and `Recover`.
use werunos.Base.{
  ℕ, zero, suc, ◌+◌, ◌-◌, ◌*◌, ◌%◌, ◌^◌, Bool, true, false, not, ◌||◌, Option, none, some, List, [],
  ◌∷◌, slice, zeros, copy_at, le, put_le, ltb, ◌==◌, if◌then◌else◌,
}
use werunos.Block.Device.{ReadWriterAt}
use werunos.Vfs.Layout.{place, superblock_fields, inode_fields}
use werunos.Vfs.Alloc.{
  Struct, FileSystem, blocks, inodes, Outcome, free, put_bytes, superblock_offset, cut,
}
use werunos.Vfs.Inodes.{Result, uses_extents, read_inode}
use werunos.Vfs.Extents.{
  Extent, Parse, no_extents, uninitialized, block_count, phys_start, find_physical_block,
  parse_node,
}
use werunos.Vfs.Journal.{
  get_journal_super, jbd2_magic, jbd2_magic_old, ReplayError, no_journal, external_journal,
  inode_unread, extents_unread, super_unmapped, super_unread, bad_magic, Replayed, done, panicked,
  stuck, failed, reader, replay_loop,
}

abbrev pub sb_journal_inum : Struct → ℕ
sb_journal_inum sb = le 4 sb (place superblock_fields 39)

abbrev pub sb_journal_dev : Struct → ℕ
sb_journal_dev sb = le 4 sb (place superblock_fields 40)

abbrev pub sb_last_orphan : Struct → ℕ
sb_last_orphan sb = le 4 sb (place superblock_fields 41)

abbrev pub sb_feature_incompat : Struct → ℕ
sb_feature_incompat sb = le 4 sb (place superblock_fields 29)

abbrev pub inode_dtime : Struct → ℕ
inode_dtime inode = le 4 inode (place inode_fields 6)

abbrev pub inode_block : Struct → List ℕ
inode_block inode = slice inode (place inode_fields 12) 60

-- `RecoveryResult`: what the journal skips for is the error.
pub record RecoveryResult : Type 0 where
  pub journal_replayed : Bool
  pub blocks_applied : ℕ
  pub transactions : ℕ
  pub orphans_cleaned : ℕ
  pub journal_skipped : Option ReplayError

-- How the cleaning of the orphans ends.
pub data Cleaned : Type 0 where
  cleaned orphan_unread clean_panicked clean_stuck : Cleaned

module _ (d : ReadWriterAt) where
  -- `ReadExtents` of an inode, to a depth of `fuel` nodes.
  unfoldable pub read_inode_extents : ℕ → FileSystem d → Struct → Parse (List Extent)
  read_inode_extents fuel fs inode =
      if uses_extents inode
      then parse_node (reader d fs.dev) fs.block_size fuel (inode_block inode)
      else Parse.err no_extents

  -- `writeSuperBlock` of a superblock that is loaded; an error of the write is logged only.
  abbrev pub write_super_block : FileSystem d → FileSystem d
  write_super_block fs = (put_bytes d fs superblock_offset (cut 1024 fs.sb)).0

  unfoldable pub journal_needs_recovery : FileSystem d → Bool
  journal_needs_recovery fs = not (sb_feature_incompat fs.sb % 2 == 0)

  -- `S_feature_incompat &^= EXT4_FEATURE_INCOMPAT_RECOVERY`
  abbrev pub without_recovery : Struct → Struct
  without_recovery sb =
      copy_at sb (place superblock_fields 29)
        (put_le 4 (sb_feature_incompat sb - sb_feature_incompat sb % 2))

  -- The extents of the journal's inode, or why there are none.
  unfoldable pub journal_extents : ℕ → FileSystem d → FileSystem d × (Replayed × List Extent)
  journal_extents fuel fs =
      let (fs', got) = read_inode d fs (sb_journal_inum fs.sb) in
      (
        fs',
        elim got [
          | Result.panicked ↦ (panicked, [])
          | Result.err e ↦ (failed inode_unread, [])
          | Result.ok jinode ↦ elim (read_inode_extents fuel fs' jinode) [
            | Parse.ok extents ↦ (done, extents)
            | Parse.err e ↦ (failed extents_unread, [])
            | Parse.stuck ↦ (stuck, [])
          ]
        ],
      )

  abbrev pub is_journal_magic : ℕ → Bool
  is_journal_magic magic = (magic == jbd2_magic) || (magic == jbd2_magic_old)

  -- The replay over the extents of the journal.
  unfoldable pub replay_extents :
      ℕ → FileSystem d → List Extent → RecoveryResult → FileSystem d × RecoveryResult × Replayed
  replay_extents fuel fs extents res = elim (find_physical_block extents 0) [
    | none ↦ (fs, res, failed super_unmapped)
    | some phys ↦
        let (s, reply) = d.read_at fs.dev (phys * fs.block_size % 2 ^ 64) fs.block_size in
        let fs1 : FileSystem d = record fs { dev = s } in
        let jsb = get_journal_super (copy_at (zeros fs.block_size) 0 reply.bytes) in
        let (r, x) = replay_loop d fs.block_size extents jsb.start jsb.maxlen fuel (record {
          dev = s;
          pos = jsb.start;
          blocks_applied = res.blocks_applied;
          transactions = res.transactions;
        }) in
        elim reply.err [
          | some e ↦ (fs1, res, failed super_unread)
          | none ↦
              if not (is_journal_magic jsb.header.magic)
              then (fs1, res, failed bad_magic)
              else if (jsb.start == 0) || ltb jsb.maxlen jsb.start
              then (fs1, res, done)
              else (
                record fs { dev = r.dev },
                record res { blocks_applied = r.blocks_applied; transactions = r.transactions },
                x,
              )
        ]
  ]

  unfoldable pub replay_journal :
      ℕ → FileSystem d → RecoveryResult → FileSystem d × RecoveryResult × Replayed
  replay_journal fuel fs res =
      let (fs1, (x, extents)) = journal_extents fuel fs in
      if sb_journal_inum fs.sb == 0
      then (fs, res, failed no_journal)
      else if not (sb_journal_dev fs.sb == 0)
      then (fs, res, failed external_journal)
      else elim x [
        | done ↦ replay_extents fuel fs1 extents res
        | panicked ↦ (fs1, res, panicked)
        | stuck ↦ (fs1, res, stuck)
        | failed e ↦ (fs1, res, failed e)
      ]

  -- The blocks of an extent, `n` of them from `block` on, are freed; an error of `FreeBlock` is ignored, and a panic is
  -- `false`.
  unfoldable pub free_from : ℕ → ℕ → FileSystem d → FileSystem d × Bool
  free_from zero block fs = (fs, true)
  free_from (suc n) block fs =
      let (fs', x) = free d blocks fs block in
      elim x [
        | Outcome.panicked ↦ (fs', false)
        | Outcome.ok m ↦ free_from n (block + 1) fs'
        | Outcome.err e ↦ free_from n (block + 1) fs'
      ]

  unfoldable pub free_extents : List Extent → FileSystem d → FileSystem d × Bool
  free_extents [] fs = (fs, true)
  free_extents (e ∷ extents) fs =
      let (fs', good) = free_from (block_count e) (phys_start e) fs in
      let skipped = free_extents extents fs in
      let rest = free_extents extents fs' in
      if uninitialized e then skipped else if good then rest else (fs', false)

  -- The blocks of an orphan: freed, with `true` unless that panicked, or no result where the recursion was cut off.
  unfoldable pub free_blocks_of : ℕ → Struct → FileSystem d → Option (FileSystem d × Bool)
  free_blocks_of fuel inode fs =
      if not (uses_extents inode)
      then some (fs, true)
      else elim (read_inode_extents fuel fs inode) [
        | Parse.ok extents ↦ some (free_extents extents fs)
        | Parse.err e ↦ some (fs, true)
        | Parse.stuck ↦ none
      ]

  -- The loop over the list of orphans, which is linked by `I_dtime`, `rounds` of it; an error of `FreeInode` is logged
  -- only.
  unfoldable pub orphan_loop :
      ℕ → ℕ → ℕ → FileSystem d → RecoveryResult → FileSystem d × RecoveryResult × Cleaned
  orphan_loop fuel zero next fs res = (fs, res, clean_stuck)
  orphan_loop fuel (suc rounds) next fs res =
      let (fs1, got) = read_inode d fs next in
      let counted : RecoveryResult = record res {
        orphans_cleaned = (res.orphans_cleaned + 1) % 2 ^ 32;
      } in
      if next == 0 then (fs, res, cleaned) else elim got [
        | Result.panicked ↦ (fs1, res, clean_panicked)
        | Result.err e ↦ (fs1, res, orphan_unread)
        | Result.ok inode ↦ elim (free_blocks_of fuel inode fs1) [
          | none ↦ (fs1, res, clean_stuck)
          | some (fs2, good) ↦
              let (fs3, y) = free d inodes fs2 next in
              if not good then (fs2, res, clean_panicked) else elim y [
                | Outcome.panicked ↦ (fs3, res, clean_panicked)
                | Outcome.ok n ↦ orphan_loop fuel rounds (inode_dtime inode) fs3 counted
                | Outcome.err e ↦ orphan_loop fuel rounds (inode_dtime inode) fs3 counted
              ]
        ]
      ]

  unfoldable pub clean_orphans :
      ℕ → FileSystem d → RecoveryResult → FileSystem d × RecoveryResult × Cleaned
  clean_orphans fuel fs res =
      let (fs', res', x) = orphan_loop fuel fuel (sb_last_orphan fs.sb) fs res in
      if sb_last_orphan fs.sb == 0 then (fs, res, cleaned) else elim x [
        | cleaned ↦ (
          write_super_block
              (record fs' { sb = copy_at fs'.sb (place superblock_fields 41) (put_le 4 0) }),
          res',
          cleaned,
        )
        | orphan_unread ↦ (fs', res', orphan_unread)
        | clean_panicked ↦ (fs', res', clean_panicked)
        | clean_stuck ↦ (fs', res', clean_stuck)
      ]

  -- How `Recover` ends; it does not return where there is a panic or no end.
  pub data Recovered : Type 0 where
    recovered : FileSystem d → RecoveryResult → Recovered
    recover_panicked recover_stuck : Recovered

  abbrev pub recover_orphans : ℕ → FileSystem d → RecoveryResult → Recovered
  recover_orphans fuel fs res =
      let (fs', res', x) = clean_orphans fuel fs res in
      let opened =
        recovered (write_super_block (record fs' { sb = without_recovery fs'.sb })) res' in
      elim x [
        | cleaned ↦ opened
        | orphan_unread ↦ opened
        | clean_panicked ↦ recover_panicked
        | clean_stuck ↦ recover_stuck
      ]

  -- `Recover` of a superblock that is loaded: the flag is cleared also where the replay or the cleaning fails.
  unfoldable pub recover : ℕ → FileSystem d → Recovered
  recover fuel fs =
      let none_yet : RecoveryResult = record {
        journal_replayed = false;
        blocks_applied = 0;
        transactions = 0;
        orphans_cleaned = 0;
        journal_skipped = none;
      } in
      let begun : RecoveryResult = record none_yet { journal_replayed = true } in
      let (fs', res, x) = replay_journal fuel fs begun in
      if not (journal_needs_recovery fs) then recover_orphans fuel fs none_yet else elim x [
        | done ↦ recover_orphans fuel fs' res
        | failed e ↦ recover_orphans fuel fs' (record res { journal_skipped = some e })
        | panicked ↦ recover_panicked
        | stuck ↦ recover_stuck
      ]

  -- `EnsureRecoveryFlagIsClear`, with `clearRecoveryFlag`.
  unfoldable pub ensure_recovery_flag_is_clear : FileSystem d → FileSystem d
  ensure_recovery_flag_is_clear fs =
      if journal_needs_recovery fs
      then write_super_block (record fs { sb = without_recovery fs.sb })
      else fs
