-- ===== src/Vfs/Journal/Runs.antt =====
-- The journal on a disk in memory of thirteen blocks of 32 bytes: the journal is in the blocks 2 to 6, and the table of
-- inodes, with the inode of the journal, is at block 8.
use werunos.Base.{
  ℕ, ◌+◌, ◌-◌, ◌*◌, ◌≤◌, ◌<◌, ◌≡◌, ◌⊎◌, refl, sym, ap, subst, ◌∙◌, false, none, some, List, [], ◌∷◌,
  ◌++◌, length, byte_at, byte_at-zeros, zeros, copy_at, le, put_le, get_or-append_left,
  get_or-append_right, are_bytes→IsBytes, index_eq, arith,
}
use werunos.Block.Memory.{memory, memory-IsDisk}
use werunos.Vfs.Alloc.{FileSystem, Struct}
use werunos.Vfs.Inodes.{read_inode, with_group, read_in_table}
use werunos.Vfs.Extents.{
  Extent, find_physical_block, put_header, put_extent, parse_node, leaf_entries, get_header,
  get_extent,
}
use werunos.Vfs.Tx.{write_dirty}
use werunos.Vfs.Tx.Map.{Dirty, IsDirty, lookup}
use werunos.Vfs.Journal.{
  Replaying, Replayed, jbd2_magic, read_journal_block, apply_tag, tag_loop, replay_loop, tag_rounds,
  xor_front, failed, wrong_type, done, stuck,
}
use werunos.Vfs.Journal.Tags.{is_cut, tag_loop-is_cut}
use werunos.Vfs.Journal.Recover.{read_inode_extents, journal_extents}
use werunos.Vfs.Journal.Commit.{
  committed, header_block, data_copy, put_tags, descriptor_block, commit_block, next_super,
  write_journal_block, write_data, write_log, commit_by, commit_dirty,
}
use werunos.Vfs.Journal.Commit.Bounds.{descriptor_block-eq-none}
use werunos.Vfs.Journal.Commit.Kept.{OutsideJournal}
use werunos.Vfs.Journal.Commit.Effect.{Ends, commit_dirty-Ends}
use werunos.Vfs.Journal.Reapply.{IsReady, HasCopy, Reapplied}
use werunos.Vfs.Journal.Recovers.{Refused, tag_loop-descriptor_block, tag_loop-Refused}

abbrev area : List Extent
area = record { block = 0; len = 5; start_hi = 0; start_lo = 2 } ∷ []

-- A block that begins like a block of the journal, of the type of a block of data.
unfoldable like_journal : List ℕ
unfolding put_le
like_journal = put_le 4 jbd2_magic ++ (put_le 4 2 ++ (7 ∷ zeros 23))

unfoldable tagged : List ℕ
unfolding put_le
tagged = zeros 4 ++ (put_le 4 2 ++ (9 ∷ zeros 23))

abbrev dirty : Dirty
dirty = (7, like_journal) ∷ (1, tagged) ∷ []

journal_super : List ℕ
journal_super =
    put_le 4 jbd2_magic
    ++ (put_le 4 5 ++ (zeros 4 ++ (put_le 4 3 ++ (put_le 4 1 ++ (put_le 4 4 ++ zeros 8)))))

journal_inode : List ℕ
journal_inode =
    zeros 32
    ++ (put_le 4 0x80000
        ++ (zeros 4
            ++ (put_header
                  (record { magic = 0xf30a; entries = 1; max = 4; depth = 0; generation = 0 })
                ++ (put_extent (record { block = 0; len = 5; start_hi = 0; start_lo = 2 })
                    ++ zeros 96))))

unfoldable disk : List ℕ
unfolding journal_super journal_inode put_le put_header put_extent
disk = zeros 64 ++ (journal_super ++ (zeros 160 ++ journal_inode))

unfoldable super : Struct
unfolding copy_at put_le
super = copy_at (copy_at (zeros 1024) 40 (put_le 4 8)) 224 (put_le 4 1)

unfoldable descriptor : Struct
unfolding copy_at put_le
descriptor = copy_at (zeros 64) 8 (put_le 4 8)

abbrev volume : FileSystem memory
volume = record {
  dev = disk;
  sb = super;
  bgds = descriptor ∷ [];
  block_size = 32;
  group_count = 1;
  desc_size = 32;
  inode_size = 160;
}

extents_run : journal_extents memory 2 volume ≡ (volume, (done, area))
unfolding journal_extents read_inode with_group read_in_table read_inode_extents parse_node
    leaf_entries get_header get_extent le disk super descriptor copy_at
extents_run = refl

commit_run : (commit_dirty 32 memory 2 0 volume dirty).1 ≡ committed
unfolding commit_dirty commit_by write_log descriptor_block put_tags write_journal_block write_data
    data_copy xor_front commit_block next_super write_dirty find_physical_block journal_extents
    read_inode with_group read_in_table read_inode_extents parse_node leaf_entries get_header
    get_extent le put_le disk super descriptor copy_at like_journal tagged
commit_run = refl

area_places : (pos phys : ℕ) → find_physical_block area pos ≡ some phys → (2 ≤ phys) × (phys < 7)
unfolding find_physical_block
area_places pos phys e = ground arith

outside_area : (i : ℕ) → (i < 64) ⊎ (224 ≤ i) → OutsideJournal 32 area i
outside_area i out pos phys e =
    let p : (2 ≤ phys) × (phys < 7) = area_places pos phys e in omega arith

dirty-IsDirty : IsDirty 32 dirty
unfolding lookup like_journal tagged
dirty-IsDirty = (refl, refl, (refl, refl, tt))

commit_dirty-Ends_example :
    Ends memory-IsDisk 32
      (omega arith)
      226
      dirty
      volume.dev
      ((commit_dirty 32 memory 2 0 volume dirty).0.dev, (commit_dirty 32 memory 2 0 volume dirty).1)
commit_dirty-Ends_example =
    commit_dirty-Ends memory-IsDisk 32 (omega arith) 226 2 0 volume dirty dirty-IsDirty (
      subst (λ (es : List Extent). OutsideJournal 32 es 226) (sym extents)
        (outside_area 226 (omega arith)))
  where
    extents : (journal_extents memory 2 volume).1.1 ≡ area
    extents = ap (λ (x : FileSystem memory × (Replayed × List Extent)). x.1.1) extents_run

-- The journal with the descriptor and the copies of the dirty blocks behind each other.
unfoldable logged : List ℕ
unfolding data_copy xor_front like_journal tagged copy_at le put_le
logged = zeros 128 ++ (data_copy 32 like_journal ++ (data_copy 32 tagged ++ zeros 64))

abbrev at_descriptor : Replaying memory
at_descriptor = record { dev = logged; pos = 1; blocks_applied = 0; transactions = 0 }

unfoldable tags_block : List ℕ
unfolding put_le copy_at
tags_block =
    copy_at
      (copy_at (copy_at (copy_at (header_block 32 1 3) 12 (put_le 4 7)) 16 (put_le 4 1)) 20
        (put_le 4 1))
      24 (put_le 4 64)

tags_block_run : descriptor_block 32 3 dirty ≡ some tags_block
unfolding descriptor_block put_tags tags_block copy_at le put_le like_journal tagged
tags_block_run = refl

byte_at-inside :
    (front xs rest : List ℕ) (a j : ℕ)
    → a ≡ length front
    → j < length xs
    → byte_at (front ++ (xs ++ rest)) (a + j) ≡ byte_at xs j
byte_at-inside front xs rest a j e lt =
    get_or-append_right front (xs ++ rest) (a + j) 0 (omega (arith, e))
    ∙ index_eq (xs ++ rest) (a + j - length front) j (omega (arith, e))
    ∙ get_or-append_left xs rest j 0 lt

first_copy : HasCopy 32 area 1 (byte_at logged) 2 like_journal
unfolding find_physical_block logged
first_copy = record {
  phys = 4;
  found = refl;
  apart = λ e. absurd (omega (arith, e));
  there = λ j lt.
      byte_at-inside (zeros 128) (data_copy 32 like_journal) (data_copy 32 tagged ++ zeros 64) 128 j
        refl lt;
}

second_copy : HasCopy 32 area 1 (byte_at logged) 3 tagged
unfolding find_physical_block logged
second_copy = record {
  phys = 5;
  found = refl;
  apart = λ e. absurd (omega (arith, e));
  there = λ j lt.
      byte_at-inside (zeros 128 ++ data_copy 32 like_journal) (data_copy 32 tagged) (zeros 64) 160 j
        refl lt;
}

like_journal-IsReady : IsReady 32 area 7 like_journal
unfolding like_journal le
like_journal-IsReady = record {
  some_number = omega arith;
  in_range = omega arith;
  are_bytes = are_bytes→IsBytes like_journal refl;
  typed = refl;
  outside = λ j lt. outside_area (224 + j) (omega arith);
}

tagged-IsReady : IsReady 32 area 1 tagged
unfolding tagged le
tagged-IsReady = record {
  some_number = omega arith;
  in_range = omega arith;
  are_bytes = are_bytes→IsBytes tagged refl;
  typed = refl;
  outside = λ j lt. outside_area (32 + j) (omega arith);
}

tag_loop-descriptor_block_example :
    Reapplied memory-IsDisk 32
      (omega arith)
      area
      1
      4
      dirty
      at_descriptor
      (tag_loop memory 32 area 1 4 (tag_rounds 32) tags_block 12 at_descriptor)
tag_loop-descriptor_block_example =
    tag_loop-descriptor_block memory-IsDisk 32 (omega arith) area 1 4 3 dirty tags_block
      at_descriptor tags_block_run (omega arith) (omega arith, (omega arith, tt)) dirty-IsDirty
      (like_journal-IsReady, (tagged-IsReady, tt)) (first_copy, (second_copy, tt))

replay_run : (tag_loop memory 32 area 1 4 (tag_rounds 32) tags_block 12 at_descriptor).1 ≡ done
unfolding tag_loop apply_tag read_journal_block find_physical_block xor_front tags_block logged
    copy_at le put_le
replay_run = refl

-- A block of zeros has no type.
abbrev untyped : Dirty
untyped = (1, zeros 32) ∷ []

unfoldable untyped_block : List ℕ
unfolding put_le copy_at
untyped_block = copy_at (copy_at (header_block 32 1 3) 12 (put_le 4 1)) 16 (put_le 4 64)

untyped_block_run : descriptor_block 32 3 untyped ≡ some untyped_block
unfolding descriptor_block put_tags untyped_block copy_at le put_le
untyped_block_run = refl

abbrev at_untyped : Replaying memory
at_untyped = record { dev = zeros 256; pos = 1; blocks_applied = 0; transactions = 0 }

untyped_copy : HasCopy 32 area 1 (byte_at (zeros 256)) 2 (zeros 32)
unfolding find_physical_block data_copy le copy_at
untyped_copy = record {
  phys = 4;
  found = refl;
  apart = λ e. absurd (omega (arith, e));
  there = λ j lt. byte_at-zeros 256 (128 + j) ∙ sym (byte_at-zeros 32 j);
}

tag_loop-Refused_example :
    Refused memory-IsDisk 32
      (omega arith)
      area
      1
      4
      at_untyped
      (tag_loop memory 32 area 1 4 (tag_rounds 32) untyped_block 12 at_untyped)
unfolding le
tag_loop-Refused_example =
    tag_loop-Refused memory-IsDisk 32 (omega arith) area 1 4 3 1 (zeros 32) [] untyped_block
      at_untyped untyped_block_run (omega arith, tt) (omega arith) refl
      (λ e. absurd (omega (arith, e))) untyped_copy

refused_run :
    (tag_loop memory 32 area 1 4 (tag_rounds 32) untyped_block 12 at_untyped).1 ≡ failed wrong_type
unfolding tag_loop apply_tag read_journal_block find_physical_block untyped_block copy_at le put_le
refused_run = refl

descriptor_block-eq-none_example :
    ((descriptor_block 24 3 dirty ≡ none) → 24 < 12 + 8 * length dirty)
    × (24 < 12 + 8 * length dirty → descriptor_block 24 3 dirty ≡ none)
descriptor_block-eq-none_example = descriptor_block-eq-none 24 3 dirty (omega arith)

tag_loop-is_cut_example :
    is_cut (tag_loop memory 32 area 1 4 (tag_rounds 32) untyped_block 12 at_untyped).1 ≡ false
tag_loop-is_cut_example = tag_loop-is_cut memory 32 area 1 4 untyped_block at_untyped

-- A descriptor without a tag: the position does not move, and the replay goes on for ever.
empty_journal : List ℕ
empty_journal = zeros 100 ++ (1 ∷ zeros 155)

endless_run :
    (replay_loop memory 32 area 1 4 30
      (record { dev = empty_journal; pos = 1; blocks_applied = 0; transactions = 0 })).1
    ≡ stuck
unfolding empty_journal replay_loop tag_loop read_journal_block find_physical_block copy_at le
endless_run = refl
