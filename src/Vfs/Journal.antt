-- ===== src/Vfs/Journal.antt =====
-- vfs/jbd2.go: the journal on the disk, its replay, and what `Recover` does when a volume is opened.
-- Blocks are of 24 bytes at least.
pub mod Tags
pub mod Escape
pub mod Recover
pub mod Commit
pub mod Logged
pub mod Reapply
pub mod Recovers
mod Runs
use Prim.Native.Nat.{bit_xor}
use werunos.Base.{
  ℕ, zero, suc, ◌+◌, ◌-◌, ◌*◌, ◌/◌, ◌%◌, ◌^◌, Bool, true, false, not, ◌&&◌, ◌||◌, Option, none,
  some, List, [], ◌∷◌, length, slice, zeros, copy_at, le, put_le, ltb, leb, ◌==◌, if◌then◌else◌,
}
use werunos.Block.Device.{IoError, Reply, ReadWriterAt}
use werunos.Block.Mbr.{ReaderAt}
use werunos.Vfs.Extents.{Extent, find_physical_block}

abbrev pub jbd2_magic : ℕ
jbd2_magic = 0xc03b3998

abbrev pub jbd2_magic_old : ℕ
jbd2_magic_old = 0xc03b3999

-- The types of blocks: a descriptor, a block of data, a commit and the superblock. Every other type is passed over.
abbrev pub jbd2_descriptor : ℕ
jbd2_descriptor = 1

abbrev pub jbd2_block : ℕ
jbd2_block = 2

abbrev pub jbd2_commit : ℕ
jbd2_commit = 3

abbrev pub jbd2_superblock : ℕ
jbd2_superblock = 5

pub record JournalHeader : Type 0 where
  pub magic : ℕ
  pub blocktype : ℕ
  pub sequence : ℕ

pub record JournalSuper : Type 0 where
  pub header : JournalHeader
  pub sequence : ℕ
  pub start : ℕ
  pub maxlen : ℕ

pub record Tag : Type 0 where
  pub blocknr : ℕ
  pub flags : ℕ

abbrev pub get_journal_header : List ℕ → JournalHeader
get_journal_header buf = record {
  magic = le 4 buf 0;
  blocktype = le 4 buf 4;
  sequence = le 4 buf 8;
}

abbrev pub get_journal_super : List ℕ → JournalSuper
get_journal_super buf = record {
  header = get_journal_header buf;
  sequence = le 4 buf 12;
  start = le 4 buf 16;
  maxlen = le 4 buf 20;
}

abbrev pub get_tag : List ℕ → ℕ → Tag
get_tag buf off = record { blocknr = le 4 buf off; flags = le 4 buf (off + 4) }

-- The flags of a tag.
abbrev pub is_escaped : ℕ → Bool
is_escaped flags = flags % 2 == 1

abbrev pub is_last : ℕ → Bool
is_last flags = flags / 64 % 2 == 1

abbrev pub has_crc : ℕ → Bool
has_crc flags = flags / 128 % 2 == 1

-- The front of a block, byte by byte xor the given bytes.
unfoldable pub xor_front : List ℕ → List ℕ → List ℕ
xor_front [] bytes = bytes
xor_front (e ∷ es) [] = []
xor_front (e ∷ es) (x ∷ bytes) = bit_xor x e ∷ xor_front es bytes

abbrev pub esc_bytes : List ℕ
esc_bytes = 0x4a ∷ 0x6f ∷ 0x6e ∷ 0x75 ∷ []

pub data ReplayError : Type 0 where
  no_journal external_journal inode_unread extents_unread super_unmapped super_unread bad_magic
        wrapped unmapped block_unread wrong_type write_failed :
      ReplayError

-- `panicked` is a run-time panic of Go; `stuck` is no Go value: a loop or a recursion was cut off.
pub data Replayed : Type 0 where
  done panicked stuck : Replayed
  failed : ReplayError → Replayed

-- The device, the position in the journal, and the counts of `RecoveryResult`.
pub record Replaying (d : ReadWriterAt) : Type 0 where
  pub dev : d.State
  pub pos : ℕ
  pub blocks_applied : ℕ
  pub transactions : ℕ

-- What a read of the device in its present state gives.
abbrev pub reader : (d : ReadWriterAt) → d.State → ReaderAt
reader d s off n = (d.read_at s off n).1

module _ (d : ReadWriterAt) (block_size : ℕ) (extents : List Extent) where
  -- `readJournalBlock`, the header left in the bytes.
  unfoldable pub read_journal_block : d.State → ℕ → d.State × Option ReplayError × List ℕ
  read_journal_block s pos = elim (find_physical_block extents pos) [
    | none ↦ (s, some unmapped, [])
    | some phys ↦
        let (s', reply) = d.read_at s (phys * block_size % 2 ^ 64) block_size in
        elim reply.err [
          | some e ↦ (s', some block_unread, [])
          | none ↦ (s', none, copy_at (zeros block_size) 0 reply.bytes)
        ]
  ]

module _ (maxlen : ℕ) where
  abbrev pub wrap : ℕ → ℕ
  wrap pos = if ltb maxlen pos then 1 else pos

  abbrev pub advance : ℕ → ℕ
  advance pos = wrap ((pos + 1) % 2 ^ 32)

-- Each round of the loop over the tags takes 8 bytes of the block.
abbrev pub tag_rounds : ℕ → ℕ
tag_rounds block_size = suc (block_size / 8)

module _ (d : ReadWriterAt) (block_size : ℕ) (extents : List Extent) (start maxlen : ℕ) where
  -- One tag: the next block of the journal goes to its place.
  unfoldable pub apply_tag : Tag → Replaying d → Replaying d × Replayed
  apply_tag tag r =
      let next : Replaying d = record r { pos = advance maxlen r.pos } in
      let (s, e, buf) = read_journal_block d block_size extents r.dev (advance maxlen r.pos) in
      let bytes = if is_escaped tag.flags then xor_front esc_bytes buf else buf in
      let (s', w) = d.write_at s (tag.blocknr * block_size % 2 ^ 64) bytes in
      if advance maxlen r.pos == start then (next, failed wrapped) else elim e [
        | some x ↦ (record next { dev = s }, failed x)
        | none ↦
            if not ((get_journal_header buf).blocktype == jbd2_block)
            then (record next { dev = s }, failed wrong_type)
            else elim w.err [
              | some x ↦ (record next { dev = s' }, failed write_failed)
              | none ↦
                  (record next { dev = s'; blocks_applied = (r.blocks_applied + 1) % 2 ^ 32 }, done)
            ]
      ]

  -- The loop over the tags of a descriptor from `off` on, `fuel` rounds of it.
  unfoldable pub tag_loop : ℕ → List ℕ → ℕ → Replaying d → Replaying d × Replayed
  tag_loop zero buf off r = (r, stuck)
  tag_loop (suc fuel) buf off r =
      let tag = get_tag buf off in
      let off' = off + 8 + (if has_crc tag.flags then 4 else 0) in
      let (r', x) = apply_tag tag r in
      let rest = tag_loop fuel buf off' r' in
      if ltb block_size (off + 8)
      then (r, done)
      else if (tag.blocknr == 0) && (tag.flags == 0)
      then (r, done)
      else elim x [
        | done ↦ if is_last tag.flags then (r', done) else rest
        | panicked ↦ (r', panicked)
        | stuck ↦ (r', stuck)
        | failed e ↦ (r', failed e)
      ]

  -- The loop over the blocks of the journal, `fuel` rounds of it.
  unfoldable pub replay_loop : ℕ → Replaying d → Replaying d × Replayed
  replay_loop zero r = (r, stuck)
  replay_loop (suc fuel) r0 =
      let r : Replaying d = record r0 { pos = wrap maxlen r0.pos } in
      let (s, e, buf) = read_journal_block d block_size extents r.dev r.pos in
      let seen : Replaying d = record r { dev = s } in
      let kind = (get_journal_header buf).blocktype in
      let (r1, x) = tag_loop (tag_rounds block_size) buf 12 seen in
      let described = replay_loop fuel (record r1 { pos = wrap maxlen r1.pos }) in
      let committed = replay_loop fuel (record seen {
        pos = advance maxlen r.pos;
        transactions = (r.transactions + 1) % 2 ^ 32;
      }) in
      let passed = replay_loop fuel (record seen { pos = advance maxlen r.pos }) in
      if (r.pos == start) && ltb 0 r.transactions then (r, done) else elim e [
        | some x ↦ (seen, failed x)
        | none ↦
            if kind == jbd2_superblock
            then (seen, done)
            else if kind == jbd2_descriptor
            then elim x [
              | done ↦ described
              | panicked ↦ (r1, panicked)
              | stuck ↦ (r1, stuck)
              | failed e ↦ (r1, failed e)
            ]
            else if kind == jbd2_commit
            then committed
            else passed
      ]
