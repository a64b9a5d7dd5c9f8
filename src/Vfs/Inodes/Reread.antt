-- ===== src/Vfs/Inodes/Reread.antt =====
-- An inode that is written is read back, and no other byte of the disk changes.
use werunos.Base.{ℕ, ◌+◌, ◌≤◌, ◌<◌, ◌≡◌, ◌⊎◌, none, List, length, byte_at, zeros, copy_at}
use werunos.Block.Device.{ReadWriterAt, IsDisk}
use werunos.Vfs.Alloc.{Struct, FileSystem, cut}
use werunos.Vfs.Alloc.Effect.{content}
use werunos.Vfs.Inodes.{encoded_size, Result, ok, err, panicked, inode_offset, read_inode}

module _ {d : ReadWriterAt} (h : IsDisk d) (n : ℕ) (inode : Struct)
    (encoded : length inode ≡ encoded_size) where
  -- The disk has the inode at `off`, and is else unchanged.
  pub record Stored (fs fs' : FileSystem d) (off : ℕ) : Type 0 where
    pub there : (i : ℕ) → i < encoded_size → content h fs' (off + i) ≡ byte_at inode i
    pub elsewhere :
        (i : ℕ) → (i < off) ⊎ (off + encoded_size ≤ i) → content h fs' i ≡ content h fs i

  abbrev WrittenIn : FileSystem d → Struct → FileSystem d × Result ℕ → Type 0
  WrittenIn fs bgd (fs', ok m) =
      (fs' ≡ record fs { dev = fs'.dev }) × Stored fs fs' (inode_offset d fs bgd n)
  WrittenIn fs bgd (fs', err e) = Unit {0}
  WrittenIn fs bgd (fs', panicked) = Unit {0}

  module _ (fs : FileSystem d) (large : encoded_size ≤ fs.inode_size) (bgd : Struct) where
    abbrev old : List ℕ
    old =
        copy_at (zeros fs.inode_size) 0
          (d.read_at fs.dev (inode_offset d fs bgd n) fs.inode_size).1.bytes

    abbrev raw : List ℕ
    raw = copy_at old 0 (cut fs.inode_size inode)

  module _ (fs : FileSystem d) (bgd : Struct) where
    -- A read of the table entry of `fs'` has no error.
    abbrev pub Readable : FileSystem d → Type 0
    Readable fs' = (d.read_at fs'.dev (inode_offset d fs bgd n) fs.inode_size).1.err ≡ none

    abbrev Reread : FileSystem d × Result ℕ → Type 0
    Reread (fs', o) =
        o ≡ ok n
        → Readable fs'
        → Stored fs fs' (inode_offset d fs bgd n) × ((read_inode d fs' n).1 ≡ ok inode)
