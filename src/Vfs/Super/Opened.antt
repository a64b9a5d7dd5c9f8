-- ===== src/Vfs/Super/Opened.antt =====
-- What holds of a volume that has been opened.
use werunos.Base.{
  ℕ, ◌+◌, ◌*◌, ◌/◌, ◌%◌, ◌^◌, ◌≤◌, ◌<◌, ◌≡◌, refl, sym, subst, ◌∙◌, not, none, length, byte_at,
  zeros, copy_at, ◌==◌, ==→eq, if◌then◌else◌, if_both, option_both, byte_at-filled, length-filled,
  byte_at-IsBytes, le-lt, arith,
}
use native.Mathlib.Nat.{div-add-mod', mod-lt, mul-le-mul_left}
use werunos.Block.Device.{Reply, ReadWriterAt, IsDisk}
use werunos.Vfs.Alloc.{
  Struct, FileSystem, sb_blocks_per_group, sb_block_size, sb_desc_size, superblock_offset,
}
use werunos.Vfs.Alloc.Effect.{content}
use werunos.Vfs.Super.{
  magic_number, sb_blocks_count, sb_magic, sb_inode_size, block_group_count, Opening, opened,
  panicked, read_super_block,
}

module _ {d : ReadWriterAt} (h : IsDisk d) where
  -- The superblock of the disk, and what it says.
  pub record IsOpen (fs : FileSystem d) : Type 0 where
    pub on_disk : (i : ℕ) → i < 1024 → byte_at fs.sb i ≡ content h fs (superblock_offset + i)
    pub size : length fs.sb ≡ 1024
    pub magic : sb_magic fs.sb ≡ magic_number
    pub block_size : fs.block_size ≡ sb_block_size fs.sb
    pub inode_size : fs.inode_size ≡ sb_inode_size fs.sb
    pub desc_size : fs.desc_size ≡ sb_desc_size fs.sb
    pub covered : sb_blocks_count fs.sb ≤ fs.group_count * sb_blocks_per_group fs.sb
    pub no_more :
        fs.group_count * sb_blocks_per_group fs.sb
        < sb_blocks_count fs.sb + sb_blocks_per_group fs.sb

  abbrev pub Opens : FileSystem d → FileSystem d × Opening → Type 0
  Opens fs (fs', opened) = IsOpen fs' × ((i : ℕ) → content h fs' i ≡ content h fs i)
  Opens fs (fs', panicked) =
      ((i : ℕ) → content h fs' i ≡ content h fs i)
      × (fs'
          ≡ record fs { dev = fs'.dev; block_size = fs'.block_size; inode_size = fs'.inode_size })
  Opens fs (fs', o) =
      ((i : ℕ) → content h fs' i ≡ content h fs i) × (fs' ≡ record fs { dev = fs'.dev })

module _ (blocks per : ℕ) (pos : 0 < per) (lt : blocks < 2 ^ 32) where
  whole : blocks ≡ blocks / per * per + blocks % per
  whole = sym (div-add-mod' blocks per)

  rest_lt : blocks % per < per
  rest_lt = mod-lt blocks pos

  quotient_le : blocks / per ≤ blocks / per * per
  quotient_le = omega (arith, mul-le-mul_left (blocks / per) pos)

  distrib : (blocks / per + 1) * per ≡ blocks / per * per + per
  distrib = omega arith

  covers :
      (blocks ≤ (if blocks % per == 0 then blocks / per else (blocks / per + 1) % 2 ^ 32) * per)
      × ((if blocks % per == 0 then blocks / per else (blocks / per + 1) % 2 ^ 32) * per
          < blocks + per)
  covers =
      if_both (λ (g : ℕ). (blocks ≤ g * per) × (g * per < blocks + per)) (blocks % per == 0)
        (λ z. (omega (arith, whole, ==→eq _ _ z), omega (arith, whole, pos)))
        λ nz.
          subst (λ (g : ℕ). (blocks ≤ g * per) × (g * per < blocks + per))
            (let e : blocks / per + 1 ≡ (blocks / per + 1) % 2 ^ 32 =
                ground (arith, whole, quotient_le, lt) in
              e)
            (omega (arith, whole, rest_lt, distrib), ground (arith, whole, rest_lt, distrib, nz))

module _ {d : ReadWriterAt} (h : IsDisk d) where
  module _ (fs : FileSystem d) (bytes : (i : ℕ) → content h fs i < 256) where
    abbrev reply : Reply
    reply = (d.read_at fs.dev superblock_offset 1024).1

    abbrev sb : Struct
    sb = copy_at (zeros 1024) 0 reply.bytes

    kept : (i : ℕ) → h.content (d.read_at fs.dev superblock_offset 1024).0 i ≡ content h fs i
    kept = (h.reads fs.dev superblock_offset 1024).kept

    on_disk :
        (i : ℕ) → reply.err ≡ none → i < 1024 → byte_at sb i ≡ content h fs (superblock_offset + i)
    on_disk i e lt =
        byte_at-filled 1024 reply.bytes i lt
        ∙ (h.reads fs.dev superblock_offset 1024).same i
            (omega (arith, (h.reads fs.dev superblock_offset 1024).full e))

    blocks_lt : reply.err ≡ none → sb_blocks_count sb < 2 ^ 32
    blocks_lt e = le-lt 4 sb 4 (
        byte_at-IsBytes sb λ i lt.
          let small = bytes (superblock_offset + i) in
          omega (arith, small, on_disk i e (omega (arith, length-filled 1024 reply.bytes))))

  -- On a disk of bytes, `ReadSuperBlock` leaves the disk as it is. Where it succeeds the superblock is that
  -- of the disk, its magic is right, the sizes are those it gives, and the groups are the least number that
  -- hold as many blocks as the low word of the count says (the code leaves the high word out). Where the read
  -- fails or the magic is wrong, the file system is as before; where it panics, with no blocks per group,
  -- only the sizes of blocks and inodes may have changed.
  pub read_super_block-Opens :
      (fs : FileSystem d) → ((i : ℕ) → content h fs i < 256) → Opens h fs (read_super_block d fs)
  unfolding read_super_block block_group_count
  read_super_block-Opens fs bytes =
      option_both (Opens h fs) (reply fs bytes).err
        (λ e.
          if_both (Opens h fs) (not (sb_magic (sb fs bytes) == magic_number))
            (λ _. (kept fs bytes, refl))
            λ m.
              if_both (Opens h fs) (sb_blocks_per_group (sb fs bytes) == 0)
                (λ _. (kept fs bytes, refl))
                λ nz.
                  let c =
                    covers (sb_blocks_count (sb fs bytes)) (sb_blocks_per_group (sb fs bytes))
                      (ground arith) (blocks_lt fs bytes e) in
                  (
                    record {
                      on_disk = λ i lt. on_disk fs bytes i e lt ∙ sym (kept fs bytes _);
                      size = length-filled 1024 (reply fs bytes).bytes;
                      magic = ground arith;
                      block_size = refl;
                      inode_size = refl;
                      desc_size = refl;
                      covered = c.0;
                      no_more = c.1;
                    },
                    kept fs bytes,
                  ))
        λ _ _. (kept fs bytes, refl)
