-- ===== src/Vfs/Tx/Runs.antt =====
-- Transactions over a disk in memory, with blocks of four bytes.
use werunos.Base.{ℕ, ◌≡◌, refl, true, none, List, [], ◌∷◌, copy_at, arith}
use werunos.Block.Memory.{memory, memory-IsDisk}
use werunos.Vfs.Tx.{TxState, read_at, write_at, write_blocks, load_block, merge, overlay}
use werunos.Vfs.Tx.Map.{lookup, store, IsDirty}
use werunos.Vfs.Tx.Writes.{WritesOwn, write_at-WritesOwn}
use werunos.Vfs.Tx.Commit.{write_all, opened}

abbrev disk : List ℕ
disk = 10 ∷ 11 ∷ 12 ∷ 13 ∷ 14 ∷ 15 ∷ 16 ∷ 17 ∷ 18 ∷ 19 ∷ 20 ∷ 21 ∷ []

abbrev writes : List (ℕ × List ℕ)
writes = (3, 1 ∷ 2 ∷ []) ∷ (4, 7 ∷ 8 ∷ 9 ∷ 6 ∷ 5 ∷ []) ∷ []

abbrev written : TxState memory
written = record {
  dirty = (0, 10 ∷ 11 ∷ 12 ∷ 1 ∷ []) ∷ (1, 7 ∷ 8 ∷ 9 ∷ 6 ∷ []) ∷ (2, 5 ∷ 19 ∷ 20 ∷ 21 ∷ []) ∷ [];
  inner = disk;
}

write_all_run : write_all 4 memory writes (opened memory disk) ≡ (written, true)
unfolding write_all write_at write_blocks load_block merge lookup store copy_at
write_all_run = refl

read_own : (read_at 4 memory written 2 4).1 ≡ record { bytes = 12 ∷ 1 ∷ 7 ∷ 8 ∷ []; err = none }
unfolding read_at overlay copy_at
read_own = refl

written-IsDirty : IsDirty 4 written.dirty
unfolding lookup
written-IsDirty = (refl, refl, (refl, refl, (refl, refl, tt)))

write_at-WritesOwn_example :
    WritesOwn memory-IsDisk 4 written 1
      (0 ∷ [])
      (write_at 4 memory written 1 (0 ∷ [])).0
      (write_at 4 memory written 1 (0 ∷ [])).1
write_at-WritesOwn_example =
    write_at-WritesOwn memory-IsDisk 4 written 1 (0 ∷ []) (omega arith) written-IsDirty
