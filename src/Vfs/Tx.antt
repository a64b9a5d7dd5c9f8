-- ===== src/Vfs/Tx.antt =====
-- The transactions of vfs/journal_writer.go: `TxDevice` keeps the blocks that a transaction writes
-- in memory, over a device that it reads and does not write.
-- Offsets are those that are not negative, of ranges below 2^63.
pub mod Map
pub mod View
pub mod Reads
pub mod Merge
pub mod Writes
pub mod Commit
mod Runs
use Prim.Native.Nat.{max}
use werunos.Base.{
  ℕ, zero, suc, ◌+◌, ◌-◌, ◌*◌, ◌/◌, min, Option, none, some, List, [], ◌∷◌, length, zeros, copy_at,
  slice, ltb, ◌==◌, if◌then◌else◌,
}
use werunos.Block.Device.{IoError, eof, fault, Reply, Written, ReadWriterAt}
use werunos.Vfs.Tx.Map.{Dirty, lookup, store}

-- The state of a device inside a transaction: the dirty blocks, and the state of the inner device.
pub record TxState (d : ReadWriterAt) : Type 0 where
  pub dirty : Dirty
  pub inner : d.State

module _ (block_size : ℕ) where
  -- One round of the loop of `ReadAt`, over what has been read so far at `off`.
  unfoldable pub overlay_block : ℕ → ℕ × List ℕ → List ℕ → List ℕ
  overlay_block off (block_num, block_data) p =
      let block_start = block_num * block_size in
      let overlap_start = max off block_start in
      let overlap_end = min (off + length p) (block_start + block_size) in
      if ltb overlap_start overlap_end
      then copy_at p (overlap_start - off)
          (slice block_data (overlap_start - block_start) (overlap_end - overlap_start))
      else p

  unfoldable pub overlay : ℕ → Dirty → List ℕ → List ℕ
  unfolding overlay_block
  overlay off [] p = p
  overlay off (b ∷ dirty) p = overlay off dirty (overlay_block off b p)

  -- A block with the part of the write of `p` at `off` that lies in it.
  unfoldable pub merge : ℕ → List ℕ → ℕ → List ℕ → List ℕ
  merge off p block_num block_data =
      let block_start = block_num * block_size in
      let overlap_start = max off block_start in
      let overlap_end = min (off + length p) (block_start + block_size) in
      copy_at block_data (overlap_start - block_start)
        (slice p (overlap_start - off) (overlap_end - overlap_start))

  module _ (d : ReadWriterAt) where
    unfoldable pub read_at : TxState d → ℕ → ℕ → TxState d × Reply
    read_at st off n =
        let (s, r) = d.read_at st.inner off n in
        let st' : TxState d = record { dirty = st.dirty; inner = s } in
        elim r.err [
          | some fault ↦ (st', r)
          | _ ↦ (st', record { bytes = overlay off st.dirty r.bytes; err = r.err })
        ]

    -- The block as the transaction holds it, or as it is read from the inner device.
    unfoldable pub load_block : TxState d → ℕ → d.State × List ℕ × Option IoError
    load_block st block_num =
        let (s, r) = d.read_at st.inner (block_num * block_size) block_size in
        elim (lookup block_num st.dirty) [
          | some block_data ↦ (st.inner, block_data, none)
          | none ↦ (
            s,
            copy_at (zeros block_size) 0 r.bytes,
            elim r.err [ some fault ↦ some fault | _ ↦ none ],
          )
        ]

    -- The loop of `WriteAt`, from `block_num` on with `n` blocks left.
    unfoldable pub write_blocks : ℕ → ℕ → ℕ → List ℕ → TxState d → TxState d × Option IoError
    write_blocks zero block_num off p st = (st, none)
    write_blocks (suc n) block_num off p st =
        let (s, block_data, e) = load_block st block_num in
        let next : TxState d = record {
          dirty = store block_num (merge off p block_num block_data) st.dirty;
          inner = s;
        } in
        elim e [
          | some x ↦ (record { dirty = st.dirty; inner = s }, some x)
          | none ↦ write_blocks n (block_num + 1) off p next
        ]

    unfoldable pub write_at : TxState d → ℕ → List ℕ → TxState d × Written
    write_at st off p =
        let start_block = off / block_size in
        let end_block = (off + length p - 1) / block_size in
        let (st', e) = write_blocks (end_block + 1 - start_block) start_block off p st in
        if length p == 0 then (st, record { count = 0; err = none }) else (
          st',
          elim e [
            | some x ↦ record { count = 0; err = some x }
            | none ↦ record { count = length p; err = none }
          ],
        )

    -- `writeDirtyBlocksDirectly`, up to the first error.
    unfoldable pub write_dirty : Dirty → d.State → d.State × Option IoError
    write_dirty [] s = (s, none)
    write_dirty ((block_num, block_data) ∷ rest) s =
        let (s', w) = d.write_at s (block_num * block_size) block_data in
        elim w.err [ some e ↦ (s', some e) | none ↦ write_dirty rest s' ]

-- `fs.dev`: the device itself, or a `TxDevice` over it.
pub data Dev (d : ReadWriterAt) : Type 0 where
  direct : d.State → Dev d
  in_tx : TxState d → Dev d

module _ {d : ReadWriterAt} where
  -- `BeginTransaction`; a second one joins the first.
  unfoldable pub begin : Dev d → Dev d
  begin (direct s) = in_tx (record { dirty = []; inner = s })
  begin (in_tx st) = in_tx st

  -- `CommitTransaction` where the superblock names no journal.
  unfoldable pub commit_without_journal : ℕ → Dev d → Dev d × Option IoError
  commit_without_journal block_size (direct s) = (direct s, none)
  commit_without_journal block_size (in_tx st) =
      let (s, e) = write_dirty block_size d st.dirty st.inner in (direct s, e)

  unfoldable pub rollback : Dev d → Dev d
  rollback (direct s) = direct s
  rollback (in_tx st) = direct st.inner
