-- ===== src/Vfs/Tx/Reads.antt =====
-- `TxDevice.ReadAt` reads what the transaction has written.
use werunos.Base.{ℕ, ◌+◌, ◌≤◌, ◌<◌, ◌≡◌, ◌≢◌, none, some, length, byte_at}
use werunos.Block.Device.{fault, Reply}

-- A read of `n` bytes at `off` of what a transaction sees: it changes nothing, and answers truly
-- unless the inner device fails.
pub record ReadsOwn (before after : ℕ → ℕ) (off n : ℕ) (r : Reply) : Type 0 where
  pub kept : (i : ℕ) → after i ≡ before i
  pub fits : length r.bytes ≤ n
  pub same :
      r.err ≢ some fault → (i : ℕ) → i < length r.bytes → byte_at r.bytes i ≡ before (off + i)
  pub full : r.err ≡ none → length r.bytes ≡ n
