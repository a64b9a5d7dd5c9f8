-- ===== src/Block/Device.antt =====
-- `block.ReadWriterAt` (block/device.go), and what the code relies on of a disk behind it: the
-- documented contract of `io.ReaderAt` and `io.WriterAt`, with a state for what a disk holds.
-- An offset is a non-negative int64.
use werunos.Base.{
  ℕ, ◌+◌, ◌≤◌, ◌<◌, ◌≡◌, ◌≢◌, refl, ◌⊎◌, Option, none, some, List, length, byte_at, patch,
}

-- `io.EOF`, and every other error of a device.
pub data IoError : Type 0 where
  eof fault : IoError

-- The result of `ReadAt(buf, off)`: `buf[:n]` and the error.
pub record Reply : Type 0 where
  pub bytes : List ℕ
  pub err : Option IoError

-- The result of `WriteAt(buf, off)`: `n` and the error.
pub record Written : Type 0 where
  pub count : ℕ
  pub err : Option IoError

-- `read_at s off n` reads into a buffer of `n` bytes. A read may change the state (a cache).
pub record ReadWriterAt : Type 1 where
  pub State : Type 0
  pub read_at : State → ℕ → ℕ → State × Reply
  pub write_at : State → ℕ → List ℕ → State × Written

-- A read delivers true bytes from the front of the range: all of them unless there is an error, and
-- `eof` only where nothing but the end of the disk, which counts as zeros, is left out.
pub record ReadsTrue (before after : ℕ → ℕ) (off n : ℕ) (r : Reply) : Type 0 where
  pub kept : (i : ℕ) → after i ≡ before i
  pub fits : length r.bytes ≤ n
  pub same : (i : ℕ) → i < length r.bytes → byte_at r.bytes i ≡ before (off + i)
  pub full : r.err ≡ none → length r.bytes ≡ n
  pub ended : r.err ≡ some eof → (i : ℕ) → length r.bytes ≤ i → before (off + i) ≡ 0

-- A write leaves each byte old or new, and all of the range new if there is no error.
pub record WritesTrue (before after : ℕ → ℕ) (off : ℕ) (p : List ℕ) (w : Written) : Type 0 where
  pub torn : (i : ℕ) → (after i ≡ before i) ⊎ (after i ≡ patch before off p i)
  pub fits : w.count ≤ length p
  pub full : w.err ≡ none → w.count ≡ length p
  pub done : w.err ≡ none → (i : ℕ) → after i ≡ patch before off p i

-- The contract: a device whose state holds a byte at each offset.
pub record IsDisk (d : ReadWriterAt) : Type 0 where
  pub content : d.State → ℕ → ℕ
  pub reads :
      (s : d.State) (off n : ℕ)
      → ReadsTrue (content s) (content (d.read_at s off n).0) off n (d.read_at s off n).1
  pub writes :
      (s : d.State) (off : ℕ) (p : List ℕ)
      → WritesTrue (content s) (content (d.write_at s off p).0) off p (d.write_at s off p).1

-- What holds of both outcomes of a test for a failed read, each under it, holds of the result.
pub unless_fault {ℓ κ} :
    {A : Type ℓ} (P : A → Type κ) (e : Option IoError) {x y : A}
    → (e ≡ some fault → P x)
    → (e ≢ some fault → P y)
    → P (elim e [ some fault ↦ x | _ ↦ y ])
unless_fault P none hx hy = hy (λ p. cc)
unless_fault P (some eof) hx hy = hy (λ p. cc)
unless_fault P (some fault) hx hy = hx refl
