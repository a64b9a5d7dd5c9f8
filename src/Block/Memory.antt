-- ===== src/Block/Memory.antt =====
-- A disk in memory, of a fixed size: an instance of the contract for the runs of the other modules.
use werunos.Base.{
  ℕ, ◌+◌, ◌≤◌, ◌≡◌, refl, ◌∙◌, none, some, List, length, byte_at, slice, copy_at, patch,
  byte_at-slice, length-slice, length-copy_at, byte_at-copy_at, get_or-past, arith, ltb, leb, ◌==◌,
  if◌then◌else◌, inl, inr, if_both, Bool-cases, ltb→lt, ltb-false→le,
}
use werunos.Block.Device.{eof, fault, Reply, Written, ReadWriterAt, ReadsTrue, WritesTrue, IsDisk}

abbrev pub memory_read : List ℕ → ℕ → ℕ → Reply
memory_read s off n =
    let bytes : List ℕ = slice s off n in
    record { bytes = bytes; err = if length bytes == n then none else some eof }

abbrev pub memory : ReadWriterAt
memory = record {
  State = List ℕ;
  read_at = λ s off n. (s, memory_read s off n);
  write_at = λ s off p.
      if leb (off + length p) (length s)
      then (copy_at s off p, record { count = length p; err = none })
      else (s, record { count = 0; err = some fault });
}

pub memory-ReadsTrue :
    (s : List ℕ) (off n : ℕ) → ReadsTrue (byte_at s) (byte_at s) off n (memory_read s off n)
memory-ReadsTrue s off n = record {
  kept = λ i. refl;
  fits = omega (arith, length-slice s off n);
  same = λ i lt. byte_at-slice s off n i (omega (arith, length-slice s off n));
  full = λ e. ground arith;
  ended = λ e i lt. ended i (short e) lt;
}
  where
    short :
        (if length (slice s off n) == n then none else some eof) ≡ some eof
        → length s ≤ off + length (slice s off n)
    short e = ground (arith, length-slice s off n)

    ended :
        (i : ℕ)
        → length s ≤ off + length (slice s off n)
        → length (slice s off n) ≤ i
        → byte_at s (off + i) ≡ 0
    ended i e lt = get_or-past s (off + i) 0 (omega arith)

pub memory-WritesTrue :
    (s : List ℕ) (off : ℕ) (p : List ℕ)
    → WritesTrue (byte_at s) (byte_at (memory.write_at s off p).0) off p (memory.write_at s off p).1
memory-WritesTrue s off p =
    if_both {A = List ℕ × Written} (λ x. WritesTrue (byte_at s) (byte_at x.0) off p x.1)
      (leb (off + length p) (length s))
      (λ h. record {
        torn = λ i. inr (patched i (ground arith));
        fits = omega arith;
        full = λ _. refl;
        done = λ _ i. patched i (ground arith);
      })
      λ _. record { torn = λ i. inl refl; fits = omega arith; full = λ e. cc; done = λ e. cc }
  where
    patched :
        (i : ℕ)
        → off + length p ≤ length s
        → byte_at (copy_at s off p) i ≡ patch (byte_at s) off p i
    patched i h = elim (Bool-cases (ltb i (length s))) [
      | inl lt ↦ byte_at-copy_at s off p i (ltb→lt _ _ lt)
      | inr ge ↦
          get_or-past (copy_at s off p) i 0
            (omega (arith, length-copy_at s off p, ltb-false→le _ _ ge))
          ∙ ground (arith, get_or-past s i 0)
    ]

abbrev pub memory-IsDisk : IsDisk memory
memory-IsDisk = record { content = byte_at; reads = memory-ReadsTrue; writes = memory-WritesTrue }
