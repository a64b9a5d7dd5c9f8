-- ===== src/Base/Int.antt =====
-- Signed 64-bit integers: the integers that bit patterns below 2 ^ 64 stand for.
use Prim.Native.Nat.{ℕ, ◌-◌, ◌^◌}
use werunos.Base.Tests.{ltb, if◌then◌else◌}

-- `negsuc n` is -(n + 1).
pub data ℤ : Type 0 where
  pos : ℕ → ℤ
  negsuc : ℕ → ℤ

-- `int64(u)` of an unsigned 64-bit `u`.
abbrev pub int64 : ℕ → ℤ
int64 u = if ltb u (2 ^ 63) then pos u else negsuc (2 ^ 64 - u - 1)
