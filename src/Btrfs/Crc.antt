-- ===== src/Btrfs/Crc.antt =====
-- btrfs/writer.go: `calcCrc32c`, with the table that `init` makes.
mod Check
use Prim.Native.Nat.{bit_xor}
use native.Mathlib.Nat.{mod-lt}
use werunos.Base.{
  arith, ◌<◌, ◌*◌, ℕ, zero, suc, ◌+◌, ◌-◌, ◌/◌, ◌%◌, ◌^◌, List, [], ◌∷◌, ◌==◌, if◌then◌else◌,
}

-- One bit of an entry of the table.
abbrev crc_bit : ℕ → ℕ
crc_bit crc = if crc % 2 == 0 then crc / 2 else bit_xor 0x82f63b78 (crc / 2)

unfoldable pub crc_bits : ℕ → ℕ → ℕ
crc_bits zero crc = crc
crc_bits (suc n) crc = crc_bits n (crc_bit crc)

abbrev crc_table : ℕ → ℕ
crc_table i = crc_bits 8 i

unfoldable pub crc_bytes : List ℕ → ℕ → ℕ
crc_bytes [] crc = crc
crc_bytes (b ∷ bytes) crc =
    crc_bytes bytes (bit_xor (crc_table (bit_xor (crc % 256) b)) (crc / 256))

unfoldable pub calc_crc32c : List ℕ → ℕ
calc_crc32c bytes = bit_xor (crc_bytes bytes (2 ^ 32 - 1)) (2 ^ 32 - 1) % 2 ^ 32

pub calc_crc32c-lt : (bytes : List ℕ) → calc_crc32c bytes < 256 ^ 4
unfolding calc_crc32c
calc_crc32c-lt bytes = mod-lt (bit_xor (crc_bytes bytes (2 ^ 32 - 1)) (2 ^ 32 - 1)) (omega arith)
