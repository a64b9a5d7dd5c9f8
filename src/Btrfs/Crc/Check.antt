-- ===== src/Btrfs/Crc/Check.antt =====
-- The check value of CRC-32C: that of the digits 1 to 9.
use werunos.Base.{◌≡◌, refl, [], ◌∷◌}
use werunos.Btrfs.Crc.{calc_crc32c, crc_bytes, crc_bits}

digits_run :
    calc_crc32c (0x31 ∷ 0x32 ∷ 0x33 ∷ 0x34 ∷ 0x35 ∷ 0x36 ∷ 0x37 ∷ 0x38 ∷ 0x39 ∷ []) ≡ 0xe3069283
unfolding calc_crc32c crc_bytes crc_bits
digits_run = refl
