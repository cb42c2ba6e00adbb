-- ===== src/Crc32c/Masked.antt =====
-- Masked checksums (util/crc32c.h).
use pebblesdb.Common.{ℕ, ◌/◌, ◌%◌, ◌^◌, ◌<◌, ◌≡◌, arith}
use pebblesdb.Common.Bits.{bit_or_low_high}
use pebblesdb.Crc32c.{mask, unmask}

-- Unmask gives back the 32-bit checksum that Mask was applied to.
pub unmask-mask : (crc : ℕ) → crc < 2 ^ 32 → unmask (mask crc) ≡ crc
unfolding mask unmask
unmask-mask crc h = ground (
  arith,
  bit_or_low_high 17 (crc / 2 ^ 15) (crc % 2 ^ 15),
  bit_or_low_high 15 (crc % 2 ^ 15) (crc / 2 ^ 15),
)

pub mask-lt : (crc : ℕ) → mask crc < 2 ^ 32
unfolding mask
mask-lt crc = omega arith
