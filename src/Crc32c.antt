-- ===== src/Crc32c.antt =====
-- util/crc32c.h: the form in which a checksum is stored, and what Extend promises.
pub mod Masked
use pebblesdb.Common.{ℕ, ◌+◌, ◌-◌, ◌*◌, ◌/◌, ◌%◌, ◌^◌, ◌<◌, ◌≡◌, bit_or, ◌++◌, [], Bytes}

abbrev k_mask_delta : ℕ
k_mask_delta = 0xa282ead8

-- Mask
unfoldable pub mask : ℕ → ℕ
mask crc = (bit_or (crc / 2 ^ 15) (crc * 2 ^ 17 % 2 ^ 32) + k_mask_delta) % 2 ^ 32

-- Unmask
unfoldable pub unmask : ℕ → ℕ
unmask masked_crc =
    let rot = (masked_crc + 2 ^ 32 - k_mask_delta) % 2 ^ 32 in
    bit_or (rot / 2 ^ 17) (rot * 2 ^ 15 % 2 ^ 32)

-- What crc32c.h documents of Extend: it takes the checksum of A to the checksum of A followed by the
-- data, a 32-bit number.
pub record IsExtend (extend : ℕ → Bytes → ℕ) : Type 0 where
  pub chain : (crc : ℕ) (a b : Bytes) → extend (extend crc a) b ≡ extend crc (a ++ b)
  pub word : (crc : ℕ) (a : Bytes) → extend crc a < 2 ^ 32

-- Value
abbrev pub crc_value : (ℕ → Bytes → ℕ) → Bytes → ℕ
crc_value extend bytes = extend 0 bytes
