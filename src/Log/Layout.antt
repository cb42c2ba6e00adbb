-- ===== src/Log/Layout.antt =====
-- The bytes of a log record (db/log_writer.cc).
use pebblesdb.Common.{
  ℕ, zero, suc, ◌+◌, ◌-◌, ◌/◌, ◌%◌, ◌^◌, ◌<◌, ◌≤◌, ◌≡◌, refl, Bool, true, false, [], ◌∷◌, ◌++◌,
  Bytes, bit_and, arith, ltb, ◌==◌, if◌then◌else◌, length, take, drop, replicate, length-append,
  length-drop,
}
use pebblesdb.Common.Bits.{bit_and_mask}
use pebblesdb.Coding.{encode_fixed32}
use pebblesdb.Crc32c.{mask}
use pebblesdb.Coding.Fixed.{length-encode_fixed32}
use pebblesdb.Log.{RecordType, record_type_code, k_block_size, k_header_size}
use pebblesdb.Log.Writer.{type_crc, in_block, record_header, fragment_type}

-- The bytes left in the block of an offset.
abbrev pub leftover_at : ℕ → ℕ
leftover_at offset = k_block_size - offset % k_block_size

-- How many zeros fill a block too short for a header.
abbrev pub trailer_size : ℕ → ℕ
trailer_size offset = if ltb (leftover_at offset) k_header_size then leftover_at offset else 0

abbrev pub trailer : ℕ → Bytes
trailer offset = replicate (trailer_size offset) 0

-- Where the next physical record starts.
abbrev pub aligned : ℕ → ℕ
aligned offset = offset + trailer_size offset

-- How many bytes of the payload go into a fragment at an offset.
abbrev pub share : ℕ → Bytes → ℕ
share offset ptr =
    let avail = leftover_at offset - k_header_size in
    if ltb (length ptr) avail then length ptr else avail

pub in_block-eq-mod : (offset : ℕ) → in_block offset ≡ offset % k_block_size
in_block-eq-mod offset = bit_and_mask 15 offset

module _ (extend : ℕ → Bytes → ℕ) where
  abbrev pub physical : RecordType → Bytes → Bytes
  physical t ptr = record_header extend t ptr ++ ptr

  -- The fragment at an aligned offset, and those behind it.
  abbrev pub fragment_at : (ℕ → Bytes → Bytes) → Bool → ℕ → Bytes → Bytes
  fragment_at next begin offset ptr =
      let n = share offset ptr in
      physical (fragment_type begin (length ptr == n)) (take n ptr)
      ++ next (offset + k_header_size + n) (drop n ptr)

  -- The bytes of a record at an offset of the file.
  abbrev pub fragments : ℕ → ℕ → Bytes → Bytes
  fragments zero offset ptr = []
  fragments (suc fuel) offset [] = []
  fragments (suc fuel) offset (b ∷ bs) =
      trailer offset ++ fragment_at (fragments fuel) false (aligned offset) (b ∷ bs)

  abbrev pub record_bytes : ℕ → ℕ → Bytes → Bytes
  record_bytes fuel offset ptr =
      trailer offset ++ fragment_at (fragments fuel) true (aligned offset) ptr

-- The trailer leaves room for a header in the block.
pub aligned_room : (offset : ℕ) → k_header_size ≤ leftover_at (aligned offset)
aligned_room offset = ground arith

-- Fuel that lasts for a payload: one more round when only a header fits into the block.
abbrev pub Lasts : ℕ → ℕ → Bytes → Type 0
Lasts fuel offset ptr =
    length ptr + (if leftover_at (aligned offset) == k_header_size then 1 else 0) < fuel

pub Lasts-rest :
    (fuel offset : ℕ) (ptr : Bytes)
    → Lasts (suc fuel) offset ptr
    → share (aligned offset) ptr < length ptr
    → Lasts fuel
        (aligned offset + k_header_size + share (aligned offset) ptr)
        (drop (share (aligned offset) ptr) ptr)
Lasts-rest fuel offset ptr lasts more = ground (arith, length-drop (share (aligned offset) ptr) ptr)

module _ (extend : ℕ → Bytes → ℕ) where
  pub fragments-nil : (fuel offset : ℕ) → fragments extend fuel offset [] ≡ []
  fragments-nil zero offset = refl
  fragments-nil (suc fuel) offset = refl

  pub length-record_header :
      (t : RecordType) (ptr : Bytes) → length (record_header extend t ptr) ≡ k_header_size
  unfolding record_header
  length-record_header t ptr =
      let crc = mask (extend (type_crc extend t) ptr) in
      omega (
        arith,
        length-append (encode_fixed32 crc)
            (bit_and (length ptr) 0xff ∷ length ptr / 2 ^ 8 ∷ record_type_code t ∷ []),
        length-encode_fixed32 crc,
      )
