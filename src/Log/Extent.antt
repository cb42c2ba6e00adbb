-- ===== src/Log/Extent.antt =====
-- How many bytes a record takes, and how many AddRecord reserves (db/log_writer.cc).
use pebblesdb.Common.{
  ℕ, zero, suc, ◌+◌, ◌-◌, ◌*◌, ◌/◌, ◌%◌, ◌^◌, ◌<◌, ◌≡◌, refl, Bool, true, false, [], ◌∷◌, ◌++◌,
  Bytes, bit_and, arith, leb, ◌==◌, if◌then◌else◌, length, take, drop, length-append, length-take,
  length-drop, length-replicate,
}
use pebblesdb.Common.Bits.{bit_and_mask, bit_and_shifted}
use pebblesdb.Log.{k_block_size, k_header_size}
use pebblesdb.Log.Writer.{
  block_mask, record_header, fragment_type, compute_record_size, roundup, end_offset,
}
use pebblesdb.Log.Layout.{
  leftover_at, trailer_size, trailer, aligned, share, in_block-eq-mod, physical, fragment_at,
  fragments, record_bytes, Lasts, length-record_header,
}

-- The size of the fragments of `n` payload bytes from the start of a block on, where `n` is not 0.
abbrev pub blocks_size : ℕ → ℕ
blocks_size n =
    let per_block = k_block_size - k_header_size in
    (n - 1) / per_block * k_block_size + k_header_size + (n - 1) % per_block + 1

-- The end of the bytes of a record of `size` bytes.
abbrev pub record_end : ℕ → ℕ → ℕ
record_end offset size =
    let start = aligned offset in
    let left = leftover_at start in
    if leb (k_header_size + size) left
    then start + k_header_size + size
    else start + left + blocks_size (k_header_size + size - left)

-- Whether a record is continued in further blocks and ends with the last of them.
abbrev pub fills_block : ℕ → ℕ → Bool
fills_block offset size =
    let left = leftover_at (aligned offset) in
    if leb (k_header_size + size) left
    then false
    else (k_header_size + size - left) % (k_block_size - k_header_size) == 0

module _ (extend : ℕ → Bytes → ℕ) where
  length-fragment_at :
      (next : ℕ → Bytes → Bytes) (begin : Bool) (o : ℕ) (ptr : Bytes)
      → length (fragment_at extend next begin o ptr)
        ≡ k_header_size
          + share o ptr
          + length (next (o + k_header_size + share o ptr) (drop (share o ptr) ptr))
  length-fragment_at next begin o ptr =
      let n = share o ptr in
      let type = fragment_type begin (length ptr == n) in
      ground (
        arith,
        length-append (physical extend type (take n ptr))
            (next (o + k_header_size + n) (drop n ptr)),
        length-append (record_header extend type (take n ptr)) (take n ptr),
        length-record_header extend type (take n ptr),
        length-take n ptr,
      )

  pub length-turn :
      (next : ℕ → Bytes → Bytes) (begin : Bool) (o : ℕ) (ptr : Bytes)
      → o + length (trailer o ++ fragment_at extend next begin (aligned o) ptr)
        ≡ aligned o
          + k_header_size
          + share (aligned o) ptr
          + length (
              next
                (aligned o + k_header_size + share (aligned o) ptr)
                (drop (share (aligned o) ptr) ptr))
  length-turn next begin o ptr = omega (
    arith,
    length-append (trailer o) (fragment_at extend next begin (aligned o) ptr),
    length-replicate {A = ℕ} (trailer_size o) 0,
    length-fragment_at next begin (aligned o) ptr,
  )

  -- Fragments from the start of a block on.
  length-fragments :
      (fuel o : ℕ) (ptr : Bytes)
      → (0 < length ptr → (o % k_block_size ≡ 0) × (length ptr < fuel))
      → length (fragments extend fuel o ptr)
        ≡ (if length ptr == 0 then 0 else blocks_size (length ptr))
  length-fragments zero o ptr h = ground (arith, h)
  length-fragments (suc fuel) o [] h = refl
  length-fragments (suc fuel) o (b ∷ bs) h =
      let p = aligned o in
      let n = share p (b ∷ bs) in
      let start : p % k_block_size ≡ 0 = ground (arith, (h (omega arith)).0) in
      ground (
        arith,
        h (omega arith),
        length-append (trailer o) (fragment_at extend (fragments extend fuel) false p (b ∷ bs)),
        length-replicate {A = ℕ} (trailer_size o) 0,
        length-fragment_at (fragments extend fuel) false p (b ∷ bs),
        length-drop n (b ∷ bs),
        length-fragments fuel (p + k_header_size + n) (drop n (b ∷ bs)) (λ more. (
          ground (arith, start, length-drop n (b ∷ bs)),
          ground (arith, start, h (omega arith), length-drop n (b ∷ bs)),
        )),
      )

  -- The bytes of a record end where `record_end` says.
  pub length-record_bytes :
      (fuel o : ℕ) (ptr : Bytes)
      → Lasts (suc fuel) o ptr
      → o + length (record_bytes extend fuel o ptr) ≡ record_end o (length ptr)
  length-record_bytes fuel o ptr lasts =
      let p = aligned o in
      let n = share p ptr in
      ground (
        arith,
        length-append (trailer o) (fragment_at extend (fragments extend fuel) true p ptr),
        length-replicate {A = ℕ} (trailer_size o) 0,
        length-fragment_at (fragments extend fuel) true p ptr,
        length-drop n ptr,
        length-fragments fuel (p + k_header_size + n) (drop n ptr)
            (λ more. (ground (arith, length-drop n ptr), ground (arith, length-drop n ptr))),
      )

bit_and-block_mask : (x : ℕ) → bit_and x block_mask ≡ x % 2 ^ 32 / k_block_size * k_block_size
bit_and-block_mask x =
    ground (arith, bit_and_shifted 15 x (2 ^ 17 - 1), bit_and_mask 17 (x / 2 ^ 15))

roundup-eq-aligned : (o : ℕ) → o + k_header_size < 2 ^ 32 → roundup o ≡ aligned o
unfolding roundup
roundup-eq-aligned o h =
    rw (in_block-eq-mod o, bit_and-block_mask ((o + k_header_size) % 2 ^ 64)) (ground arith)

roundup-mod :
    (o : ℕ)
    → o + k_header_size < 2 ^ 64
    → leftover_at o < k_header_size
    → o % 2 ^ 32 + k_header_size < 2 ^ 32
    → roundup o ≡ roundup (o % 2 ^ 32)
unfolding roundup
roundup-mod o h short low =
    rw
      (
        in_block-eq-mod o,
        in_block-eq-mod (o % 2 ^ 32),
        bit_and-block_mask ((o + k_header_size) % 2 ^ 64),
        bit_and-block_mask ((o % 2 ^ 32 + k_header_size) % 2 ^ 64),
      )
      (ground arith)

pub end_offset-eq-record_end :
    (o size : ℕ)
    → o + k_header_size < 2 ^ 32
    → size < 2 ^ 32
    → end_offset o size ≡ record_end o size + (if fills_block o size then k_header_size else 0)
unfolding end_offset compute_record_size
end_offset-eq-record_end o size h hs =
    rw (roundup-eq-aligned o (omega arith), in_block-eq-mod (aligned o)) (ground arith)

-- Behind 4 GiB, where a block is too short for a header: the mask that rounds the offset up has only
-- 32 bits, so AddRecord reserves the place that it would in a file shorter by a multiple of 4 GiB.
pub end_offset-mod :
    (o size : ℕ)
    → o + k_header_size < 2 ^ 64
    → leftover_at o < k_header_size
    → o % 2 ^ 32 + k_header_size < 2 ^ 32
    → end_offset o size ≡ end_offset (o % 2 ^ 32) size
unfolding end_offset
end_offset-mod o size h short low = rw (roundup-mod o h short low) refl
