-- ===== src/Log/Physical.antt =====
-- ReadPhysicalRecord on what EmitPhysicalRecordAt wrote (db/log_reader.cc).
use pebblesdb.Common.{
  ℕ, ◌+◌, ◌*◌, ◌/◌, ◌%◌, ◌^◌, ◌<◌, ◌≤◌, ◌≡◌, refl, sym, ap, ◌∙◌, [], ◌∷◌, ◌++◌, Bytes, bit_and,
  bit_or, arith, length, take, drop, get_or, append_assoc, length-append, take-append,
  take-append_of, drop-append_of,
}
use pebblesdb.Common.Bits.{bit_and_255, bit_or_low_high}
use pebblesdb.Coding.{encode_fixed32, decode_fixed32}
use pebblesdb.Coding.Fixed.{decode_fixed32-encode_fixed32}
use pebblesdb.Crc32c.{IsExtend, mask, unmask, crc_value}
use pebblesdb.Crc32c.Masked.{unmask-mask, mask-lt}
use pebblesdb.Log.{
  RecordType, zero_type, full_type, first_type, middle_type, last_type, record_type_code,
  k_header_size, SequentialFile,
}
use pebblesdb.Log.Writer.{record_header, type_crc}
use pebblesdb.Log.Layout.{physical, length-record_header}
use pebblesdb.Log.Reader.{
  Reader, Options, parse_fields, parse_record, check_crc, take_record, char_to_unsigned,
}

pub header_length :
    (n : ℕ)
    → n < 2 ^ 16
    → bit_or (bit_and (bit_and n 0xff) 0xff) (bit_and (n / 2 ^ 8) 0xff * 2 ^ 8) ≡ n
header_length n h = simp bit_and_255 (ground (arith, bit_or_low_high 8 (n % 256) (n / 256 % 256)))

header_type : (t : RecordType) → char_to_unsigned (record_type_code t) ≡ record_type_code t
header_type zero_type = refl
header_type full_type = refl
header_type first_type = refl
header_type middle_type = refl
header_type last_type = refl

-- The parts of the buffer that ReadPhysicalRecord looks at, when it begins with a physical record.
module _ (extend : ℕ → Bytes → ℕ) (t : RecordType) (ptr rest : Bytes) where
  abbrev pub stored : Bytes
  stored = physical extend t ptr ++ rest

  pub stored_fields :
      (get_or stored 4 0 ≡ bit_and (length ptr) 0xff)
      × (get_or stored 5 0 ≡ length ptr / 2 ^ 8)
      × (get_or stored 6 0 ≡ record_type_code t)
      × (drop k_header_size stored ≡ ptr ++ rest)
      × (drop 6 stored ≡ record_type_code t ∷ ptr ++ rest)
  unfolding record_header encode_fixed32
  stored_fields = (refl, refl, refl, refl, refl)

  stored_crc :
      IsExtend extend → unmask (decode_fixed32 stored) ≡ extend 0 (record_type_code t ∷ ptr)
  unfolding record_header
  stored_crc good =
      let crc = extend (type_crc extend t) ptr in
      let tail = bit_and (length ptr) 0xff ∷ length ptr / 2 ^ 8 ∷ record_type_code t ∷ [] in
      ap (λ b. unmask (decode_fixed32 b))
        (append_assoc (encode_fixed32 (mask crc) ++ tail) ptr rest
          ∙ append_assoc (encode_fixed32 (mask crc)) tail (ptr ++ rest))
      ∙ ap unmask (decode_fixed32-encode_fixed32 (mask crc) (tail ++ (ptr ++ rest)) (mask-lt crc))
      ∙ unmask-mask crc (good.word (type_crc extend t) ptr)
      ∙ good.chain 0 (record_type_code t ∷ []) ptr

  pub length-stored : length stored ≡ k_header_size + length ptr + length rest
  length-stored = ground (
    arith,
    length-append (physical extend t ptr) rest,
    length-append (record_header extend t ptr) ptr,
    length-record_header extend t ptr,
  )

  drop-stored : drop (k_header_size + length ptr) stored ≡ rest
  drop-stored = drop-append_of (k_header_size + length ptr) (physical extend t ptr) rest (
      ground
        (arith, length-append (record_header extend t ptr) ptr, length-record_header extend t ptr))

module _ (extend : ℕ → Bytes → ℕ) {F : Type 0} (sequential : SequentialFile F) (options : Options)
    (from_start : options.initial_offset ≡ 0) where
  take_record_lem :
      (type len : ℕ) (r : Reader F)
      → take_record extend sequential options type len r ≡ (
        type,
        take len (drop k_header_size r.buffer),
        record r { buffer = drop (k_header_size + len) r.buffer },
      )
  unfolding take_record
  take_record_lem type len r = rw from_start (ground arith)

  check_crc_lem :
      (type len : ℕ) (r : Reader F)
      → unmask (decode_fixed32 r.buffer) ≡ crc_value extend (take (1 + len) (drop 6 r.buffer))
      → check_crc extend sequential options type len r
        ≡ take_record extend sequential options type len r
  unfolding check_crc
  check_crc_lem type len r crc = ground (arith, crc)

  parse_fields_lem :
      (type len : ℕ) (r : Reader F)
      → k_header_size + len ≤ length r.buffer
      → 0 < type
      → parse_fields extend sequential options type len r
        ≡ check_crc extend sequential options type len r
  unfolding parse_fields
  parse_fields_lem type len r fits used = ground arith

  -- A physical record at the front of the buffer is taken out of it.
  pub parse_record_lem :
      (t : RecordType) (ptr rest : Bytes) (r : Reader F)
      → IsExtend extend
      → 0 < record_type_code t
      → length ptr < 2 ^ 16
      → parse_record extend sequential options (record r { buffer = stored extend t ptr rest })
        ≡ (record_type_code t, ptr, record r { buffer = rest })
  unfolding parse_record
  parse_record_lem t ptr rest r good used small =
      let (low, high, type, behind, covered) = stored_fields extend t ptr rest in
      let r' : Reader F = record r { buffer = stored extend t ptr rest } in
      rw (low, high, type, header_length (length ptr) small, header_type t)
        (parse_fields_lem (record_type_code t) (length ptr) r'
            (omega (arith, length-stored extend t ptr rest)) used
          ∙ check_crc_lem (record_type_code t) (length ptr) r' (
              stored_crc extend t ptr rest good
              ∙ ap (extend 0) (
                  sym (
                    rw covered (
                      take-append_of (1 + length ptr) (record_type_code t ∷ ptr) rest
                        (omega arith)))))
          ∙ take_record_lem (record_type_code t) (length ptr) r'
          ∙ rw (behind, drop-stored extend t ptr rest, take-append ptr rest) refl)
