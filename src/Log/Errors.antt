-- ===== src/Log/Errors.antt =====
-- Physical records that ReadPhysicalRecord refuses, and the gap that AddRecord can leave
-- (db/log_reader.cc).
use Prim.Native.String.{String}
use pebblesdb.Common.{
  ℕ, ◌+◌, ◌*◌, ◌^◌, ◌<◌, ◌≤◌, ◌≡◌, ◌≢◌, refl, ◌∙◌, true, false, Option, none, some, [], Bytes,
  arith, if◌then◌else◌, length, take, drop, bit_or, bit_and, get_or,
}
use pebblesdb.Crc32c.{unmask, crc_value}
use pebblesdb.Coding.{decode_fixed32}
use pebblesdb.Log.{k_header_size, SequentialFile}
use pebblesdb.Log.Reader.{
  Reader, Options, read_physical_record, parse_record, parse_fields, check_crc, char_to_unsigned,
  k_eof, k_bad_record, report_corruption, clear_buffer,
}

-- The type and the length in a header.
abbrev pub stored_type : Bytes → ℕ
stored_type buffer = char_to_unsigned (get_or buffer 6 0)

abbrev pub stored_length : Bytes → ℕ
stored_length buffer =
    bit_or (bit_and (get_or buffer 4 0) 0xff) (bit_and (get_or buffer 5 0) 0xff * 2 ^ 8)

module _ (extend : ℕ → Bytes → ℕ) {F : Type 0} (sequential : SequentialFile F)
    (options : Options) where
  -- A refusal: the whole buffer is dropped, and the drop is reported with a reason or not at all.
  abbrev pub Refuses : ℕ → Option String → Reader F → Type 0
  Refuses type none r =
      read_physical_record extend sequential options r
      ≡ (type, [], clear_buffer extend sequential options r)
  Refuses type (some reason) r = read_physical_record extend sequential options r ≡ (
    type,
    [],
    report_corruption extend sequential options (length r.buffer) reason
        (clear_buffer extend sequential options r),
  )

  parse_lem :
      (r : Reader F)
      → k_header_size ≤ length r.buffer
      → read_physical_record extend sequential options r
        ≡ parse_fields extend sequential options (stored_type r.buffer) (stored_length r.buffer) r
  unfolding read_physical_record parse_record
  parse_lem r full = ground arith

  pub fields_long :
      (type len : ℕ) (r : Reader F)
      → length r.buffer < k_header_size + len
      → parse_fields extend sequential options type len r ≡ (
          if r.eof then (k_eof, [], clear_buffer extend sequential options r) else (
            k_bad_record,
            [],
            report_corruption extend sequential options
                (length r.buffer)
                "bad record length"
                (clear_buffer extend sequential options r),
          ))
  unfolding parse_fields
  fields_long type len r long = ground arith

  fields_zero :
      (type len : ℕ) (r : Reader F)
      → k_header_size ≤ length r.buffer
      → type ≡ 0
      → len ≡ 0
      → parse_fields extend sequential options type len r
        ≡ (k_bad_record, [], clear_buffer extend sequential options r)
  unfolding parse_fields
  fields_zero type len r full t l = ground arith

  fields_differ :
      (type len : ℕ) (r : Reader F)
      → k_header_size + len ≤ length r.buffer
      → type + len ≢ 0
      → options.checksum ≡ true
      → unmask (decode_fixed32 r.buffer) ≢ crc_value extend (take (1 + len) (drop 6 r.buffer))
      → parse_fields extend sequential options type len r ≡ (
        k_bad_record,
        [],
        report_corruption extend sequential options
            (length r.buffer)
            "checksum mismatch"
            (clear_buffer extend sequential options r),
      )
  unfolding parse_fields check_crc
  fields_differ type len r fits used on differs = ground arith

  pub read_physical_record-Refuses :
      (r : Reader F)
      → k_header_size ≤ length r.buffer
      → (length r.buffer < k_header_size + stored_length r.buffer
          → r.eof ≡ true
          → Refuses k_eof none r)
        × (length r.buffer < k_header_size + stored_length r.buffer
            → r.eof ≡ false
            → Refuses k_bad_record (some "bad record length") r)
        × (stored_type r.buffer ≡ 0 → stored_length r.buffer ≡ 0 → Refuses k_bad_record none r)
        × (k_header_size + stored_length r.buffer ≤ length r.buffer
            → stored_type r.buffer + stored_length r.buffer ≢ 0
            → options.checksum ≡ true
            → unmask (decode_fixed32 r.buffer)
              ≢ crc_value extend (take (1 + stored_length r.buffer) (drop 6 r.buffer))
            → Refuses k_bad_record (some "checksum mismatch") r)
  read_physical_record-Refuses r full =
      let parsed = parse_lem r full in
      let type = stored_type r.buffer in
      let len = stored_length r.buffer in
      (
        λ long e. parsed ∙ fields_long type len r long ∙ rw e refl,
        λ long e. parsed ∙ fields_long type len r long ∙ rw e refl,
        λ t l. parsed ∙ fields_zero type len r full t l,
        λ fits used on differs. parsed ∙ fields_differ type len r fits used on differs,
      )
