-- ===== src/Log/Reader.antt =====
-- db/log_reader.h and db/log_reader.cc: Reader. What the reporter is told is the list of its calls, the
-- last one first.
use Prim.Native.String.{String}
use pebblesdb.Common.{
  ℕ, ◌+◌, ◌-◌, ◌*◌, ◌%◌, ◌^◌, Bool, true, false, ◌&&◌, not, List, [], ◌∷◌, Bytes, bit_and, bit_or,
  ltb, leb, ◌==◌, if◌then◌else◌, length, get_or, take, drop,
}
use pebblesdb.Coding.{decode_fixed32}
use pebblesdb.Status.{Status, corruption, is_ok}
use pebblesdb.Crc32c.{unmask, crc_value}
use pebblesdb.Log.{k_max_record_type, k_block_size, k_header_size, SequentialFile}

pub record Reader (F : Type 0) : Type 0 where
  pub file : F
  pub buffer : Bytes
  pub eof : Bool
  pub last_record_offset : ℕ
  pub end_of_buffer_offset : ℕ
  pub reports : List (ℕ × Status)

abbrev pub new_reader : {F : Type 0} → F → Reader F
new_reader file = record {
  file = file;
  buffer = [];
  eof = false;
  last_record_offset = 0;
  end_of_buffer_offset = 0;
  reports = [];
}

abbrev pub k_eof : ℕ
k_eof = k_max_record_type + 1

abbrev pub k_bad_record : ℕ
k_bad_record = k_max_record_type + 2

-- Subtraction of 64-bit words.
abbrev pub sub_word : ℕ → ℕ → ℕ
sub_word a b = (a + 2 ^ 64 - b % 2 ^ 64) % 2 ^ 64

-- `const unsigned int type = header[6]`, where a char is signed.
abbrev pub char_to_unsigned : ℕ → ℕ
char_to_unsigned byte = if ltb byte 128 then byte else byte + (2 ^ 32 - 256)

-- The reporter and the arguments of the constructor: whether there is a reporter, whether checksums
-- are verified, and where to start. `unknown_type` is the message that snprintf makes of a type.
pub record Options : Type 0 where
  pub has_reporter : Bool
  pub checksum : Bool
  pub initial_offset : ℕ
  pub unknown_type : ℕ → String

module _ (extend : ℕ → Bytes → ℕ) {F : Type 0} (sequential : SequentialFile F)
    (options : Options) where
  -- ReportDrop
  unfoldable pub report_drop : ℕ → Status → Reader F → Reader F
  report_drop bytes reason r =
      if options.has_reporter
        && leb options.initial_offset
            (sub_word (sub_word r.end_of_buffer_offset (length r.buffer)) bytes)
      then record r { reports = (bytes, reason) ∷ r.reports }
      else r

  -- ReportCorruption
  abbrev pub report_corruption : ℕ → String → Reader F → Reader F
  report_corruption bytes reason r = report_drop bytes (corruption reason) r

  abbrev pub clear_buffer : Reader F → Reader F
  clear_buffer r = record r { buffer = [] }

  -- The end of ReadPhysicalRecord: the record is taken out of the buffer. What the source leaves in
  -- *result with kEof and kBadRecord is not read, and is empty here.
  unfoldable pub take_record : ℕ → ℕ → Reader F → ℕ × Bytes × Reader F
  take_record type len r =
      let rest = drop (k_header_size + len) r.buffer in
      let r' = record r { buffer = rest } in
      if ltb (sub_word (sub_word (sub_word r.end_of_buffer_offset (length rest)) k_header_size) len)
        options.initial_offset
      then (k_bad_record, [], r')
      else (type, take len (drop k_header_size r.buffer), r')

  -- `if (checksum_) …`
  unfoldable pub check_crc : ℕ → ℕ → Reader F → ℕ × Bytes × Reader F
  check_crc type len r =
      let expected_crc = unmask (decode_fixed32 r.buffer) in
      let actual_crc = crc_value extend (take (1 + len) (drop 6 r.buffer)) in
      if options.checksum && not (actual_crc == expected_crc)
      then (
        k_bad_record,
        [],
        report_corruption (length r.buffer) "checksum mismatch" (clear_buffer r),
      )
      else take_record type len r

  -- What ReadPhysicalRecord does with the type and the length of a header.
  unfoldable pub parse_fields : ℕ → ℕ → Reader F → ℕ × Bytes × Reader F
  parse_fields type len r =
      if ltb (length r.buffer) (k_header_size + len)
      then if r.eof then (k_eof, [], clear_buffer r) else (
        k_bad_record,
        [],
        report_corruption (length r.buffer) "bad record length" (clear_buffer r),
      )
      else if (type == 0) && (len == 0)
      then (k_bad_record, [], clear_buffer r)
      else check_crc type len r

  -- From `// Parse the header` on.
  unfoldable pub parse_record : Reader F → ℕ × Bytes × Reader F
  parse_record r =
      let a = bit_and (get_or r.buffer 4 0) 0xff in
      let b = bit_and (get_or r.buffer 5 0) 0xff in
      parse_fields (char_to_unsigned (get_or r.buffer 6 0)) (bit_or a (b * 2 ^ 8)) r

  -- What follows a Read of the file. A buffer that is shorter than a header is shorter than a
  -- block, so the next round of the loop ends with kEof.
  abbrev pub after_read : Reader F → Status × Bytes × F → ℕ × Bytes × Reader F
  after_read r (s, bytes, f) =
      let r' = record r {
        file = f;
        buffer = bytes;
        end_of_buffer_offset = (r.end_of_buffer_offset + length bytes) % 2 ^ 64;
      } in
      if not (is_ok s)
      then (k_eof, [], record (report_drop k_block_size s (clear_buffer r')) { eof = true })
      else (let r'' = record r' { eof = ltb (length bytes) k_block_size } in
          if ltb (length bytes) k_header_size
          then (k_eof, [], clear_buffer r'')
          else parse_record r'')

  -- ReadPhysicalRecord
  unfoldable pub read_physical_record : Reader F → ℕ × Bytes × Reader F
  read_physical_record r =
      if ltb (length r.buffer) k_header_size
      then if r.eof
        then (k_eof, [], clear_buffer r)
        else after_read (clear_buffer r) (sequential.read k_block_size r.file)
      else parse_record r
