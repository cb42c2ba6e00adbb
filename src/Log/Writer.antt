-- ===== src/Log/Writer.antt =====
-- db/log_writer.h and db/log_writer.cc: Writer.
use pebblesdb.Common.{
  ℕ, zero, suc, ◌+◌, ◌-◌, ◌*◌, ◌/◌, ◌%◌, ◌^◌, Bool, true, false, Option, none, some, [], ◌∷◌, ◌++◌,
  Bytes, bit_and, ltb, leb, ◌==◌, if◌then◌else◌, ◌>>=◌, length, take, drop, replicate,
}
use pebblesdb.Coding.{encode_fixed32}
use pebblesdb.Status.{Status, ok, is_ok}
use pebblesdb.Crc32c.{mask, crc_value}
use pebblesdb.Log.{
  RecordType, full_type, first_type, middle_type, last_type, record_type_code, k_block_size,
  k_header_size, ConcurrentWritableFile,
}

-- `~(kBlockSize - 1)`, of 32 bits since kBlockSize is unsigned.
abbrev pub block_mask : ℕ
block_mask = 2 ^ 32 - 1 - (k_block_size - 1)

-- `x & (kBlockSize - 1)`
abbrev pub in_block : ℕ → ℕ
in_block offset = bit_and offset (k_block_size - 1)

-- ComputeRecordSize
unfoldable pub compute_record_size : ℕ → ℕ → ℕ
compute_record_size start remain =
    let per_block = k_block_size - k_header_size in
    let whole_blocks = remain / per_block in
    let leftover = remain % per_block in
    (start + whole_blocks * k_block_size + k_header_size + leftover) % 2 ^ 64

-- The rounded start of a record in the loop of AddRecord.
unfoldable pub roundup : ℕ → ℕ
roundup start_offset =
    if ltb (k_block_size - in_block start_offset) k_header_size
    then bit_and ((start_offset + k_header_size) % 2 ^ 64) block_mask
    else start_offset

-- One round of the loop of AddRecord: the end of a record of `size` bytes.
unfoldable pub end_offset : ℕ → ℕ → ℕ
end_offset start_offset size =
    let roundup_start = roundup start_offset in
    let left = k_block_size - in_block roundup_start in
    if leb (k_header_size + size) left
    then (roundup_start + k_header_size + size) % 2 ^ 64
    else compute_record_size (roundup_start + left) (size + k_header_size - left)

-- The type of a fragment.
abbrev pub fragment_type : Bool → Bool → RecordType
fragment_type true true = full_type
fragment_type true false = first_type
fragment_type false true = last_type
fragment_type false false = middle_type

module _ (extend : ℕ → Bytes → ℕ) where
  -- An element of type_crc_, as the constructor of Writer computes it.
  abbrev pub type_crc : RecordType → ℕ
  type_crc t = crc_value extend (record_type_code t ∷ [])

  -- The header that EmitPhysicalRecordAt writes.
  unfoldable pub record_header : RecordType → Bytes → Bytes
  record_header t ptr =
      let n = length ptr in
      let crc = extend (type_crc t) ptr in
      encode_fixed32 (mask crc) ++ bit_and n 0xff ∷ n / 2 ^ 8 ∷ record_type_code t ∷ []

module _ (extend : ℕ → Bytes → ℕ) {F : Type 0} (dest : ConcurrentWritableFile F) where
  -- `if (s.ok()) s = dest_->WriteAt(…)`
  abbrev write_payload : ℕ → Bytes → Status × F → Status × F
  write_payload offset ptr (s, f) = if is_ok s then dest.write_at offset ptr f else (s, f)

  -- EmitPhysicalRecordAt
  unfoldable pub emit_physical_record_at : RecordType → Bytes → ℕ → F → Status × F
  emit_physical_record_at t ptr offset f =
      write_payload (offset + k_header_size) ptr
        (dest.write_at offset (record_header extend t ptr) f)

  -- The switch to a new block: the new offset, and the file with the trailer filled.
  unfoldable pub switch_block : ℕ → F → ℕ × F
  switch_block offset f =
      let leftover = k_block_size - in_block offset in
      if ltb leftover k_header_size
      then (offset + leftover, (dest.write_at offset (replicate leftover 0) f).1)
      else (offset, f)

  -- `while (s.ok() && left > 0)`, with the next round as a function of the file.
  abbrev pub loop_test : Bytes → (F → Option (Status × F)) → Status × F → Option (Status × F)
  loop_test [] next sf = some sf
  loop_test (b ∷ bs) next (ok, f) = next f
  loop_test (b ∷ bs) next sf = some sf

  -- A round of the do loop of AddRecord, from the offset and the file that the switch of blocks
  -- leaves; `next` is what the rounds after it do.
  unfoldable pub emit_fragment :
      (ℕ → Bytes → F → Option (Status × F)) → Bool → Bytes → ℕ × F → Option (Status × F)
  emit_fragment next begin ptr (offset, f) =
      let left = length ptr in
      let avail = k_block_size - in_block offset - k_header_size in
      let fragment_length = if ltb left avail then left else avail in
      let type = fragment_type begin (left == fragment_length) in
      loop_test (drop fragment_length ptr)
        (next (offset + k_header_size + fragment_length) (drop fragment_length ptr))
        (emit_physical_record_at type (take fragment_length ptr) offset f)

  -- The do loop of AddRecord. It has no result when the fuel runs out.
  unfoldable pub emit_fragments : ℕ → Bool → ℕ → Bytes → F → Option (Status × F)
  emit_fragments zero begin offset ptr f = none
  emit_fragments (suc fuel) begin offset ptr f =
      emit_fragment (emit_fragments fuel false) begin ptr (switch_block offset f)

  -- AddRecord of one thread, whose compare-and-swap succeeds: the new offset_, with the status and the
  -- file.
  unfoldable pub add_record : ℕ → Bytes → ℕ × F → Option (ℕ × Status × F)
  add_record fuel slice (offset, f) = do
    (s, f') ← emit_fragments fuel true offset slice f
    some (end_offset offset (length slice), s, f')
