-- ===== src/Log/Position.antt =====
-- Where a Reader stands in its file (db/log_reader.cc).
use pebblesdb.Common.{
  ℕ, ◌+◌, ◌%◌, ◌^◌, ◌<◌, ◌≤◌, ◌≡◌, refl, ap, ◌∙◌, Bool, true, false, [], ◌++◌, Bytes, arith, length,
  drop, length-append, append-split,
}
use pebblesdb.Crc32c.{IsExtend}
use pebblesdb.Log.{
  RecordType, record_type_code, k_block_size, k_header_size, SequentialFile, IsReadable,
}
use pebblesdb.Log.Writer.{record_header}
use pebblesdb.Log.Layout.{physical, leftover_at, length-record_header}
use pebblesdb.Log.Physical.{parse_record_lem}
use pebblesdb.Log.Reader.{Reader, Options, parse_record}

-- A reader stands at the offset `o`, with `pending` to be read: the buffer reaches to the end of its
-- block, or to the end of the file.
pub record At {F : Type 0} (contents : F → Bytes) (r : Reader F) (o : ℕ) (pending : Bytes)
    : Type 0 where
  pub all : r.buffer ++ contents r.file ≡ pending
  pub place : r.end_of_buffer_offset ≡ o + length r.buffer
  pub fits : o + length pending < 2 ^ 63
  pub short : length r.buffer ≤ leftover_at o
  pub at_end : r.eof ≡ true → contents r.file ≡ []
  pub at_edge : r.eof ≡ false → (o + length r.buffer) % k_block_size ≡ 0

module _ (extend : ℕ → Bytes → ℕ) {F : Type 0} (sequential : SequentialFile F) (options : Options)
    (contents : F → Bytes) (readable : IsReadable sequential contents) (good : IsExtend extend)
    (from_start : options.initial_offset ≡ 0) where
  -- The buffer covers a pending record of the block.
  covers :
      (r : Reader F) (o : ℕ) (a rest : Bytes)
      → At contents r o (a ++ rest)
      → length a ≤ leftover_at o
      → 0 < length r.buffer
      → length a ≤ length r.buffer
  covers r o a rest at h nonempty = by_case r.eof refl
    where
      by_case : (b : Bool) → r.eof ≡ b → length a ≤ length r.buffer
      by_case true e = ground (
        arith,
        ap length at.all,
        ap length (at.at_end e),
        length-append r.buffer (contents r.file),
        length-append a rest,
      )
      by_case false e = ground (arith, at.at_edge e, at.short)

  -- A physical record in the block is parsed.
  pub parse-At :
      (t : RecordType) (ptr rest : Bytes) (o : ℕ) (r : Reader F)
      → At contents r o (physical extend t ptr ++ rest)
      → k_header_size + length ptr ≤ leftover_at o
      → 0 < record_type_code t
      → 0 < length r.buffer
      → (r' : Reader F) × (parse_record extend sequential options r ≡ (record_type_code t, ptr, r'))
        × At contents r' (o + k_header_size + length ptr) rest
        × (r'.reports ≡ r.reports)
  parse-At t ptr rest o r at h used nonempty =
      let a = physical extend t ptr in
      let size : length a ≡ k_header_size + length ptr = ground (
        arith,
        length-append (record_header extend t ptr) ptr,
        length-record_header extend t ptr,
      ) in
      let (head, tail) =
        append-split r.buffer (contents r.file) a rest at.all
          (covers r o a rest at (ground (arith, size)) nonempty) in
      let left = drop (length a) r.buffer in
      let long : length r.buffer ≡ length a + length left = ap length head ∙ length-append a left in
      (
        record r { buffer = left },
        ap (λ b. parse_record extend sequential options (record r { buffer = b })) head
            ∙ parse_record_lem extend sequential options from_start t ptr left r good used
                (omega arith),
        record {
          all = tail;
          place = ground (arith, at.place, size, long);
          fits = ground (arith, at.fits, size, length-append a rest);
          short = ground (arith, at.short, size, long);
          at_end = at.at_end;
          at_edge = λ e. ground (arith, at.at_edge e, size, long);
        },
        refl,
      )
