-- ===== src/Log/Gap.antt =====
-- The bytes that AddRecord reserves and does not write (db/log_writer.cc, db/log_reader.cc).
use pebblesdb.Common.{
  ℕ, suc, ◌+◌, ◌≤◌, ◌≡◌, refl, sym, ap, ◌∙◌, [], ◌++◌, Bytes, arith, length, replicate,
  append-split, length-append,
}
use pebblesdb.Crc32c.{IsExtend}
use pebblesdb.Log.{k_header_size, SequentialFile, IsReadable}
use pebblesdb.Log.Position.{At}
use pebblesdb.Log.Errors.{read_physical_record-Refuses, stored_type, stored_length}
use pebblesdb.Log.Fragments.{from_loop}
use pebblesdb.Log.Reader.{Reader, Options, read_physical_record, clear_buffer, k_bad_record}
use pebblesdb.Log.ReadRecord.{read_record, read_loop, on_record}

module _ (extend : ℕ → Bytes → ℕ) {F : Type 0} (sequential : SequentialFile F) (options : Options)
    (contents : F → Bytes) (readable : IsReadable sequential contents) (good : IsExtend extend)
    (from_start : options.initial_offset ≡ 0) where
  read_gap :
      (r : Reader F) (o : ℕ) (rest : Bytes)
      → At contents r o (replicate k_header_size 0 ++ rest)
      → k_header_size ≤ length r.buffer
      → read_physical_record extend sequential options r
        ≡ (k_bad_record, [], clear_buffer extend sequential options r)
  read_gap r o rest at full =
      let (head, tail) =
        append-split r.buffer (contents r.file) (replicate k_header_size 0) rest at.all full in
      (read_physical_record-Refuses extend sequential options r full).2 (ap stored_type head)
        (ap stored_length head)

  -- At seven zero bytes, such as AddRecord leaves unwritten behind a record that fills its last
  -- block, ReadRecord goes on behind the buffer: all that the buffer holds behind the zeros is
  -- skipped, and nothing is told to the reporter.
  pub read_record-gap :
      (n o : ℕ) (rest : Bytes) (r : Reader F)
      → At contents r o (replicate k_header_size 0 ++ rest)
      → k_header_size ≤ length r.buffer
      → (r' : Reader F) × (read_record extend sequential options (suc n) r
          ≡ read_record extend sequential options n r')
        × At contents r' (o + length r.buffer) (contents r.file)
        × (r'.reports ≡ r.reports)
  unfolding read_loop on_record
  read_record-gap n o rest r at full = (
    clear_buffer extend sequential options r,
    from_loop extend sequential options contents readable good from_start (suc n) r
        ∙ rw (read_gap r o rest at full) refl
        ∙ sym (
            from_loop extend sequential options contents readable good from_start n
              (clear_buffer extend sequential options r)),
    record {
      all = refl;
      place = omega (arith, at.place);
      fits = omega (arith, at.fits, ap length at.all, length-append r.buffer (contents r.file));
      short = omega arith;
      at_end = at.at_end;
      at_edge = λ e. ground (arith, at.at_edge e);
    },
    refl,
  )
