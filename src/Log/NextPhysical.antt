-- ===== src/Log/NextPhysical.antt =====
-- ReadPhysicalRecord from where the reader stands (db/log_reader.cc).
use pebblesdb.Common.{
  ℕ, ◌+◌, ◌<◌, ◌≤◌, ◌≡◌, refl, sym, ap, ◌∙◌, Bool, true, false, [], ◌∷◌, ◌++◌, Bytes, arith, length,
  replicate, min, length-take-min, subst, dec_lt,
}
use pebblesdb.Crc32c.{IsExtend}
use pebblesdb.Log.{
  RecordType, record_type_code, k_block_size, k_header_size, SequentialFile, IsReadable,
}
use pebblesdb.Log.Layout.{physical, leftover_at, trailer, trailer_size, aligned}
use pebblesdb.Log.Physical.{length-stored}
use pebblesdb.Log.Reader.{Reader, Options, parse_record, read_physical_record, clear_buffer, k_eof}
use pebblesdb.Log.Position.{At, parse-At}
use pebblesdb.Log.Refill.{left_over, refilled, refilled-At}

module _ (extend : ℕ → Bytes → ℕ) {F : Type 0} (sequential : SequentialFile F) (options : Options)
    (contents : F → Bytes) (readable : IsReadable sequential contents) (good : IsExtend extend)
    (from_start : options.initial_offset ≡ 0) where
  pub read_refilled :
      (r : Reader F)
      → r.eof ≡ false
      → length r.buffer < k_header_size
      → k_header_size
        ≤ length (refilled extend sequential options contents readable good from_start r).buffer
      → read_physical_record extend sequential options r
        ≡ parse_record extend sequential options
            (refilled extend sequential options contents readable good from_start r)
  unfolding read_physical_record refilled
  read_refilled r e h long = rw (e, readable.read_ok k_block_size r.file) (ground arith)

  -- Nothing more than a part of a header is left.
  pub read_ends :
      (r : Reader F)
      → r.eof ≡ false
      → length r.buffer < k_header_size
      → length (refilled extend sequential options contents readable good from_start r).buffer
        < k_header_size
      → read_physical_record extend sequential options r ≡ (
        k_eof,
        [],
        clear_buffer extend sequential options
            (refilled extend sequential options contents readable good from_start r),
      )
  unfolding read_physical_record refilled
  read_ends r e h short = rw (e, readable.read_ok k_block_size r.file) (ground arith)

  pub read_closed :
      (r : Reader F)
      → r.eof ≡ true
      → length r.buffer < k_header_size
      → read_physical_record extend sequential options r
        ≡ (k_eof, [], clear_buffer extend sequential options r)
  unfolding read_physical_record
  read_closed r e h = ground (arith, e)

  pub length-refilled :
      (r : Reader F)
      → length (refilled extend sequential options contents readable good from_start r).buffer
        ≡ min k_block_size (length (contents r.file))
  unfolding refilled
  length-refilled r =
      ap length (readable.read_bytes k_block_size r.file)
      ∙ length-take-min k_block_size (contents r.file)

  pub read_buffered :
      (r : Reader F)
      → k_header_size ≤ length r.buffer
      → read_physical_record extend sequential options r ≡ parse_record extend sequential options r
  unfolding read_physical_record
  read_buffered r h = ground arith

  nothing_left :
      (r : Reader F) (o : ℕ) → At contents r o [] → (length r.buffer ≡ 0) × (contents r.file ≡ [])
  nothing_left r o at = by_case r.buffer (contents r.file) at.all
    where
      by_case : (xs ys : Bytes) → xs ++ ys ≡ [] → (length xs ≡ 0) × (ys ≡ [])
      by_case [] ys e = (refl, e)
      by_case (x ∷ xs) ys e = cc

  -- At the end of the file.
  pub read_physical_record-nil :
      (r : Reader F) (o : ℕ)
      → At contents r o []
      → (r' : Reader F) × (read_physical_record extend sequential options r ≡ (k_eof, [], r'))
        × (r'.reports ≡ r.reports)
  unfolding refilled
  read_physical_record-nil r o at = by_case r.eof refl
    where
      by_case :
          (b : Bool)
          → r.eof ≡ b
          → (r' : Reader F) × (read_physical_record extend sequential options r ≡ (k_eof, [], r'))
            × (r'.reports ≡ r.reports)
      by_case true e = (
        clear_buffer extend sequential options r,
        read_closed r e (omega (arith, (nothing_left r o at).0)),
        refl,
      )
      by_case false e = (
        clear_buffer extend sequential options
            (refilled extend sequential options contents readable good from_start r),
        read_ends r e (omega (arith, (nothing_left r o at).0))
            (omega (arith, length-refilled r, ap length (nothing_left r o at).1)),
        refl,
      )

  pub no_trailer :
      (r : Reader F) (o n : ℕ) (next : Bytes)
      → n ≡ 0
      → At contents r o (replicate n 0 ++ next)
      → At contents r (o + n) next
  no_trailer r o n next none_ =
      subst (λ m. At contents r o (replicate m 0 ++ next) → At contents r (o + m) next) (sym none_)
        (λ at. subst (λ p. At contents r p next) (omega arith) at)

  -- The next physical record is read, whatever its block, without a report.
  pub next_physical :
      (t : RecordType) (ptr rest : Bytes) (o : ℕ) (r : Reader F)
      → At contents r o (trailer o ++ (physical extend t ptr ++ rest))
      → k_header_size + length ptr ≤ leftover_at (aligned o)
      → 0 < record_type_code t
      → (r' : Reader F) × (read_physical_record extend sequential options r
          ≡ (record_type_code t, ptr, r'))
        × At contents r' (aligned o + k_header_size + length ptr) rest
        × (r'.reports ≡ r.reports)
  unfolding refilled
  next_physical t ptr rest o r at h used = elim (dec_lt (length r.buffer) k_header_size) [
    | yes below ↦
        let next = physical extend t ptr ++ rest in
        let long : k_header_size ≤ length next = ground (arith, length-stored extend t ptr rest) in
        let (there, more) =
          refilled-At extend sequential options contents readable good from_start r o next at long
            below in
        let (r', e, at', quiet) =
          parse-At extend sequential options contents readable good from_start t ptr rest
            (aligned o) (refilled extend sequential options contents readable good from_start r)
            there h used (omega (arith, more)) in
        (
          r',
          read_refilled r
                (left_over extend sequential options contents readable good from_start r o next at
                  long below).0
                below more
              ∙ e,
          at',
          quiet,
        )
    | no full ↦
        let here : At contents r (aligned o) (physical extend t ptr ++ rest) =
          no_trailer r o (trailer_size o) (physical extend t ptr ++ rest) (ground (arith, at.short))
            at in
        let (r', e, at', quiet) =
          parse-At extend sequential options contents readable good from_start t ptr rest
            (aligned o) r here h used (positive full) in
        (r', read_buffered r (at_least full) ∙ e, at', quiet)
  ]
    where
      at_least : {n : ℕ} → ¬ (n < k_header_size) → k_header_size ≤ n
      at_least h = omega arith

      positive : {n : ℕ} → ¬ (n < k_header_size) → 0 < n
      positive h = omega arith
