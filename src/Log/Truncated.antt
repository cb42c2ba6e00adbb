-- ===== src/Log/Truncated.antt =====
-- A log file that ends in the middle of a record (db/log_reader.cc).
use pebblesdb.Common.{
  ℕ, ◌+◌, ◌*◌, ◌%◌, ◌^◌, ◌<◌, ◌≤◌, ◌≡◌, refl, sym, ap, ◌∙◌, Bool, true, false, [], ◌++◌, Bytes,
  arith, length, drop, replicate, bit_or, bit_and, get_or, append-split, get_or-append,
  length-append, length-replicate, subst, dec_lt, append-nil,
}
use pebblesdb.Crc32c.{IsExtend}
use pebblesdb.Log.{RecordType, k_block_size, k_header_size, SequentialFile, IsReadable}
use pebblesdb.Log.Layout.{physical, leftover_at, trailer, trailer_size, aligned}
use pebblesdb.Log.Physical.{header_length, stored_fields, stored, length-stored}
use pebblesdb.Log.Position.{At}
use pebblesdb.Log.Refill.{refilled, refilled-At}
use pebblesdb.Log.NextPhysical.{
  read_refilled, read_buffered, read_ends, read_closed, length-refilled, no_trailer,
}
use pebblesdb.Log.Errors.{fields_long, stored_length, stored_type}
use pebblesdb.Log.Reader.{Reader, Options, read_physical_record, parse_record, clear_buffer, k_eof}

module _ (extend : ℕ → Bytes → ℕ) where
  -- The length in a header is there as soon as the header is.
  stored_length-cut :
      (t : RecordType) (ptr buffer lost : Bytes)
      → buffer ++ lost ≡ physical extend t ptr
      → k_header_size ≤ length buffer
      → length ptr < 2 ^ 16
      → stored_length buffer ≡ length ptr
  stored_length-cut t ptr buffer lost e full small =
      let whole : buffer ++ lost ≡ stored extend t ptr [] =
        e ∙ sym (append-nil (physical extend t ptr)) in
      let (low, high, type, behind, covered) = stored_fields extend t ptr [] in
      ap (λ a. bit_or (bit_and a 0xff) (bit_and (get_or buffer 5 0) 0xff * 2 ^ 8))
        (byte 4 (omega arith) whole ∙ low)
      ∙ ap (λ b. bit_or (bit_and (bit_and (length ptr) 0xff) 0xff) (bit_and b 0xff * 2 ^ 8))
          (byte 5 (omega arith) whole ∙ high)
      ∙ header_length (length ptr) small
    where
      byte :
          (i : ℕ)
          → i < k_header_size
          → buffer ++ lost ≡ stored extend t ptr []
          → get_or buffer i 0 ≡ get_or (stored extend t ptr []) i 0
      byte i h whole =
          sym (get_or-append buffer lost i 0 (omega arith)) ∙ ap (λ b. get_or b i 0) whole

module _ (extend : ℕ → Bytes → ℕ) {F : Type 0} (sequential : SequentialFile F) (options : Options)
    (contents : F → Bytes) (readable : IsReadable sequential contents) (good : IsExtend extend)
    (from_start : options.initial_offset ≡ 0) where
  size_lem :
      (t : RecordType) (ptr p lost : Bytes)
      → p ++ lost ≡ physical extend t ptr
      → length p + length lost ≡ k_header_size + length ptr
  size_lem t ptr p lost e =
      sym (length-append p lost)
      ∙ ap length (e ∙ sym (append-nil (physical extend t ptr)))
      ∙ length-stored extend t ptr []
      ∙ omega arith

  cut_in_buffer :
      (t : RecordType) (ptr p lost : Bytes) (o : ℕ) (r : Reader F)
      → At contents r o p
      → p ++ lost ≡ physical extend t ptr
      → 0 < length lost
      → k_header_size + length ptr ≤ leftover_at o
      → k_header_size ≤ length r.buffer
      → parse_record extend sequential options r
        ≡ (k_eof, [], clear_buffer extend sequential options r)
  unfolding parse_record
  cut_in_buffer t ptr p lost o r at e cut fits full = by_case r.eof refl
    where
      by_case :
          (b : Bool)
          → r.eof ≡ b
          → parse_record extend sequential options r
            ≡ (k_eof, [], clear_buffer extend sequential options r)
      by_case false open_ = absurd (
          ground (
            arith,
            at.at_edge open_,
            at.short,
            size_lem t ptr p lost e,
            ap length at.all,
            length-append r.buffer (contents r.file),
          ))
      by_case true closed =
          let all : r.buffer ≡ p =
            sym (append-nil r.buffer) ∙ ap (λ c. r.buffer ++ c) (sym (at.at_end closed)) ∙ at.all in
          let len =
            stored_length-cut extend t ptr r.buffer lost (ap (λ b. b ++ lost) all ∙ e) full
              (omega arith) in
          fields_long extend sequential options (stored_type r.buffer) (stored_length r.buffer) r
            (omega (arith, len, ap length all, size_lem t ptr p lost e))
          ∙ rw closed refl

  -- The end of the input, with nothing new told to the reporter.
  abbrev pub Ends : Reader F → ℕ × Bytes × Reader F → Type 0
  Ends r got = (r' : Reader F) × (got ≡ (k_eof, [], r')) × (r'.reports ≡ r.reports)

  -- A file that ends before the end of a physical record, and behind the trailer in front of it.
  cut_behind_trailer :
      (t : RecordType) (ptr next lost : Bytes) (o : ℕ) (r : Reader F)
      → At contents r o (trailer o ++ next)
      → next ++ lost ≡ physical extend t ptr
      → 0 < length lost
      → k_header_size + length ptr ≤ leftover_at (aligned o)
      → length r.buffer < k_header_size
      → r.eof ≡ false
      → length r.buffer ≡ trailer_size o
      → Ends r (read_physical_record extend sequential options r)
  unfolding refilled
  cut_behind_trailer t ptr next lost o r at e cut fits below open_ size =
      elim (dec_lt (length next) k_header_size) [
        | yes short ↦ (
          clear_buffer extend sequential options
              (refilled extend sequential options contents readable good from_start r),
          read_ends extend sequential options contents readable good from_start r open_ below (
              omega (
                arith,
                short,
                size,
                length-refilled extend sequential options contents readable good from_start r,
                ap length at.all,
                length-append r.buffer (contents r.file),
                length-append (trailer o) next,
                length-replicate {A = ℕ} (trailer_size o) 0,
              )),
          refl,
        )
        | no long ↦
            let (there, more) =
              refilled-At extend sequential options contents readable good from_start r o next at
                (at_least long) below in
            (
              clear_buffer extend sequential options
                  (refilled extend sequential options contents readable good from_start r),
              read_refilled extend sequential options contents readable good from_start r open_
                    below more
                  ∙ cut_in_buffer t ptr next lost (aligned o)
                      (refilled extend sequential options contents readable good from_start r) there
                      e cut fits more,
              refl,
            )
      ]
    where
      at_least : {n : ℕ} → ¬ (n < k_header_size) → k_header_size ≤ n
      at_least h = omega arith

  pub cut_physical :
      (t : RecordType) (ptr p lost : Bytes) (o : ℕ) (r : Reader F)
      → At contents r o p
      → p ++ lost ≡ trailer o ++ physical extend t ptr
      → 0 < length lost
      → k_header_size + length ptr ≤ leftover_at (aligned o)
      → Ends r (read_physical_record extend sequential options r)
  cut_physical t ptr p lost o r at e cut fits = elim (dec_lt (length r.buffer) k_header_size) [
    | yes below ↦ below_case below r.eof refl
    | no full ↦
        let none_ : trailer_size o ≡ 0 = no_zeros o at.short full in
        let here =
          no_trailer extend sequential options contents readable good from_start r o
            (trailer_size o) p none_
            (subst (λ n. At contents r o (replicate n 0 ++ p)) (sym none_) at) in
        (
          clear_buffer extend sequential options r,
          read_buffered extend sequential options contents readable good from_start r
                (at_least full)
              ∙ cut_in_buffer t ptr p lost (aligned o) r here
                  (e ∙ ap (λ n. replicate n 0 ++ physical extend t ptr) none_) cut fits
                  (at_least full),
          refl,
        )
  ]
    where
      at_least : {n : ℕ} → ¬ (n < k_header_size) → k_header_size ≤ n
      at_least h = omega arith

      no_zeros : {n : ℕ} (o : ℕ) → n ≤ leftover_at o → ¬ (n < k_header_size) → trailer_size o ≡ 0
      no_zeros o h full = ground arith

      edge_lem :
          {n : ℕ} (o : ℕ)
          → n ≤ leftover_at o
          → (o + n) % k_block_size ≡ 0
          → n < k_header_size
          → n ≡ trailer_size o
      edge_lem o h edge below = ground arith

      below_case :
          length r.buffer < k_header_size
          → (b : Bool) → r.eof ≡ b
          → Ends r (read_physical_record extend sequential options r)
      below_case below true closed = (
        clear_buffer extend sequential options r,
        read_closed extend sequential options contents readable good from_start r closed below,
        refl,
      )
      below_case below false open_ =
          let size = edge_lem o at.short (at.at_edge open_) below in
          let zeros = length-replicate {A = ℕ} (trailer_size o) 0 in
          let (head, tail) = append-split p lost (trailer o) (physical extend t ptr) e (
            omega
              (arith, size, zeros, ap length at.all, length-append r.buffer (contents r.file))) in
          cut_behind_trailer t ptr (drop (length (trailer o)) p) lost o r
            (subst (At contents r o) head at) tail cut fits below open_ size
