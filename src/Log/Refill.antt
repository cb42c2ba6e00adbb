-- ===== src/Log/Refill.antt =====
-- ReadPhysicalRecord at the end of a block and of the file (db/log_reader.cc).
use pebblesdb.Common.{
  ℕ, ◌+◌, ◌%◌, ◌^◌, ◌<◌, ◌≤◌, ◌≡◌, refl, sym, ap, ◌∙◌, Bool, true, false, ◌++◌, Bytes, arith, ltb,
  length, take, drop, length-append, min, length-take-min, drop_short, take-append-drop,
  length-replicate, drop-append_of, subst,
}
use pebblesdb.Crc32c.{IsExtend}
use pebblesdb.Log.{k_block_size, k_header_size, SequentialFile, IsReadable}
use pebblesdb.Log.Layout.{leftover_at, trailer, trailer_size, aligned}
use pebblesdb.Log.Reader.{Reader, Options}
use pebblesdb.Log.Position.{At}

module _ (extend : ℕ → Bytes → ℕ) {F : Type 0} (sequential : SequentialFile F) (options : Options)
    (contents : F → Bytes) (readable : IsReadable sequential contents) (good : IsExtend extend)
    (from_start : options.initial_offset ≡ 0) where
  -- The buffer of a reader that is to read a block is the trailer of the one before.
  pub left_over :
      (r : Reader F) (o : ℕ) (next : Bytes)
      → At contents r o (trailer o ++ next)
      → k_header_size ≤ length next
      → length r.buffer < k_header_size
      → (r.eof ≡ false) × (length r.buffer ≡ trailer_size o) × (contents r.file ≡ next)
  left_over r o next at long h = by_case r.eof refl
    where
      by_case :
          (b : Bool)
          → r.eof ≡ b
          → (r.eof ≡ false) × (length r.buffer ≡ trailer_size o) × (contents r.file ≡ next)
      by_case true e = absurd (
          ground (
            arith,
            ap length at.all,
            ap length (at.at_end e),
            length-append r.buffer (contents r.file),
            length-append (trailer o) next,
          ))
      by_case false e =
          let size : length r.buffer ≡ trailer_size o = ground (arith, at.at_edge e, at.short) in
          (
            e,
            size,
            sym (drop-append_of (trailer_size o) r.buffer (contents r.file) size)
                ∙ ap (drop (trailer_size o)) at.all
                ∙ drop-append_of (trailer_size o) (trailer o) next
                    (length-replicate (trailer_size o) 0),
          )

  -- The reader after a Read, where the buffer was the trailer of the last block.
  unfoldable pub refilled : Reader F → Reader F
  refilled r =
      let (s, bytes, f) = sequential.read k_block_size r.file in
      record r {
        file = f;
        buffer = bytes;
        end_of_buffer_offset = (r.end_of_buffer_offset + length bytes) % 2 ^ 64;
        eof = ltb (length bytes) k_block_size;
      }

  pub refilled-At :
      (r : Reader F) (o : ℕ) (next : Bytes)
      → At contents r o (trailer o ++ next)
      → k_header_size ≤ length next
      → length r.buffer < k_header_size
      → At contents (refilled r) (aligned o) next × (k_header_size ≤ length (refilled r).buffer)
  unfolding refilled
  refilled-At r o next at long h =
      let (more, size, rest) = left_over r o next at long h in
      let bytes = readable.read_bytes k_block_size r.file in
      let behind = readable.read_rest k_block_size r.file in
      let got =
        ap length bytes
        ∙ ap (λ c. length (take k_block_size c)) rest
        ∙ length-take-min k_block_size next in
      let edge : (o + trailer_size o) % k_block_size ≡ 0 =
        ap (λ n. (o + n) % k_block_size) (sym size) ∙ at.at_edge more in
      let all_of : length (trailer o ++ next) ≡ trailer_size o + length next =
        length-append (trailer o) next
        ∙ ap (λ n. n + length next) (length-replicate (trailer_size o) 0) in
      let room : o + trailer_size o + length next < 2 ^ 63 =
        subst (λ n. n < 2 ^ 63) (ap (λ n. o + n) all_of ∙ omega arith) at.fits in
      (
        record {
          all =
              ap (λ b. b ++ contents (sequential.read k_block_size r.file).2) bytes
              ∙ ap (λ c. take k_block_size (contents r.file) ++ c) behind
              ∙ take-append-drop k_block_size (contents r.file)
              ∙ rest;
          place =
              reads_on o (trailer_size o) (length next) (at.place ∙ ap (λ n. o + n) size) room got;
          fits = room;
          short = in_new_block (o + trailer_size o) (length next) edge got;
          at_end = λ e.
              behind
              ∙ ap (drop k_block_size) rest
              ∙ drop_short k_block_size next (was_short (length next) e got);
          at_edge = λ e. reads_block (o + trailer_size o) (length next) e edge got;
        },
        reads_header (length next) long got,
      )
    where
      reads_on :
          (o t n : ℕ) {end got : ℕ}
          → end ≡ o + t
          → o + t + n < 2 ^ 63
          → got ≡ min k_block_size n
          → (end + got) % 2 ^ 64 ≡ o + t + got
      reads_on o t n e h g = omega arith

      in_new_block :
          (p n : ℕ) {got : ℕ}
          → p % k_block_size ≡ 0
          → got ≡ min k_block_size n
          → got ≤ leftover_at p
      in_new_block p n e g = omega arith

      was_short :
          (n : ℕ) {got : ℕ}
          → ltb got k_block_size ≡ true
          → got ≡ min k_block_size n
          → n ≤ k_block_size
      was_short n e g = ground arith

      reads_block :
          (p n : ℕ) {got : ℕ}
          → ltb got k_block_size ≡ false
          → p % k_block_size ≡ 0
          → got ≡ min k_block_size n
          → (p + got) % k_block_size ≡ 0
      reads_block p n e h g = ground arith

      reads_header :
          (n : ℕ) {got : ℕ} → k_header_size ≤ n → got ≡ min k_block_size n → k_header_size ≤ got
      reads_header n h g = omega arith
