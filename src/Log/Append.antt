-- ===== src/Log/Append.antt =====
-- What AddRecord writes to its file (db/log_writer.cc).
use pebblesdb.Common.{
  ◌>>=◌, ◌≢◌, drop-ne-nil, ℕ, zero, suc, ◌+◌, ◌^◌, ◌<◌, ◌≡◌, refl, sym, ap, ◌∙◌, Bool, true, false,
  Option, some, [], ◌∷◌, ◌++◌, Bytes, arith, ltb, ◌==◌, if◌then◌else◌, length, take, drop,
  replicate, append-nil, append_assoc, length-append, length-take, length-replicate,
}
use pebblesdb.Status.{Status, ok}
use pebblesdb.Log.{RecordType, k_header_size, ConcurrentWritableFile, IsWritable}
use pebblesdb.Log.Writer.{
  record_header, fragment_type, emit_physical_record_at, switch_block, loop_test, emit_fragment,
  emit_fragments, add_record, end_offset,
}
use pebblesdb.Log.Extent.{fills_block, length-record_bytes, end_offset-eq-record_end}
use pebblesdb.Log.Layout.{
  leftover_at, trailer_size, aligned, share, in_block-eq-mod, physical, fragment_at, fragments,
  fragments-nil, record_bytes, Lasts, Lasts-rest, length-record_header,
}

module _ (extend : ℕ → Bytes → ℕ) {F : Type 0} (dest : ConcurrentWritableFile F)
    (contents : F → Bytes) (writable : IsWritable dest contents) where
  -- A write at the end, wherever it is computed.
  write_at_end :
      (o : ℕ) (bytes : Bytes) (f : F)
      → length (contents f) ≡ o
      → ((dest.write_at o bytes f).0 ≡ ok)
        × (contents (dest.write_at o bytes f).1 ≡ contents f ++ bytes)
  write_at_end o bytes f h = rw (← h) (writable.write_ok bytes f, writable.written bytes f)

  -- The offset and the file behind a trailer of `size` zeros.
  abbrev pub Filled : ℕ → F → ℕ → ℕ × F → Type 0
  Filled o f size (o', f') = (o' ≡ o + size) × (contents f' ≡ contents f ++ replicate size 0)

  switch_block_lem :
      (o : ℕ) (f : F)
      → length (contents f) ≡ o
      → Filled o f (trailer_size o) (switch_block extend dest o f)
  unfolding switch_block
  switch_block_lem o f h = rw (in_block-eq-mod o) (by_case (ltb (leftover_at o) k_header_size))
    where
      by_case :
          (b : Bool)
          → Filled o f (if b then leftover_at o else 0) (
              if b
              then (o + leftover_at o, (dest.write_at o (replicate (leftover_at o) 0) f).1)
              else (o, f))
      by_case true = (refl, (write_at_end o (replicate (leftover_at o) 0) f h).1)
      by_case false = (omega arith, sym (append-nil (contents f)))

  emit_lem :
      (t : RecordType) (ptr : Bytes) (o : ℕ) (f : F)
      → length (contents f) ≡ o
      → (f' : F) × (emit_physical_record_at extend dest t ptr o f ≡ (ok, f'))
        × (contents f' ≡ contents f ++ physical extend t ptr)
  unfolding emit_physical_record_at
  emit_lem t ptr o f h =
      let header = record_header extend t ptr in
      let (one, two) = write_at_end o header f h in
      let f1 = (dest.write_at o header f).1 in
      let behind : length (contents f1) ≡ o + k_header_size = ground (
        arith,
        ap length two,
        length-append (contents f) header,
        length-record_header extend t ptr,
      ) in
      let (three, four) = write_at_end (o + k_header_size) ptr f1 behind in
      let f2 = (dest.write_at (o + k_header_size) ptr f1).1 in
      (
        f2,
        rw one (ap (λ s. (s, f2)) three),
        four ∙ ap (λ c. c ++ ptr) two ∙ append_assoc (contents f) header ptr,
      )

  -- The rounds from an offset leave a file with the bytes of the fragments behind the contents.
  abbrev pub Appends : Bytes → F → Option (Status × F) → Type 0
  Appends bytes f o = (f' : F) × (o ≡ some (ok, f')) × (contents f' ≡ contents f ++ bytes)

  -- What the rounds after a fragment do.
  abbrev pub Later :
      (ℕ → Bytes → F → Option (Status × F)) → (ℕ → Bytes → Bytes) → Bytes → ℕ → Type 0
  Later next bytes ptr o =
      (f : F)
      → length (contents f) ≡ o + k_header_size + share o ptr
      → Appends (bytes (o + k_header_size + share o ptr) (drop (share o ptr) ptr)) f (
          loop_test extend dest (drop (share o ptr) ptr)
            (next (o + k_header_size + share o ptr) (drop (share o ptr) ptr)) (ok, f))

  fragment_lem :
      (next : ℕ → Bytes → F → Option (Status × F)) (bytes : ℕ → Bytes → Bytes) (begin : Bool)
      (ptr : Bytes) (o : ℕ) (f : F)
      → length (contents f) ≡ o
      → Later next bytes ptr o
      → Appends
          (fragment_at extend bytes begin o ptr)
          f
          (emit_fragment extend dest next begin ptr (o, f))
  unfolding emit_fragment
  fragment_lem next bytes begin ptr o f h later =
      let n = share o ptr in
      let type = fragment_type begin (length ptr == n) in
      let here = physical extend type (take n ptr) in
      let (f1, emitted, holds) = emit_lem type (take n ptr) o f h in
      let (f2, e, behind) = later f1 (
        ground (
          arith,
          ap length holds,
          length-append (contents f) here,
          length-append (record_header extend type (take n ptr)) (take n ptr),
          length-record_header extend type (take n ptr),
          length-take n ptr,
        )) in
      (
        f2,
        rw (in_block-eq-mod o, emitted) e,
        behind
            ∙ ap (λ c. c ++ bytes (o + k_header_size + n) (drop n ptr)) holds
            ∙ append_assoc (contents f) here (bytes (o + k_header_size + n) (drop n ptr)),
      )

  -- A round, from the offset before the switch of blocks.
  filled_lem :
      (next : ℕ → Bytes → F → Option (Status × F)) (bytes : ℕ → Bytes → Bytes) (begin : Bool)
      (ptr : Bytes) (o size : ℕ) (f : F) (at : ℕ × F)
      → length (contents f) ≡ o
      → Filled o f size at
      → Later next bytes ptr (o + size)
      → Appends
          (replicate size 0 ++ fragment_at extend bytes begin (o + size) ptr)
          f
          (emit_fragment extend dest next begin ptr at)
  filled_lem next bytes begin ptr o size f (o', f') h (moved, zeros) later =
      let reaches : length (contents f') ≡ o + size = ground (
        arith,
        ap length zeros,
        length-append (contents f) (replicate size 0),
        length-replicate {A = ℕ} size 0,
      ) in
      let (f2, e, behind) = fragment_lem next bytes begin ptr (o + size) f' reaches later in
      (
        f2,
        rw moved e,
        behind
            ∙ ap (λ c. c ++ fragment_at extend bytes begin (o + size) ptr) zeros
            ∙ append_assoc (contents f) (replicate size 0)
                (fragment_at extend bytes begin (o + size) ptr),
      )

  tail_lem :
      (fuel o : ℕ) (rest : Bytes) (f : F)
      → length (contents f) ≡ o
      → (rest ≢ [] → Lasts fuel o rest)
      → Appends
          (fragments extend fuel o rest)
          f
          (loop_test extend dest rest (emit_fragments extend dest fuel false o rest) (ok, f))
  unfolding emit_fragments
  tail_lem fuel o [] f h lasts = (
    f,
    refl,
    sym (ap (λ t. contents f ++ t) (fragments-nil extend fuel o) ∙ append-nil (contents f)),
  )
  tail_lem zero o (b ∷ bs) f h lasts = absurd (omega (arith, lasts (λ e. cc)))
  tail_lem (suc fuel) o (b ∷ bs) f h lasts =
      filled_lem (emit_fragments extend dest fuel false) (fragments extend fuel) false (b ∷ bs) o
        (trailer_size o) f (switch_block extend dest o f) h (switch_block_lem o f h)
        (λ f' h'. tail_lem fuel _ (drop (share (aligned o) (b ∷ bs)) (b ∷ bs)) f' h' (λ more.
          Lasts-rest fuel o (b ∷ bs) (lasts (λ e. cc))
            (drop-ne-nil (share (aligned o) (b ∷ bs)) (b ∷ bs) more)))

  rounds_lem :
      (slice : Bytes) (f : F) (o : ℕ)
      → length (contents f) ≡ o
      → Appends
          (record_bytes extend (suc (length slice)) o slice)
          f
          (emit_fragments extend dest (suc (suc (length slice))) true o slice f)
  unfolding emit_fragments
  rounds_lem slice f o h =
      let fuel = suc (length slice) in
      let n = share (aligned o) slice in
      filled_lem (emit_fragments extend dest fuel false) (fragments extend fuel) true slice o
        (trailer_size o) f (switch_block extend dest o f) h (switch_block_lem o f h)
        (λ f' h'.
          tail_lem fuel _ (drop n slice) f' h'
            (λ more. Lasts-rest fuel o slice (ground arith) (drop-ne-nil n slice more)))

  pub add_record-appends :
      (slice : Bytes) (f : F)
      → length (contents f) + k_header_size < 2 ^ 32
      → length slice < 2 ^ 32
      → (o' : ℕ) × (f' : F) × (add_record extend dest
            (suc (suc (length slice)))
            slice
            (length (contents f), f)
          ≡ some (o', ok, f'))
        × (contents f'
            ≡ contents f ++ record_bytes extend (suc (length slice)) (length (contents f)) slice)
        × (o'
            ≡ length (contents f')
              + (if fills_block (length (contents f)) (length slice) then k_header_size else 0))
  unfolding add_record
  add_record-appends slice f h small =
      let o = length (contents f) in
      let fuel = suc (length slice) in
      let (f', e, holds) = rounds_lem slice f o refl in
      (
        end_offset o (length slice),
        f',
        ap (λ r. r >>= (λ (sf : Status × F). some (end_offset o (length slice), sf.0, sf.1))) e,
        holds,
        ground (
          arith,
          end_offset-eq-record_end o (length slice) h small,
          length-record_bytes extend fuel o slice (ground arith),
          ap length holds,
          length-append (contents f) (record_bytes extend fuel o slice),
        ),
      )
