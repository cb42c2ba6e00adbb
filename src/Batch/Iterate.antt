-- ===== src/Batch/Iterate.antt =====
-- Iterate on a batch that Put, Delete, PutGuard and Append made (db/write_batch.cc).
use mathlib.Core.List.{foldl, foldl-append}
use pebblesdb.Common.{
  ℕ, zero, suc, ◌+◌, ◌^◌, ◌<◌, ◌≤◌, ◌≡◌, refl, ap, ◌∙◌, some, List, [], ◌∷◌, ◌++◌, append_assoc,
  Bytes, arith, length, length-append, All, All-append, ltb-false,
}
use pebblesdb.Coding.{encode_varint32}
use pebblesdb.Coding.Varint.{get_varint32-encode_varint32}
use pebblesdb.Coding.Slices.{prefixed, get_length_prefixed_slice-prefixed}
use pebblesdb.Dbformat.{deletion, value, guard, type_code}
use pebblesdb.Status.{ok}
use pebblesdb.Batch.{
  Handler, next, done, after_put, after_delete, after_guard, read_put, read_guard, iterate_round,
  iterate_loop, iterate, append,
}
use pebblesdb.Batch.Layout.{
  Operation, put_op, delete_op, guard_op, encoding, encodings, encodings-append, batch, build,
  build-batch, append-batch, empty_head, count-batch, after_header, length-batch,
}

-- The handler's call for an operation, and the calls for a list of them.
abbrev pub call {ℓ} : {S : Type ℓ} → Handler S → S → Operation → S
call h s (put_op key v) = h.put key v s
call h s (delete_op key) = h.delete key s
call h s (guard_op key level) = h.handle_guard key level s

-- Sizes and levels that the 32-bit fields of a record can hold.
abbrev pub Fits : Operation → Type 0
Fits (put_op key v) = (length key < 2 ^ 32) × (length v < 2 ^ 32)
Fits (delete_op key) = length key < 2 ^ 32
Fits (guard_op key level) = (length key < 2 ^ 32) × (level < 2 ^ 32)

read_put-prefixed :
    (key v more : Bytes)
    → length key < 2 ^ 32
    → length v < 2 ^ 32
    → read_put ((prefixed key ++ prefixed v) ++ more) ≡ some (key, v, more)
read_put-prefixed key v more hk hv = rw (
  append_assoc (prefixed key) (prefixed v) more,
  get_length_prefixed_slice-prefixed key (prefixed v ++ more) hk,
  get_length_prefixed_slice-prefixed v more hv,
)

read_guard-prefixed :
    (key : Bytes) (level : ℕ) (more : Bytes)
    → length key < 2 ^ 32
    → level < 2 ^ 32
    → read_guard ((prefixed key ++ encode_varint32 level) ++ more) ≡ some (key, level, more)
read_guard-prefixed key level more hk hl = rw (
  append_assoc (prefixed key) (encode_varint32 level) more,
  get_length_prefixed_slice-prefixed key (encode_varint32 level ++ more) hk,
  get_varint32-encode_varint32 level more hl,
)

-- The byte that tells the kinds of record apart, and the fields behind it.
abbrev tag_of : Operation → ℕ
tag_of (put_op key v) = type_code value
tag_of (delete_op key) = type_code deletion
tag_of (guard_op key level) = type_code guard

abbrev fields : Operation → Bytes
fields (put_op key v) = prefixed key ++ prefixed v
fields (delete_op key) = prefixed key
fields (guard_op key level) = prefixed key ++ encode_varint32 level

encoding-eq-fields : (op : Operation) → encoding op ≡ tag_of op ∷ fields op
encoding-eq-fields (put_op key v) = refl
encoding-eq-fields (delete_op key) = refl
encoding-eq-fields (guard_op key level) = refl

module _ {ℓ} {S : Type ℓ} (h : Handler S) where
  round-fields :
      (op : Operation) (more : Bytes) (s : S)
      → Fits op
      → iterate_round h (tag_of op) (fields op ++ more) s ≡ next (call h s op) more
  unfolding iterate_round
  round-fields (put_op key v) more s fits =
      ap (λ r. after_put h r s) (read_put-prefixed key v more fits.0 fits.1)
  round-fields (delete_op key) more s fits =
      ap (λ r. after_delete h r s) (get_length_prefixed_slice-prefixed key more fits)
  round-fields (guard_op key level) more s fits =
      ap (λ r. after_guard h r s) (read_guard-prefixed key level more fits.0 fits.1)

  pub loop_next :
      (fuel total tag : ℕ) (input : Bytes) (found : ℕ) (s s' : S) (rest : Bytes)
      → iterate_round h tag input s ≡ next s' rest
      → iterate_loop h (suc fuel) total (tag ∷ input) found s
        ≡ iterate_loop h fuel total rest (found + 1) s'
  unfolding iterate_loop
  loop_next fuel total tag input found s s' rest e = ground arith

  -- One round of the loop on a record reads it back and makes the call.
  loop_step :
      (op : Operation) (more : Bytes) (fuel total found : ℕ) (s : S)
      → Fits op
      → iterate_loop h (suc fuel) total (encoding op ++ more) found s
        ≡ iterate_loop h fuel total more (found + 1) (call h s op)
  loop_step op more fuel total found s fits = rw (encoding-eq-fields op) (
      loop_next fuel total (tag_of op) (fields op ++ more) found s (call h s op) more
        (round-fields op more s fits))

  loop_end :
      (fuel total found : ℕ) (s : S)
      → found ≡ total
      → iterate_loop h fuel total [] found s ≡ done ok s
  unfolding iterate_loop
  loop_end zero total found s e = ground arith
  loop_end (suc fuel) total found s e = ground arith

  loop_encodings :
      (ops : List Operation) (fuel total found : ℕ) (s : S)
      → All Fits ops
      → length (encodings ops) ≤ fuel
      → found + length ops ≡ total
      → iterate_loop h fuel total (encodings ops) found s ≡ done ok (foldl (call h) s ops)
  loop_encodings [] fuel total found s fits enough e = loop_end fuel total found s (omega arith)
  loop_encodings (op ∷ ops) zero total found s fits enough e = absurd (
      omega (arith, ap length (encoding-eq-fields op), length-append (encoding op) (encodings ops)))
  loop_encodings (op ∷ ops) (suc fuel) total found s fits enough e =
      loop_step op (encodings ops) fuel total found s fits.0
      ∙ loop_encodings ops fuel total (found + 1) (call h s op) fits.1
          (omega
            (arith, ap length (encoding-eq-fields op), length-append (encoding op) (encodings ops)))
          (omega arith)

  iterate-batch :
      (head : Bytes) (ops : List Operation) (s : S)
      → length head ≡ 8
      → length ops < 2 ^ 32
      → All Fits ops
      → iterate h (batch head (length ops) (encodings ops)) s ≡ done ok (foldl (call h) s ops)
  unfolding iterate
  iterate-batch head ops s eight few fits =
      rw
        (
          ltb-false (length (batch head (length ops) (encodings ops)).rep) 12
              (omega (arith, length-batch head eight (length ops) (encodings ops))),
          after_header head eight (length ops) (encodings ops),
          count-batch head eight (length ops) (encodings ops) few,
        )
        (loop_encodings ops (length (encodings ops)) (length ops) 0 s fits (omega arith)
          (omega arith))

  -- Iterating over a batch built by Put, Delete and PutGuard makes the handler's calls for exactly
  -- those operations, in order, and returns OK.
  pub iterate-build :
      (ops : List Operation) (s : S)
      → length ops < 2 ^ 32
      → All Fits ops
      → iterate h (build ops) s ≡ done ok (foldl (call h) s ops)
  iterate-build ops s few fits =
      rw (build-batch ops few) (iterate-batch empty_head ops s refl few fits)

  All-Fits-append : (xs ys : List Operation) → All Fits xs → All Fits ys → All Fits (xs ++ ys)
  All-Fits-append xs ys hx hy = All-append Fits xs ys hx hy

  -- Append makes one batch that replays the operations of the first and then those of the second.
  pub iterate-append :
      (xs ys : List Operation) (s : S)
      → length xs + length ys < 2 ^ 32
      → All Fits xs
      → All Fits ys
      → iterate h (append (build xs) (build ys)) s
        ≡ done ok (foldl (call h) (foldl (call h) s xs) ys)
  iterate-append xs ys s few hx hy =
      rw
        (
          build-batch xs (omega arith),
          build-batch ys (omega arith),
          append-batch empty_head empty_head (length xs) (length ys) (encodings xs) (encodings ys)
              refl refl few,
          ← encodings-append xs ys,
          ← length-append xs ys,
          ← foldl-append (call h) s xs ys,
        )
        (iterate-batch empty_head (xs ++ ys) s refl (omega (arith, length-append xs ys))
          (All-append Fits xs ys hx hy))
