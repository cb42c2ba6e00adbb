-- ===== src/Batch/Layout.antt =====
-- The bytes of a batch: eight bytes of sequence number, the count, and one encoding for each record.
use mathlib.Core.List.{foldl}
use mathlib.Core.Path.{ap₂}
use native.Mathlib.Nat.{mod-eq_of_lt, zero-add, add-zero}
use pebblesdb.Common.{
  ℕ, ◌+◌, ◌%◌, ◌^◌, ◌<◌, ◌≡◌, refl, ap, ◌∙◌, List, [], ◌∷◌, ◌++◌, append_assoc, append-nil, Bytes,
  arith, length, length-append, drop, drop-append_of, take-append_of, replicate,
}
use pebblesdb.Coding.{encode_fixed32, encode_varint32, encode_fixed64, put_varint32}
use pebblesdb.Coding.Fixed.{
  decode_fixed32-encode_fixed32, decode_fixed64-encode_fixed64, length-encode_fixed32,
}
use pebblesdb.Coding.Slices.{prefixed, put_length_prefixed_slice-eq-append}
use pebblesdb.Dbformat.{deletion, value, guard, type_code}
use pebblesdb.Batch.{
  WriteBatch, clear, count, set_count, sequence, set_sequence, put, put_guard, delete, append,
}

-- The operations that a client adds to a batch.
pub data Operation : Type 0 where
  put_op : Bytes → Bytes → Operation
  delete_op : Bytes → Operation
  guard_op : Bytes → ℕ → Operation

abbrev pub add : WriteBatch → Operation → WriteBatch
add b (put_op key v) = put b key v
add b (delete_op key) = delete b key
add b (guard_op key level) = put_guard b key level

-- The record of an operation.
abbrev pub encoding : Operation → Bytes
encoding (put_op key v) = type_code value ∷ (prefixed key ++ prefixed v)
encoding (delete_op key) = type_code deletion ∷ prefixed key
encoding (guard_op key level) = type_code guard ∷ (prefixed key ++ encode_varint32 level)

abbrev pub encodings : List Operation → Bytes
encodings [] = []
encodings (op ∷ ops) = encoding op ++ encodings ops

pub encodings-append :
    (xs ys : List Operation) → encodings (xs ++ ys) ≡ encodings xs ++ encodings ys
encodings-append [] ys = refl
encodings-append (x ∷ xs) ys =
    rw (encodings-append xs ys, append_assoc (encoding x) (encodings xs) (encodings ys)) refl

-- A batch with the eight bytes `head`, the count `n` and the records `body`.
abbrev pub batch : Bytes → ℕ → Bytes → WriteBatch
batch head n body = record { rep = head ++ (encode_fixed32 n ++ body) }

ruleset layout_laws = (put_length_prefixed_slice-eq-append, append_assoc)

module _ (head : Bytes) (eight : length head ≡ 8) (n : ℕ) (body : Bytes) where
  after_head : drop 8 (head ++ (encode_fixed32 n ++ body)) ≡ encode_fixed32 n ++ body
  after_head = drop-append_of 8 head (encode_fixed32 n ++ body) eight

  pub after_header : drop 12 (head ++ (encode_fixed32 n ++ body)) ≡ body
  after_header = rw (← append_assoc head (encode_fixed32 n) body) (
      drop-append_of 12 (head ++ encode_fixed32 n) body
        (omega (arith, length-append head (encode_fixed32 n), length-encode_fixed32 n)))

  pub count-batch : n < 2 ^ 32 → count (batch head n body) ≡ n
  unfolding count
  count-batch h = rw after_head (decode_fixed32-encode_fixed32 n body h)

  pub set_count-batch : (m : ℕ) → set_count (batch head n body) m ≡ batch head (m % 2 ^ 32) body
  unfolding set_count
  set_count-batch m = rw (take-append_of 8 head (encode_fixed32 n ++ body) eight, after_header)

  pub length-batch : length (batch head n body).rep ≡ 12 + length body
  length-batch = omega (
    arith,
    length-append head (encode_fixed32 n ++ body),
    length-append (encode_fixed32 n) body,
    length-encode_fixed32 n,
  )

  -- An operation increments the count and appends its record.
  pub add-batch :
      (op : Operation)
      → n < 2 ^ 32
      → add (batch head n body) op ≡ batch head ((n + 1) % 2 ^ 32) (body ++ encoding op)
  add-batch (put_op key v) h =
      unfold put in rw (count-batch h, set_count-batch (n + 1)) (simp layout_laws)
  add-batch (delete_op key) h =
      unfold delete in rw (count-batch h, set_count-batch (n + 1)) (simp layout_laws)
  add-batch (guard_op key level) h =
      unfold put_guard put_varint32 in
      rw (count-batch h, set_count-batch (n + 1)) (simp layout_laws)

-- Operations in a row: the count grows by their number and their records follow.
pub foldl-add :
    (head : Bytes) (ops : List Operation) (n : ℕ) (body : Bytes)
    → length head ≡ 8
    → n + length ops < 2 ^ 32
    → foldl add (batch head n body) ops ≡ batch head (n + length ops) (body ++ encodings ops)
foldl-add head [] n body eight h = rw (append-nil body, add-zero n)
foldl-add head (op ∷ ops) n body eight h =
    rw (add-batch head eight n body op (omega arith), mod-eq_of_lt (fits))
      (foldl-add head ops (n + 1) (body ++ encoding op) eight (omega arith)
        ∙ ap₂ (batch head) (omega arith) (append_assoc body (encoding op) (encodings ops)))
  where
    fits : n + 1 < 2 ^ 32
    fits = omega arith

abbrev pub empty_head : Bytes
empty_head = replicate 8 0

clear-batch : clear ≡ batch empty_head 0 []
unfolding clear encode_fixed32
clear-batch = refl

-- What a client builds from an empty batch.
unfoldable pub build : List Operation → WriteBatch
build ops = foldl add clear ops

pub build-batch :
    (ops : List Operation)
    → length ops < 2 ^ 32
    → build ops ≡ batch empty_head (length ops) (encodings ops)
unfolding build
build-batch ops h = rw clear-batch (
    foldl-add empty_head ops 0 [] refl (omega arith)
    ∙ ap (λ n. batch empty_head n (encodings ops)) (zero-add (length ops)))

-- Append concatenates the records and adds the counts.
pub append-batch :
    (head head' : Bytes) (n m : ℕ) (body body' : Bytes)
    → length head ≡ 8
    → length head' ≡ 8
    → n + m < 2 ^ 32
    → append (batch head n body) (batch head' m body') ≡ batch head (n + m) (body ++ body')
unfolding append
append-batch head head' n m body body' e e' h =
    rw
      (
        count-batch head e n body (omega arith),
        count-batch head' e' m body' (omega arith),
        set_count-batch head e n body (n + m),
        mod-eq_of_lt h,
        after_header head' e' m body',
      )
      (simp append_assoc)

-- SetSequence replaces the sequence number, which Sequence reads back, and nothing else.
pub set_sequence-batch :
    (head : Bytes) (n seq : ℕ) (body : Bytes)
    → length head ≡ 8
    → seq < 2 ^ 64
    → (set_sequence (batch head n body) seq ≡ batch (encode_fixed64 seq) n body)
      × (sequence (set_sequence (batch head n body) seq) ≡ seq)
unfolding set_sequence sequence
set_sequence-batch head n seq body e h = (
  rw (after_head head e n body),
  decode_fixed64-encode_fixed64 seq (drop 8 (head ++ (encode_fixed32 n ++ body))) h,
)
