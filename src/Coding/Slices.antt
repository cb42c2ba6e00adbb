-- ===== src/Coding/Slices.antt =====
-- Length-prefixed slices: writer and reader (util/coding.cc).
use native.Mathlib.Nat.{mod-eq_of_lt}
use pebblesdb.Common.{
  length-take, ◌+◌, ◌%◌, ◌^◌, ◌<◌, ◌≤◌, ◌≡◌, [], ◌++◌, append_assoc, Bytes, IsByte, All, arith,
  some, Option-cases, inl, inr, length, take-append, drop-append, length-append, length-drop,
  le→leb,
}
use pebblesdb.Coding.{
  encode_varint32, put_varint32, put_length_prefixed_slice, get_varint32, get_length_prefixed_slice,
}
use pebblesdb.Coding.Varint.{get_varint32-encode_varint32, get_varint32_takes, get_varint32_shorter}

-- What PutLengthPrefixedSlice appends.
abbrev pub prefixed : Bytes → Bytes
prefixed value = encode_varint32 (length value % 2 ^ 32) ++ value

pub put_length_prefixed_slice-eq-append :
    (dst value : Bytes) → put_length_prefixed_slice dst value ≡ dst ++ prefixed value
unfolding put_length_prefixed_slice put_varint32
put_length_prefixed_slice-eq-append dst value =
    append_assoc dst (encode_varint32 (length value % 2 ^ 32)) value

-- A slice shorter than 4 GiB is read back, whatever follows it.
pub get_length_prefixed_slice-prefixed :
    (value rest : Bytes)
    → length value < 2 ^ 32
    → get_length_prefixed_slice (prefixed value ++ rest) ≡ some (value, rest)
unfolding get_length_prefixed_slice
get_length_prefixed_slice-prefixed value rest h = rw (
  mod-eq_of_lt h,
  append_assoc (encode_varint32 (length value)) value rest,
  get_varint32-encode_varint32 (length value) (value ++ rest) h,
  le→leb (length value) (length (value ++ rest)) (omega (arith, length-append value rest)),
  take-append value rest,
  drop-append value rest,
)

-- GetLengthPrefixedSlice reads what PutLengthPrefixedSlice wrote, for a slice shorter than 4 GiB.
pub get_length_prefixed_slice-put :
    (value rest : Bytes)
    → length value < 2 ^ 32
    → get_length_prefixed_slice (put_length_prefixed_slice [] value ++ rest) ≡ some (value, rest)
get_length_prefixed_slice-put value rest h =
    rw (put_length_prefixed_slice-eq-append [] value)
      (get_length_prefixed_slice-prefixed value rest h)

-- A successful read leaves a shorter input, and the slice with what is left accounts for all of
-- the input but the length.
pub get_length_prefixed_slice_takes :
    (input value rest : Bytes)
    → All IsByte input
    → get_length_prefixed_slice input ≡ some (value, rest)
    → (length value + length rest < length input) × (length input ≤ length value + length rest + 5)
unfolding get_length_prefixed_slice
get_length_prefixed_slice_takes input value rest bytes h =
    elim (Option-cases (get_varint32 input)) [
      | inl e ↦ ground (arith, e)
      | inr ((len, r), e) ↦
          ground
            (arith, e, get_varint32_takes input len r bytes e, length-take len r, length-drop len r)
    ]

-- A successful read leaves a shorter input, whatever the elements are.
pub get_length_prefixed_slice_shorter :
    (input value rest : Bytes)
    → get_length_prefixed_slice input ≡ some (value, rest)
    → length rest < length input
unfolding get_length_prefixed_slice
get_length_prefixed_slice_shorter input value rest h = elim (Option-cases (get_varint32 input)) [
  | inl e ↦ ground (arith, e)
  | inr ((len, r), e) ↦ ground (arith, e, get_varint32_shorter input len r e, length-drop len r)
]
