-- ===== src/Format/RoundTrip.antt =====
-- Writing and reading block handles and footers (table/format.cc).
use pebblesdb.Common.{
  length-replicate, ℕ, ◌-◌, ◌*◌, ◌^◌, ◌<◌, ◌≤◌, ◌≡◌, refl, ap, some, [], ◌∷◌, ◌++◌, append_assoc,
  append-nil, Bytes, arith, length, length-append, take, drop, drop-append_of, replicate, zero, suc,
}
use pebblesdb.Coding.{encode_varint64, put_varint64, put_fixed32, encode_fixed32, decode_fixed32}
use pebblesdb.Coding.Varint.{get_varint64-encode_varint64, get_varint64_takes}
use pebblesdb.Coding.Fixed.{decode_fixed32-encode_fixed32, length-encode_fixed32}
use pebblesdb.Format.{
  BlockHandle, Footer, max_encoded_length, encoded_length, encode_handle, decode_handle,
  encode_footer, decode_footer, decoded, read_handles,
}

-- Offsets and sizes of 64 bits.
abbrev pub Fits : BlockHandle → Type 0
Fits h = (h.offset < 2 ^ 64) × (h.size < 2 ^ 64)

abbrev handle_bytes : BlockHandle → Bytes
handle_bytes h = encode_varint64 h.offset ++ encode_varint64 h.size

encode_handle-eq : (h : BlockHandle) (dst : Bytes) → encode_handle h dst ≡ dst ++ handle_bytes h
unfolding encode_handle put_varint64
encode_handle-eq h dst = append_assoc dst (encode_varint64 h.offset) (encode_varint64 h.size)

-- A handle is read back, whatever follows it.
pub decode_handle-bytes :
    (h : BlockHandle) (rest : Bytes)
    → Fits h
    → decode_handle (handle_bytes h ++ rest) ≡ some (h, rest)
unfolding decode_handle
decode_handle-bytes h rest (offset, size) =
    rw
      (
        append_assoc (encode_varint64 h.offset) (encode_varint64 h.size) rest,
        get_varint64-encode_varint64 h.offset (encode_varint64 h.size ++ rest) offset,
        get_varint64-encode_varint64 h.size rest size,
      )
      refl

length-encode_varint64 : (v : ℕ) → v < 2 ^ 64 → length (encode_varint64 v) ≤ 10
length-encode_varint64 v h = omega (
  arith,
  get_varint64_takes (encode_varint64 v ++ []) v [] (get_varint64-encode_varint64 v [] h),
  ap length (append-nil (encode_varint64 v)),
)

length-handle_bytes : (h : BlockHandle) → Fits h → length (handle_bytes h) ≤ max_encoded_length
length-handle_bytes h (offset, size) = omega (
  arith,
  length-append (encode_varint64 h.offset) (encode_varint64 h.size),
  length-encode_varint64 h.offset offset,
  length-encode_varint64 h.size size,
)

take_all : (n : ℕ) (xs : Bytes) → length xs ≤ n → take n xs ≡ xs
take_all zero [] h = refl
take_all zero (x ∷ xs) h = absurd (omega arith)
take_all (suc n) [] h = refl
take_all (suc n) (x ∷ xs) h = ap (λ t. x ∷ t) (take_all n xs (omega arith))

module _ (f : Footer) (metaindex : Fits f.metaindex_handle) (index : Fits f.index_handle) where
  abbrev handles : Bytes
  handles = handle_bytes f.metaindex_handle ++ handle_bytes f.index_handle

  abbrev padding : Bytes
  padding = replicate (2 * max_encoded_length - length handles) 0

  abbrev magic_bytes : Bytes
  magic_bytes = encode_fixed32 0x8b80fb57 ++ encode_fixed32 0xdb477524

  length-handles : length handles ≤ 2 * max_encoded_length
  length-handles = omega (
    arith,
    length-append (handle_bytes f.metaindex_handle) (handle_bytes f.index_handle),
    length-handle_bytes f.metaindex_handle metaindex,
    length-handle_bytes f.index_handle index,
  )

  length-padded : length (handles ++ padding) ≡ 2 * max_encoded_length
  length-padded = omega (
    arith,
    length-append handles padding,
    length-handles,
    length-replicate {A = ℕ} (2 * max_encoded_length - length handles) 0,
  )

  encode_footer-eq : encode_footer f [] ≡ (handles ++ padding) ++ magic_bytes
  unfolding encode_footer put_fixed32
  encode_footer-eq =
      rw
        (
          encode_handle-eq f.metaindex_handle [],
          encode_handle-eq f.index_handle (handle_bytes f.metaindex_handle),
          take_all (2 * max_encoded_length) handles length-handles,
        )
        (append_assoc (handles ++ padding) (encode_fixed32 0x8b80fb57) (encode_fixed32 0xdb477524))

  -- A footer takes exactly `kEncodedLength` bytes.
  pub length-encode_footer : length (encode_footer f []) ≡ encoded_length
  length-encode_footer = omega (
    arith,
    ap length encode_footer-eq,
    length-append (handles ++ padding) magic_bytes,
    length-padded,
    length-append (encode_fixed32 0x8b80fb57) (encode_fixed32 0xdb477524),
    length-encode_fixed32 0x8b80fb57,
    length-encode_fixed32 0xdb477524,
  )

  read_handles-footer :
      (more : Bytes) → read_handles ((handles ++ padding) ++ more) ≡ some (f, padding ++ more)
  read_handles-footer more =
      rw
        (
          append_assoc handles padding more,
          append_assoc (handle_bytes f.metaindex_handle) (handle_bytes f.index_handle)
              (padding ++ more),
          decode_handle-bytes f.metaindex_handle (handle_bytes f.index_handle ++ (padding ++ more))
              metaindex,
          decode_handle-bytes f.index_handle (padding ++ more) index,
        )
        refl

  module _ (rest : Bytes) where
    magic_low : decode_fixed32 (magic_bytes ++ rest) ≡ 0x8b80fb57
    magic_low =
        rw (append_assoc (encode_fixed32 0x8b80fb57) (encode_fixed32 0xdb477524) rest) (
          decode_fixed32-encode_fixed32 0x8b80fb57 (encode_fixed32 0xdb477524 ++ rest)
            (omega arith))

    magic_high : decode_fixed32 (drop 4 (magic_bytes ++ rest)) ≡ 0xdb477524
    magic_high =
        rw
          (
            append_assoc (encode_fixed32 0x8b80fb57) (encode_fixed32 0xdb477524) rest,
            drop-append_of 4 (encode_fixed32 0x8b80fb57) (encode_fixed32 0xdb477524 ++ rest)
                (length-encode_fixed32 0x8b80fb57),
          )
          (decode_fixed32-encode_fixed32 0xdb477524 rest (omega arith))

    -- A footer written to an empty buffer, with handles of 64-bit offsets and sizes, is read back,
    -- and what follows it is left over.
    pub decode_footer-encode_footer : decode_footer (encode_footer f [] ++ rest) ≡ decoded f rest
    unfolding decode_footer
    decode_footer-encode_footer =
        rw
          (
            drop-append_of encoded_length (encode_footer f []) rest length-encode_footer,
            encode_footer-eq,
            append_assoc (handles ++ padding) magic_bytes rest,
            drop-append_of (2 * max_encoded_length) (handles ++ padding) (magic_bytes ++ rest)
                length-padded,
            magic_low,
            magic_high,
            read_handles-footer (magic_bytes ++ rest),
          )
          refl
