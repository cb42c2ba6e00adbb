-- ===== src/Format.antt =====
-- table/format.h and table/format.cc: block handles, and the footer at the end of a table.
pub mod RoundTrip
mod Runs
use pebblesdb.Common.{
  ℕ, zero, suc, ◌+◌, ◌-◌, ◌*◌, ◌/◌, ◌^◌, Option, none, some, List, [], ◌∷◌, ◌++◌, Bytes, bit_and,
  bit_or, if◌then◌else◌, ◌==◌, length, take, drop, replicate, ◌>>=◌,
}
use pebblesdb.Coding.{put_varint64, get_varint64, put_fixed32, decode_fixed32, shl}
use pebblesdb.Status.{Status, corruption, invalid_argument}

pub record BlockHandle : Type 0 where
  pub offset : ℕ
  pub size : ℕ

pub record Footer : Type 0 where
  pub metaindex_handle : BlockHandle
  pub index_handle : BlockHandle

abbrev pub max_encoded_length : ℕ
max_encoded_length = 10 + 10

abbrev pub encoded_length : ℕ
encoded_length = 2 * max_encoded_length + 8

abbrev pub table_magic_number : ℕ
table_magic_number = 0xdb4775248b80fb57

unfoldable pub encode_handle : BlockHandle → Bytes → Bytes
encode_handle h dst = put_varint64 (put_varint64 dst h.offset) h.size

-- `none` is the status "bad block handle".
unfoldable pub decode_handle : Bytes → Option (BlockHandle × Bytes)
decode_handle input = do
  (offset, rest) ← get_varint64 input
  (size, rest') ← get_varint64 rest
  some (record { offset = offset; size = size }, rest')

-- `std::string::resize`, which pads with zeros.
abbrev pub resize : ℕ → Bytes → Bytes
resize n dst = take n dst ++ replicate (n - length dst) 0

unfoldable pub encode_footer : Footer → Bytes → Bytes
encode_footer f dst =
    let handles = encode_handle f.index_handle (encode_handle f.metaindex_handle dst) in
    let padded = resize (2 * max_encoded_length) handles in
    put_fixed32 (put_fixed32 padded (bit_and table_magic_number 0xffffffff))
      (table_magic_number / 2 ^ 32)

-- What Footer::DecodeFrom ends with: the footer and the input behind it, or the status.
pub data Decoded : Type 0 where
  decoded : Footer → Bytes → Decoded
  failed : Status → Decoded

abbrev pub read_handles : Bytes → Option (Footer × Bytes)
read_handles input = do
  (metaindex, rest) ← decode_handle input
  (index, rest') ← decode_handle rest
  some (record { metaindex_handle = metaindex; index_handle = index }, rest')

abbrev pub decoded_handles : Bytes → Option (Footer × Bytes) → Decoded
decoded_handles behind none = failed (corruption "bad block handle")
decoded_handles behind (some (f, rest)) = decoded f behind

-- The input has at least `encoded_length` bytes.
unfoldable pub decode_footer : Bytes → Decoded
decode_footer input =
    let magic_ptr = drop (encoded_length - 8) input in
    let magic_lo = decode_fixed32 magic_ptr in
    let magic_hi = decode_fixed32 (drop 4 magic_ptr) in
    let magic = bit_or (shl 64 magic_hi 32) magic_lo in
    let result = decoded_handles (drop encoded_length input) (read_handles input) in
    if magic == table_magic_number
    then result
    else failed (invalid_argument "not an sstable (bad magic number)")
