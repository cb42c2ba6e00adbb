-- ===== src/Coding.antt =====
-- util/coding.h and util/coding.cc: fixed-width and variable-length integers, length-prefixed slices.
-- A buffer, and a pointer with its limit, is the list of the bytes that it covers. `Put...` appends
-- what the `encode_...` function returns; a `Get...` routine returns the value and the bytes behind
-- it, or `none` where the source returns NULL or false.
pub mod Fixed
pub mod Varint
pub mod Slices
mod Runs
use mathlib.Core.Logic.{dite}
use mathlib.Core.WellFounded.{Acc}
use pebblesdb.Common.{
  ℕ, zero, suc, ◌+◌, ◌*◌, ◌/◌, ◌%◌, ◌^◌, ◌<◌, ◌≤◌, bit_and, bit_or, Bool, Option, none, some, List,
  [], ◌∷◌, ◌++◌, Bytes, arith, ltb, leb, ◌==◌, if◌then◌else◌, ◌>>=◌, length, get_or, take, drop,
  dec_lt,
}
use pebblesdb.Common.Order.{lt_wf}

-- The byte `(value >> shift) & 0xff`.
abbrev byte_of : ℕ → ℕ → ℕ
byte_of value shift = bit_and (value / 2 ^ shift) 0xff

unfoldable pub encode_fixed32 : ℕ → Bytes
encode_fixed32 value =
    bit_and value 0xff ∷ byte_of value 8 ∷ byte_of value 16 ∷ byte_of value 24 ∷ []

unfoldable pub encode_fixed64 : ℕ → Bytes
encode_fixed64 value =
    bit_and value 0xff
    ∷ byte_of value 8
    ∷ byte_of value 16
    ∷ byte_of value 24
    ∷ byte_of value 32
    ∷ byte_of value 40
    ∷ byte_of value 48
    ∷ byte_of value 56
    ∷ []

unfoldable pub put_fixed32 : Bytes → ℕ → Bytes
put_fixed32 dst value = dst ++ encode_fixed32 value

unfoldable pub put_fixed64 : Bytes → ℕ → Bytes
put_fixed64 dst value = dst ++ encode_fixed64 value

-- A left shift in a `bits`-bit register.
abbrev pub shl : ℕ → ℕ → ℕ → ℕ
shl bits x shift = x * 2 ^ shift % 2 ^ bits

-- The source reads without a bounds check; a byte past the end of the list reads as 0 here, and
-- every caller below tests the size first.
unfoldable pub decode_fixed32 : Bytes → ℕ
decode_fixed32 ptr =
    bit_or
      (bit_or (bit_or (get_or ptr 0 0) (shl 32 (get_or ptr 1 0) 8)) (shl 32 (get_or ptr 2 0) 16))
      (shl 32 (get_or ptr 3 0) 24)

unfoldable pub decode_fixed64 : Bytes → ℕ
decode_fixed64 ptr =
    let lo = decode_fixed32 ptr in let hi = decode_fixed32 (drop 4 ptr) in bit_or (shl 64 hi 32) lo

-- `*(ptr++) = x` stores the low byte of `x`.
abbrev low_byte : ℕ → ℕ
low_byte x = x % 256

unfoldable pub encode_varint32 : ℕ → Bytes
encode_varint32 v =
    if ltb v (2 ^ 7)
    then low_byte v ∷ []
    else if ltb v (2 ^ 14)
    then low_byte (bit_or v 128) ∷ low_byte (v / 2 ^ 7) ∷ []
    else if ltb v (2 ^ 21)
    then low_byte (bit_or v 128) ∷ low_byte (bit_or (v / 2 ^ 7) 128) ∷ low_byte (v / 2 ^ 14) ∷ []
    else if ltb v (2 ^ 28)
    then low_byte (bit_or v 128)
      ∷ low_byte (bit_or (v / 2 ^ 7) 128)
      ∷ low_byte (bit_or (v / 2 ^ 14) 128)
      ∷ low_byte (v / 2 ^ 21)
      ∷ []
    else low_byte (bit_or v 128)
      ∷ low_byte (bit_or (v / 2 ^ 7) 128)
      ∷ low_byte (bit_or (v / 2 ^ 14) 128)
      ∷ low_byte (bit_or (v / 2 ^ 21) 128)
      ∷ low_byte (v / 2 ^ 28)
      ∷ []

unfoldable pub put_varint32 : Bytes → ℕ → Bytes
put_varint32 dst v = dst ++ encode_varint32 v

-- The loop `while (v >= B) { ...; v >>= 7; }`; the shifted value is smaller, so it ends.
encode_varint64_loop : (v : ℕ) → Acc ◌<◌ v → Bytes
encode_varint64_loop v (Acc.intro _ smaller) =
    dite (dec_lt v 128) (λ _. low_byte v ∷ [])
      (λ more.
        low_byte (bit_or (bit_and v 127) 128)
        ∷ encode_varint64_loop (v / 2 ^ 7) (smaller (v / 2 ^ 7) (omega arith)))

unfoldable pub encode_varint64 : ℕ → Bytes
unfolding encode_varint64_loop lt_wf dec_lt
encode_varint64 v = encode_varint64_loop v (lt_wf.apply v)

unfoldable pub put_varint64 : Bytes → ℕ → Bytes
put_varint64 dst v = dst ++ encode_varint64 v

-- `while (v >= 128) { v >>= 7; len++; }`
varint_length_loop : (v len : ℕ) → Acc ◌<◌ v → ℕ
varint_length_loop v len (Acc.intro _ smaller) =
    dite (dec_lt v 128) (λ _. len)
      (λ more. varint_length_loop (v / 2 ^ 7) (len + 1) (smaller (v / 2 ^ 7) (omega arith)))

unfoldable pub varint_length : ℕ → ℕ
unfolding varint_length_loop lt_wf dec_lt
varint_length v = varint_length_loop v 1 (lt_wf.apply v)

-- `value.size()` is passed to a `uint32_t` parameter.
unfoldable pub put_length_prefixed_slice : Bytes → Bytes → Bytes
put_length_prefixed_slice dst value = put_varint32 dst (length value % 2 ^ 32) ++ value

-- The loop that GetVarint32PtrFallback and GetVarint64Ptr share: registers of `bits` bits, and
-- rounds while `shift <= last` and bytes are left.
unfoldable pub get_varint_loop : ℕ → ℕ → Bytes → ℕ → ℕ → Option (ℕ × Bytes)
get_varint_loop bits last [] shift result = none
get_varint_loop bits last (byte ∷ p) shift result =
    let more =
      get_varint_loop bits last p (shift + 7) (bit_or result (shl bits (bit_and byte 127) shift)) in
    if leb shift last
    then if bit_and byte 128 == 0 then some (bit_or result (shl bits byte shift), p) else more
    else none

unfoldable pub get_varint32_ptr_fallback : Bytes → Option (ℕ × Bytes)
get_varint32_ptr_fallback p = get_varint_loop 32 28 p 0 0

unfoldable pub get_varint32_ptr : Bytes → Option (ℕ × Bytes)
get_varint32_ptr [] = get_varint32_ptr_fallback []
get_varint32_ptr (result ∷ p) =
    if bit_and result 128 == 0 then some (result, p) else get_varint32_ptr_fallback (result ∷ p)

unfoldable pub get_varint64_ptr : Bytes → Option (ℕ × Bytes)
get_varint64_ptr p = get_varint_loop 64 63 p 0 0

-- GetVarint32 and GetVarint64 on a slice, which they advance.
unfoldable pub get_varint32 : Bytes → Option (ℕ × Bytes)
get_varint32 input = get_varint32_ptr input

unfoldable pub get_varint64 : Bytes → Option (ℕ × Bytes)
get_varint64 input = get_varint64_ptr input

-- GetLengthPrefixedSlice on a slice. Where it fails the source may have advanced `input` past the
-- length; every caller then gives up.
unfoldable pub get_length_prefixed_slice : Bytes → Option (Bytes × Bytes)
get_length_prefixed_slice input = do
  (len, rest) ← get_varint32 input
  if leb len (length rest) then some (take len rest, drop len rest) else none
