-- ===== src/Coding/Runs.antt =====
-- Concrete runs, and the theorems at concrete inputs.
use pebblesdb.Common.{◌≡◌, refl, [], ◌∷◌, some, none}
use pebblesdb.Coding.{
  encode_fixed32, encode_varint64, get_varint32, get_varint32_ptr, get_varint32_ptr_fallback,
  get_varint_loop, get_varint64, get_varint64_ptr, get_length_prefixed_slice,
}

fixed32_bytes : encode_fixed32 0x01020304 ≡ 4 ∷ 3 ∷ 2 ∷ 1 ∷ []
unfolding encode_fixed32
fixed32_bytes = refl

varint_300 : encode_varint64 300 ≡ 0xac ∷ 2 ∷ []
unfolding encode_varint64
varint_300 = refl

varint32_cut : get_varint32 (0xac ∷ []) ≡ none
unfolding get_varint32 get_varint32_ptr get_varint32_ptr_fallback get_varint_loop
varint32_cut = refl

varint64_read : get_varint64 (0xac ∷ 2 ∷ 7 ∷ []) ≡ some (300, 7 ∷ [])
unfolding get_varint64 get_varint64_ptr get_varint_loop
varint64_read = refl

-- The fifth byte of a 32-bit number is shifted out of the register without an error.
varint32_wraps : get_varint32 (0x80 ∷ 0x80 ∷ 0x80 ∷ 0x80 ∷ 0x10 ∷ []) ≡ some (0, [])
unfolding get_varint32 get_varint32_ptr get_varint32_ptr_fallback get_varint_loop
varint32_wraps = refl

slice_read : get_length_prefixed_slice (2 ∷ 8 ∷ 9 ∷ 1 ∷ []) ≡ some (8 ∷ 9 ∷ [], 1 ∷ [])
unfolding get_length_prefixed_slice get_varint32 get_varint32_ptr get_varint32_ptr_fallback
slice_read = refl
