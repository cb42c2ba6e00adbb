-- ===== src/Coding/Fixed.antt =====
-- Fixed-width integers: encoding and decoding (util/coding.h).
use pebblesdb.Common.{
  ℕ, ◌+◌, ◌*◌, ◌/◌, ◌%◌, ◌^◌, ◌<◌, ◌≡◌, refl, [], ◌∷◌, ◌++◌, Bytes, arith, drop, length, ◌∙◌,
}
use pebblesdb.Common.Bits.{bit_and_255, bit_or_low_high, bit_or_high_low}
use pebblesdb.Coding.{encode_fixed32, encode_fixed64, decode_fixed32, decode_fixed64}

-- The bytes as a sum.
pub decode_fixed32_sum :
    (a b c d : ℕ) (rest : Bytes)
    → a < 256
    → b < 256
    → c < 256
    → d < 256
    → decode_fixed32 (a ∷ b ∷ c ∷ d ∷ rest) ≡ a + b * 256 + c * 65536 + d * 16777216
unfolding decode_fixed32
decode_fixed32_sum a b c d rest ha hb hc hd = ground (
  arith,
  bit_or_low_high 8 a b,
  bit_or_low_high 16 (a + b * 256) c,
  bit_or_low_high 24 (a + b * 256 + c * 65536) d,
)

-- DecodeFixed32 reads the value that EncodeFixed32 wrote, whatever follows it.
pub decode_fixed32-encode_fixed32 :
    (v : ℕ) (rest : Bytes) → v < 2 ^ 32 → decode_fixed32 (encode_fixed32 v ++ rest) ≡ v
unfolding encode_fixed32
decode_fixed32-encode_fixed32 v rest h = simp bit_and_255 (
    ground (
      arith,
      decode_fixed32_sum (v % 256) (v / 256 % 256) (v / 65536 % 256) (v / 16777216 % 256) rest,
    ))

-- The 64-bit value is put together from two 32-bit halves.
decode_fixed64_halves :
    (bytes : Bytes) (lo hi : ℕ)
    → decode_fixed32 bytes ≡ lo
    → decode_fixed32 (drop 4 bytes) ≡ hi
    → lo < 2 ^ 32
    → hi < 2 ^ 32
    → decode_fixed64 bytes ≡ hi * 2 ^ 32 + lo
unfolding decode_fixed64
decode_fixed64_halves bytes lo hi l h bl bh = ground (arith, bit_or_high_low 32 hi lo)

-- DecodeFixed64 reads the value that EncodeFixed64 wrote, whatever follows it.
pub decode_fixed64-encode_fixed64 :
    (v : ℕ) (rest : Bytes) → v < 2 ^ 64 → decode_fixed64 (encode_fixed64 v ++ rest) ≡ v
decode_fixed64-encode_fixed64 v rest h =
    decode_fixed64_halves (encode_fixed64 v ++ rest) (v % 2 ^ 32) (v / 2 ^ 32) low high
      (omega arith) (omega arith)
    ∙ omega arith
  where
    low : decode_fixed32 (encode_fixed64 v ++ rest) ≡ v % 2 ^ 32
    low =
        unfold encode_fixed64 in
        simp bit_and_255 (
          ground (
            arith,
            decode_fixed32_sum (v % 256) (v / 256 % 256) (v / 65536 % 256) (v / 16777216 % 256)
                (v / 2 ^ 32 % 256 ∷ v / 2 ^ 40 % 256 ∷ v / 2 ^ 48 % 256 ∷ v / 2 ^ 56 % 256 ∷ rest),
          ))

    high : decode_fixed32 (drop 4 (encode_fixed64 v ++ rest)) ≡ v / 2 ^ 32
    high =
        unfold encode_fixed64 in
        simp bit_and_255 (
          ground (
            arith,
            decode_fixed32_sum (v / 2 ^ 32 % 256) (v / 2 ^ 40 % 256) (v / 2 ^ 48 % 256)
                (v / 2 ^ 56 % 256) rest,
          ))

pub length-encode_fixed64 : (v : ℕ) → length (encode_fixed64 v) ≡ 8
unfolding encode_fixed64
length-encode_fixed64 v = refl

pub length-encode_fixed32 : (v : ℕ) → length (encode_fixed32 v) ≡ 4
unfolding encode_fixed32
length-encode_fixed32 v = refl

-- EncodeFixed32 rebuilds any four bytes from the value that DecodeFixed32 reads in them.
pub encode_fixed32-decode_fixed32 :
    (a b c d : ℕ)
    → a < 256
    → b < 256
    → c < 256
    → d < 256
    → encode_fixed32 (decode_fixed32 (a ∷ b ∷ c ∷ d ∷ [])) ≡ a ∷ b ∷ c ∷ d ∷ []
unfolding encode_fixed32
encode_fixed32-decode_fixed32 a b c d ha hb hc hd =
    rw (decode_fixed32_sum a b c d [] ha hb hc hd) (simp bit_and_255 (ground arith))
