-- ===== src/Comparator/Number.antt =====
-- KeyNum, which the index of the skip list uses, and the order of the keys.
use Prim.Native.Nat.{Ordering}
use native.Mathlib.Nat.{pow-suc, one-le-pow}
use pebblesdb.Common.{
  ℕ, zero, suc, ◌+◌, ◌*◌, ◌^◌, ◌<◌, ◌≤◌, ◌≡◌, sym, ◌∙◌, [], ◌∷◌, Bytes, arith, get_or, IsByte, All,
}
use pebblesdb.Common.Bits.{bit_or_high_low}
use pebblesdb.Comparator.{slice_compare, key_num}
use pebblesdb.Comparator.Bytewise.{lexicographic, slice_compare-eq-lexicographic}

-- The first `k` bytes as a big-endian number, padded with zeros.
abbrev big_endian : ℕ → Bytes → ℕ
big_endian zero key = 0
big_endian (suc k) [] = 0
big_endian (suc k) (b ∷ rest) = b * 256 ^ k + big_endian k rest

byte_at : (key : Bytes) (i : ℕ) → All IsByte key → get_or key i 0 < 256
byte_at [] i h = omega arith
byte_at (b ∷ rest) zero h = h.0
byte_at (b ∷ rest) (suc i) h = byte_at rest i h.1

key_num_sum :
    (key : Bytes)
    → All IsByte key
    → key_num key
      ≡ get_or key 0 0 * 2 ^ 56
        + get_or key 1 0 * 2 ^ 48
        + get_or key 2 0 * 2 ^ 40
        + get_or key 3 0 * 2 ^ 32
        + get_or key 4 0 * 2 ^ 24
        + get_or key 5 0 * 2 ^ 16
        + get_or key 6 0 * 2 ^ 8
        + get_or key 7 0
unfolding key_num
key_num_sum key h = ground (
  arith,
  byte_at key 0 h,
  byte_at key 1 h,
  byte_at key 2 h,
  byte_at key 3 h,
  byte_at key 4 h,
  byte_at key 5 h,
  byte_at key 6 h,
  byte_at key 7 h,
  bit_or_high_low 56 (get_or key 0 0) (get_or key 1 0 * 2 ^ 48),
  bit_or_high_low 48 (get_or key 0 0 * 2 ^ 8 + get_or key 1 0) (get_or key 2 0 * 2 ^ 40),
  bit_or_high_low 40 (get_or key 0 0 * 2 ^ 16 + get_or key 1 0 * 2 ^ 8 + get_or key 2 0)
      (get_or key 3 0 * 2 ^ 32),
  bit_or_high_low 32
      (get_or key 0 0 * 2 ^ 24 + get_or key 1 0 * 2 ^ 16 + get_or key 2 0 * 2 ^ 8 + get_or key 3 0)
      (get_or key 4 0 * 2 ^ 24),
  bit_or_high_low 24
      (get_or key 0 0 * 2 ^ 32
        + get_or key 1 0 * 2 ^ 24
        + get_or key 2 0 * 2 ^ 16
        + get_or key 3 0 * 2 ^ 8
        + get_or key 4 0)
      (get_or key 5 0 * 2 ^ 16),
  bit_or_high_low 16
      (get_or key 0 0 * 2 ^ 40
        + get_or key 1 0 * 2 ^ 32
        + get_or key 2 0 * 2 ^ 24
        + get_or key 3 0 * 2 ^ 16
        + get_or key 4 0 * 2 ^ 8
        + get_or key 5 0)
      (get_or key 6 0 * 2 ^ 8),
  bit_or_high_low 8
      (get_or key 0 0 * 2 ^ 48
        + get_or key 1 0 * 2 ^ 40
        + get_or key 2 0 * 2 ^ 32
        + get_or key 3 0 * 2 ^ 24
        + get_or key 4 0 * 2 ^ 16
        + get_or key 5 0 * 2 ^ 8
        + get_or key 6 0)
      (get_or key 7 0),
)

mul-le : (p x y : ℕ) → x ≤ y → x * p ≤ y * p
mul-le p x y h = grind arith

big_endian_bound : (k : ℕ) (key : Bytes) → All IsByte key → big_endian k key < 256 ^ k
big_endian_bound zero key h = omega arith
big_endian_bound (suc k) [] h = omega (arith, one-le-pow (suc k) 256)
big_endian_bound (suc k) (b ∷ rest) h =
    ground (arith, pow-suc 256 k, big_endian_bound k rest, mul-le (256 ^ k) b 255)

big_endian_mono :
    (k : ℕ) (a b : Bytes)
    → All IsByte a
    → All IsByte b
    → lexicographic a b ≡ Ordering.lt
    → big_endian k a ≤ big_endian k b
big_endian_mono zero a b ha hb h = omega arith
big_endian_mono (suc k) [] b ha hb h = omega arith
big_endian_mono (suc k) (a ∷ xs) [] ha hb h = cc
big_endian_mono (suc k) (a ∷ xs) (b ∷ ys) ha hb h = ground (
  arith,
  big_endian_bound k xs ha.1,
  big_endian_mono k xs ys ha.1 hb.1,
  mul-le (256 ^ k) (suc a) b,
)

key_num-eq-big_endian : (key : Bytes) → All IsByte key → key_num key ≡ big_endian 8 key
key_num-eq-big_endian key h = key_num_sum key h ∙ prefix key
  where
    prefix :
        (key : Bytes)
        → get_or key 0 0 * 2 ^ 56
            + get_or key 1 0 * 2 ^ 48
            + get_or key 2 0 * 2 ^ 40
            + get_or key 3 0 * 2 ^ 32
            + get_or key 4 0 * 2 ^ 24
            + get_or key 5 0 * 2 ^ 16
            + get_or key 6 0 * 2 ^ 8
            + get_or key 7 0
          ≡ big_endian 8 key
    prefix [] = omega arith
    prefix (a ∷ []) = omega arith
    prefix (a ∷ b ∷ []) = omega arith
    prefix (a ∷ b ∷ c ∷ []) = omega arith
    prefix (a ∷ b ∷ c ∷ d ∷ []) = omega arith
    prefix (a ∷ b ∷ c ∷ d ∷ e ∷ []) = omega arith
    prefix (a ∷ b ∷ c ∷ d ∷ e ∷ f ∷ []) = omega arith
    prefix (a ∷ b ∷ c ∷ d ∷ e ∷ f ∷ g ∷ []) = omega arith
    prefix (a ∷ b ∷ c ∷ d ∷ e ∷ f ∷ g ∷ i ∷ rest) = omega arith

-- A smaller key has no larger KeyNum: a difference in KeyNum decides the comparison.
pub key_num_mono :
    (a b : Bytes)
    → All IsByte a
    → All IsByte b
    → slice_compare a b ≡ Ordering.lt
    → key_num a ≤ key_num b
key_num_mono a b ha hb h =
    rw (key_num-eq-big_endian a ha, key_num-eq-big_endian b hb)
      (big_endian_mono 8 a b ha hb (sym (slice_compare-eq-lexicographic a b) ∙ h))
