-- ===== src/Common/Bits.antt =====
-- The bit operations of the source at variables, as arithmetic.
use Prim.Native.Nat.{ℕ, zero, suc, ◌+◌, ◌-◌, ◌*◌, ◌/◌, ◌%◌, ◌^◌, ◌≤◌, ◌<◌, min, max}
use Prim.Native.Nat.{bit_and, bit_or, digits, bit_and-bitwise, bit_or-bitwise}
use mathlib.Core.Path.{◌≡◌, refl, sym, ap, ◌∙◌}
use native.Mathlib.Omega.{arith}
use native.Mathlib.Nat.{pow-suc, one-le-pow, div-div-eq-div-mul}

-- Fuel beyond the number itself changes nothing, for any base case and any operation on digits.
module _ (base : ℕ → ℕ) (op : ℕ → ℕ → ℕ) where
  digits_least :
      (bound a fuel b : ℕ) → a ≤ bound → a ≤ fuel → digits base op fuel a b ≡ digits base op a a b
  digits_least bound zero zero b small enough = refl
  digits_least bound zero (suc fuel) b small enough = refl
  digits_least zero (suc a) fuel b small enough = absurd (omega arith)
  digits_least (suc bound) (suc a) zero b small enough = absurd (omega arith)
  digits_least (suc bound) (suc a) (suc fuel) b small enough =
      let h = suc a / 2 in
      omega (
        arith,
        digits_least bound h fuel (b / 2) (omega arith) (omega arith),
        digits_least bound h a (b / 2) (omega arith) (omega arith),
      )

  lowest_digit :
      (a b : ℕ)
      → digits base op (suc a) (suc a) b
        ≡ digits base op (suc a / 2) (suc a / 2) (b / 2) * 2 + op (suc a % 2) (b % 2)
  lowest_digit a b =
      let h = suc a / 2 in omega (arith, digits_least h h a (b / 2) (omega arith) (omega arith))

bit_and-zero_left : (b : ℕ) → bit_and 0 b ≡ 0
bit_and-zero_left = bit_and-bitwise 0

pub zero-bit_or : (b : ℕ) → bit_or 0 b ≡ b
zero-bit_or = bit_or-bitwise 0

-- The lowest digit of a conjunction and of a disjunction.
pub bit_and_step : (a b : ℕ) → bit_and a b ≡ min (a % 2) (b % 2) + 2 * bit_and (a / 2) (b / 2)
bit_and_step zero b = omega (arith, bit_and-zero_left (b / 2), bit_and-zero_left b)
bit_and_step (suc a) b =
    let here = bit_and-bitwise (suc a) b in
    let there = bit_and-bitwise (suc a / 2) (b / 2) in
    omega (arith, lowest_digit (λ _. 0) min a b, here, there)

pub bit_or_step : (a b : ℕ) → bit_or a b ≡ max (a % 2) (b % 2) + 2 * bit_or (a / 2) (b / 2)
bit_or_step zero b = omega (arith, zero-bit_or (b / 2), zero-bit_or b)
bit_or_step (suc a) b =
    let here = bit_or-bitwise (suc a) b in
    let there = bit_or-bitwise (suc a / 2) (b / 2) in
    omega (arith, lowest_digit (λ d. d) max a b, here, there)

-- `2 ^ suc k` as a product that `omega` reads, alone and under a factor.
pub two-pow-suc : (k : ℕ) → 2 ^ suc k ≡ 2 * 2 ^ k
two-pow-suc k = omega (arith, pow-suc 2 k)

shifted_twice : (k high : ℕ) → high * 2 ^ suc k ≡ high * 2 ^ k + high * 2 ^ k
shifted_twice k high = omega (arith, ap (λ (power : ℕ). high * power) (two-pow-suc k))

-- Both operations are commutative, and zero is neutral or absorbing.
bit_or_comm_below : (bound a b : ℕ) → a ≤ bound → b ≤ bound → bit_or a b ≡ bit_or b a
bit_or_comm_below zero a b ha hb = ground arith
bit_or_comm_below (suc bound) a b ha hb = ground (
  arith,
  bit_or_step b a,
  bit_or_comm_below bound (a / 2) (b / 2) (omega arith) (omega arith),
  bit_or_step a b,
)

bit_or_comm : (a b : ℕ) → bit_or a b ≡ bit_or b a
bit_or_comm a b = bit_or_comm_below (a + b) a b (omega arith) (omega arith)

pub bit_or-zero : (a : ℕ) → bit_or a 0 ≡ a
bit_or-zero a = bit_or_comm a 0 ∙ zero-bit_or a

bit_and_comm_below : (bound a b : ℕ) → a ≤ bound → b ≤ bound → bit_and a b ≡ bit_and b a
bit_and_comm_below zero a b ha hb = ground arith
bit_and_comm_below (suc bound) a b ha hb = ground (
  arith,
  bit_and_step b a,
  bit_and_comm_below bound (a / 2) (b / 2) (omega arith) (omega arith),
  bit_and_step a b,
)

pub bit_and-zero : (a : ℕ) → bit_and a 0 ≡ 0
bit_and-zero a = bit_and_comm_below a a 0 (omega arith) (omega arith) ∙ bit_and-zero_left a

-- `low | (high << k)` is a sum when `low` has `k` bits, and so is `(high << k) | low`.
pub bit_or_low_high :
    (k low high : ℕ) → low < 2 ^ k → bit_or low (high * 2 ^ k) ≡ low + high * 2 ^ k
bit_or_low_high zero low high fits = ground (arith, zero-bit_or high)
bit_or_low_high (suc k) low high fits =
    let halves = bit_or_low_high k (low / 2) high (omega (arith, two-pow-suc k)) in
    ground (arith, halves, shifted_twice k high, bit_or_step low (high * 2 ^ suc k))

pub bit_or_high_low :
    (k high low : ℕ) → low < 2 ^ k → bit_or (high * 2 ^ k) low ≡ high * 2 ^ k + low
bit_or_high_low k high low fits =
    omega (arith, bit_or_comm (high * 2 ^ k) low, bit_or_low_high k low high fits)

-- `a & (2^k - 1)` is the remainder, for the masks of the source.
pub bit_and_1 : (a : ℕ) → bit_and a 1 ≡ a % 2
bit_and_1 a = omega (arith, bit_and_step a 1, bit_and-zero (a / 2))

bit_and_15 : (a : ℕ) → bit_and a 15 ≡ a % 16
bit_and_15 a = omega (
  arith,
  bit_and_step a 15,
  bit_and_step (a / 2) 7,
  bit_and_step (a / 2 / 2) 3,
  bit_and_1 (a / 2 / 2 / 2),
)

pub bit_and_127 : (a : ℕ) → bit_and a 127 ≡ a % 128
bit_and_127 a = omega (
  arith,
  bit_and_step a 127,
  bit_and_step (a / 2) 63,
  bit_and_step (a / 2 / 2) 31,
  bit_and_15 (a / 2 / 2 / 2),
)

pub bit_and_255 : (a : ℕ) → bit_and a 255 ≡ a % 256
bit_and_255 a = omega (arith, bit_and_step a 255, bit_and_127 (a / 2))

bit_and_8 : (a : ℕ) → bit_and a 8 ≡ a / 8 % 2 * 8
bit_and_8 a = omega (
  arith,
  bit_and_step a 8,
  bit_and_step (a / 2) 4,
  bit_and_step (a / 2 / 2) 2,
  bit_and_1 (a / 2 / 2 / 2),
)

-- `a & 128` tests the top bit of the low byte.
pub bit_and_128 : (a : ℕ) → bit_and a 128 ≡ a / 128 % 2 * 128
bit_and_128 a = omega (
  arith,
  bit_and_step a 128,
  bit_and_step (a / 2) 64,
  bit_and_step (a / 2 / 2) 32,
  bit_and_step (a / 2 / 2 / 2) 16,
  bit_and_8 (a / 2 / 2 / 2 / 2),
)

bit_or_1 : (a : ℕ) → bit_or a 1 ≡ a / 2 * 2 + 1
bit_or_1 a = omega (arith, bit_or_step a 1, bit_or-zero (a / 2))

bit_or_8 : (a : ℕ) → bit_or a 8 ≡ a / 16 * 16 + a % 8 + 8
bit_or_8 a = omega (
  arith,
  bit_or_step a 8,
  bit_or_step (a / 2) 4,
  bit_or_step (a / 2 / 2) 2,
  bit_or_1 (a / 2 / 2 / 2),
)

-- `a | 128` sets the top bit of the low byte and leaves the rest.
pub bit_or_128 : (a : ℕ) → bit_or a 128 ≡ a / 256 * 256 + a % 128 + 128
bit_or_128 a = omega (
  arith,
  bit_or_step a 128,
  bit_or_step (a / 2) 64,
  bit_or_step (a / 2 / 2) 32,
  bit_or_step (a / 2 / 2 / 2) 16,
  bit_or_8 (a / 2 / 2 / 2 / 2),
)

-- `|` stays within the bits of its operands.
pub bit_or-lt : (k a b : ℕ) → a < 2 ^ k → b < 2 ^ k → bit_or a b < 2 ^ k
bit_or-lt zero a b ha hb = ground (arith, bit_or-zero a)
bit_or-lt (suc k) a b ha hb =
    ground (arith, two-pow-suc k, bit_or_step a b, bit_or-lt k (a / 2) (b / 2))

-- A mask of `k` ones keeps the low part of a number that is given in two parts.
bit_and_low : (k high low : ℕ) → low < 2 ^ k → bit_and (high * 2 ^ k + low) (2 ^ k - 1) ≡ low
bit_and_low zero high low fits = omega (arith, bit_and-zero (high * 1 + low))
bit_and_low (suc k) high low fits =
    let halves = bit_and_low k high (low / 2) (omega (arith, two-pow-suc k)) in
    let digit = bit_and_step (high * 2 ^ suc k + low) (2 ^ suc k - 1) in
    ground (arith, digit, halves, shifted_twice k high, two-pow-suc k, one-le-pow k 2)

-- `a & (2^k - 1)` is the remainder, at every width.
pub bit_and_mask : (k a : ℕ) → bit_and a (2 ^ k - 1) ≡ a % 2 ^ k
bit_and_mask k a =
    let power = one-le-pow k 2 in ground (arith, bit_and_low k (a / 2 ^ k) (a % 2 ^ k), power)

-- A mask with a zero at its low end.
bit_and-double : (a m : ℕ) → bit_and a (m + m) ≡ bit_and (a / 2) m + bit_and (a / 2) m
bit_and-double a m = ground (arith, bit_and_step a (m + m), ap (bit_and (a / 2)) halves)
  where
    halves : (m + m) / 2 ≡ m
    halves = omega arith

halved : (k a : ℕ) → a / 2 ^ suc k ≡ a / 2 / 2 ^ k
halved k a = ap (λ p. a / p) (two-pow-suc k) ∙ sym (div-div-eq-div-mul a 2 (2 ^ k))

-- A mask with `k` zeros at its low end.
pub bit_and_shifted : (k a m : ℕ) → bit_and a (m * 2 ^ k) ≡ bit_and (a / 2 ^ k) m * 2 ^ k
bit_and_shifted zero a m = ground arith
bit_and_shifted (suc k) a m =
    rw
      (
        shifted_twice k m,
        shifted_twice k (bit_and (a / 2 ^ suc k) m),
        bit_and-double a (m * 2 ^ k),
        bit_and_shifted k (a / 2) m,
        halved k a,
      )
      refl

bit_or_ge_below : (bound a b : ℕ) → a ≤ bound → a ≤ bit_or a b
bit_or_ge_below zero a b h = omega arith
bit_or_ge_below (suc bound) zero b h = omega arith
bit_or_ge_below (suc bound) (suc a) b h =
    omega (arith, bit_or_step (suc a) b, bit_or_ge_below bound (suc a / 2) (b / 2) (omega arith))

-- A disjunction is at least each of its parts.
pub bit_or_ge : (a b : ℕ) → (a ≤ bit_or a b) × (b ≤ bit_or a b)
bit_or_ge a b = (
  bit_or_ge_below a a b (omega arith),
  omega (arith, bit_or_comm a b, bit_or_ge_below b b a (omega arith)),
)
