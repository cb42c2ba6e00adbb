-- ===== src/Bloom/Bits.antt =====
-- Setting and testing the bits of a filter (util/bloom.cc).
use pebblesdb.Common.{
  ℕ, zero, suc, ◌+◌, ◌*◌, ◌/◌, ◌%◌, ◌^◌, ◌<◌, ◌≤◌, ◌≡◌, refl, ap, bit_and, bit_or, [], ◌∷◌, Bytes,
  arith, length, get_or,
}
use pebblesdb.Common.Bits.{bit_and_step, bit_or_step}
use native.Mathlib.Nat.{one-le-pow}
use pebblesdb.Bloom.{or_at, set_bit, get_bit}

half-bit_or : (a b : ℕ) → bit_or a b / 2 ≡ bit_or (a / 2) (b / 2)
half-bit_or a b = omega (arith, bit_or_step a b)

bit_and-le_below : (bound x y z : ℕ) → x ≤ bound → z ≤ bound → bit_and x y ≤ bit_and (bit_or x z) y
bit_and-le_below zero x y z hx hz = ground arith
bit_and-le_below (suc bound) x y z hx hz = omega (
  arith,
  bit_and_step x y,
  bit_or_step x z,
  bit_and_step (bit_or x z) y,
  ap (λ (t : ℕ). bit_and t (y / 2)) (half-bit_or x z),
  bit_and-le_below bound (x / 2) (y / 2) (z / 2) (omega arith) (omega arith),
)

bit_and-le : (x y z : ℕ) → bit_and x y ≤ bit_and (bit_or x z) y
bit_and-le x y z = bit_and-le_below (x + z) x y z (omega arith) (omega arith)

bit_and-bit_or_below : (bound x y : ℕ) → x ≤ bound → y ≤ bound → bit_and (bit_or x y) y ≡ y
bit_and-bit_or_below zero x y hx hy = ground arith
bit_and-bit_or_below (suc bound) x y hx hy = omega (
  arith,
  bit_or_step x y,
  bit_and_step (bit_or x y) y,
  ap (λ (t : ℕ). bit_and t (y / 2)) (half-bit_or x y),
  bit_and-bit_or_below bound (x / 2) (y / 2) (omega arith) (omega arith),
)

bit_and-bit_or : (x y : ℕ) → bit_and (bit_or x y) y ≡ y
bit_and-bit_or x y = bit_and-bit_or_below (x + y) x y (omega arith) (omega arith)

pub length-or_at : (bs : Bytes) (i mask : ℕ) → length (or_at bs i mask) ≡ length bs
length-or_at [] i mask = refl
length-or_at (b ∷ bs) zero mask = refl
length-or_at (b ∷ bs) (suc i) mask = ap suc (length-or_at bs i mask)

-- A byte after the update keeps the bits that it had.
or_at_keeps :
    (bs : Bytes) (i mask j m : ℕ)
    → bit_and (get_or bs j 0) m ≤ bit_and (get_or (or_at bs i mask) j 0) m
or_at_keeps [] i mask j m = omega arith
or_at_keeps (b ∷ bs) zero mask zero m = bit_and-le b m mask
or_at_keeps (b ∷ bs) zero mask (suc j) m = omega arith
or_at_keeps (b ∷ bs) (suc i) mask zero m = omega arith
or_at_keeps (b ∷ bs) (suc i) mask (suc j) m = or_at_keeps bs i mask j m

or_at_sets :
    (bs : Bytes) (i mask : ℕ) → i < length bs → bit_and (get_or (or_at bs i mask) i 0) mask ≡ mask
or_at_sets [] i mask h = absurd (omega arith)
or_at_sets (b ∷ bs) zero mask h = bit_and-bit_or b mask
or_at_sets (b ∷ bs) (suc i) mask h = or_at_sets bs i mask (omega arith)

pub get_bit-set_bit :
    (array : Bytes) (pos other : ℕ) → get_bit array other ≤ get_bit (set_bit array pos) other
get_bit-set_bit array pos other =
    or_at_keeps array (pos / 8) (2 ^ (pos % 8)) (other / 8) (2 ^ (other % 8))

pub set_bit-sets :
    (array : Bytes) (pos : ℕ) → pos < length array * 8 → 1 ≤ get_bit (set_bit array pos) pos
set_bit-sets array pos h =
    omega (arith, or_at_sets array (pos / 8) (2 ^ (pos % 8)) (omega arith), one-le-pow (pos % 8) 2)
