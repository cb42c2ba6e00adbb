-- ===== src/Coding/Varint.antt =====
-- Variable-length integers: the encoders and the decoders (util/coding.cc).
use mathlib.Core.WellFounded.{Acc}
use pebblesdb.Common.{
  ℕ, zero, suc, ◌+◌, ◌*◌, ◌/◌, ◌%◌, ◌^◌, ◌<◌, ◌≤◌, ◌≡◌, refl, sym, ap, ◌∙◌, [], ◌∷◌, ◌++◌, Bytes,
  IsByte, All, arith, bit_and, bit_or, none, some, length, if◌then◌else◌, ltb,
}
use pebblesdb.Common.Bits.{
  bit_and_127, bit_and_128, bit_or_128, bit_or_low_high, bit_or-lt, zero-bit_or,
}
use native.Mathlib.Nat.{pow-suc, div-add-mod, mod-eq_of_lt, mod-lt}
use native.Mathlib.Numerals.{towards_suc}
use pebblesdb.Common.Order.{lt_wf}
use pebblesdb.Coding.{
  shl, encode_varint32, encode_varint64, encode_varint64_loop, varint_length, varint_length_loop,
  get_varint_loop, get_varint32, get_varint32_ptr, get_varint32_ptr_fallback, get_varint64,
  get_varint64_ptr,
}

-- The groups of seven bits of `v`, lowest first: each but the last has the top bit set. `k` bounds
-- the number of the groups behind the first.
unfoldable pub groups : ℕ → ℕ → Bytes
groups zero v = v ∷ []
groups (suc k) v =
    let rest = groups k (v / 128) in if ltb v 128 then v ∷ [] else (v % 128 + 128) ∷ rest

loop-eq-groups : (k v : ℕ) (w : Acc ◌<◌ v) → v < 128 ^ suc k → encode_varint64_loop v w ≡ groups k v
unfolding encode_varint64_loop groups
loop-eq-groups zero v (Acc.intro _ smaller) h = ground arith
loop-eq-groups (suc k) v (Acc.intro _ smaller) h = grind (
  arith,
  bit_and_127 v,
  bit_or_128 (v % 128),
  λ (w : Acc ◌<◌ (v / 128)). loop-eq-groups k (v / 128) w (omega arith),
)

pub encode_varint64-eq-groups : (v : ℕ) → v < 2 ^ 64 → encode_varint64 v ≡ groups 9 v
unfolding encode_varint64
encode_varint64-eq-groups v h = loop-eq-groups 9 v (lt_wf.apply v) (omega arith)

groups_last : (k v : ℕ) → v < 128 → groups k v ≡ v ∷ []
unfolding groups
groups_last zero v h = refl
groups_last (suc k) v h = ground arith

groups_more : (k v : ℕ) → 128 ≤ v → groups (suc k) v ≡ (v % 128 + 128) ∷ groups k (v / 128)
unfolding groups
groups_more k v h = ground arith

-- The stored byte of `v | B` and the stored byte of the last group.
more_byte : (v : ℕ) → bit_or v 128 % 256 ≡ v % 128 + 128
more_byte v = omega (arith, bit_or_128 v)

pub encode_varint32-eq-groups : (v : ℕ) → v < 2 ^ 32 → encode_varint32 v ≡ groups 4 v
unfolding encode_varint32
encode_varint32-eq-groups v h = simp more_byte (
    ground (
      arith,
      groups_last 4 v,
      groups_more 3 v,
      groups_last 3 (v / 128),
      groups_more 2 (v / 128),
      groups_last 2 (v / 128 / 128),
      groups_more 1 (v / 128 / 128),
      groups_last 1 (v / 128 / 128 / 128),
      groups_more 0 (v / 128 / 128 / 128),
      groups_last 0 (v / 128 / 128 / 128 / 128),
    ))

groups_fuel : (k m v : ℕ) → v < 128 ^ suc k → v < 128 ^ suc m → groups k v ≡ groups m v
unfolding groups
groups_fuel zero m v h i = sym (groups_last m v (omega arith))
groups_fuel (suc k) zero v h i = groups_last (suc k) v (omega arith)
groups_fuel (suc k) (suc m) v h i = ground (
  arith,
  groups_last (suc k) v,
  groups_last (suc m) v,
  groups_more k v,
  groups_more m v,
  pow-suc 128 (suc k),
  pow-suc 128 (suc m),
  groups_fuel k m (v / 128),
)

-- The unrolled 32-bit encoder writes the same bytes as the 64-bit loop.
pub encode_varint32-eq-encode_varint64 :
    (v : ℕ) → v < 2 ^ 32 → encode_varint32 v ≡ encode_varint64 v
encode_varint32-eq-encode_varint64 v h =
    encode_varint32-eq-groups v h
    ∙ groups_fuel 4 9 v (omega arith) (omega arith)
    ∙ sym (encode_varint64-eq-groups v (omega arith))

shift_seven : (s : ℕ) → 2 ^ (s + 7) ≡ 128 * 2 ^ s
shift_seven s = simp towards_suc (omega arith)

-- The low group of `v` and the rest, both shifted by `s`.
split_group : (v s : ℕ) → v * 2 ^ s ≡ v % 128 * 2 ^ s + v / 128 * 2 ^ (s + 7)
split_group v s = omega (
  arith,
  ap (λ (t : ℕ). t * 2 ^ s) (div-add-mod v 128),
  ap (λ (t : ℕ). v / 128 * t) (shift_seven s),
)

-- One round of the decoder, on a last byte and on a byte with more to come.
last_round :
    (bits last v shift acc : ℕ) (rest : Bytes)
    → v < 128
    → shift ≤ last
    → acc < 2 ^ shift
    → v * 2 ^ shift < 2 ^ bits
    → get_varint_loop bits last (v ∷ rest) shift acc ≡ some (acc + v * 2 ^ shift, rest)
unfolding get_varint_loop
last_round bits last v shift acc rest hv hs ha fits =
    ground (arith, bit_and_128 v, bit_or_low_high shift acc v, mod-eq_of_lt fits)

continue_round :
    (bits last b shift acc : ℕ) (rest : Bytes)
    → bit_and b 128 ≡ 128
    → shift ≤ last
    → get_varint_loop bits last (b ∷ rest) shift acc
      ≡ get_varint_loop bits last rest (shift + 7) (bit_or acc (shl bits (bit_and b 127) shift))
unfolding get_varint_loop
continue_round bits last b shift acc rest hb hs = ground arith

more_round :
    (bits last g shift acc : ℕ) (rest : Bytes)
    → g < 128
    → shift ≤ last
    → acc < 2 ^ shift
    → g * 2 ^ shift < 2 ^ bits
    → get_varint_loop bits last ((g + 128) ∷ rest) shift acc
      ≡ get_varint_loop bits last rest (shift + 7) (acc + g * 2 ^ shift)
more_round bits last g shift acc rest hg hs ha fits =
    continue_round bits last (g + 128) shift acc rest (omega (arith, bit_and_128 (g + 128))) hs
    ∙ ap (get_varint_loop bits last rest (shift + 7)) new_acc
  where
    low : bit_and (g + 128) 127 ≡ g
    low = omega (arith, bit_and_127 (g + 128))

    new_acc : bit_or acc (shl bits (bit_and (g + 128) 127) shift) ≡ acc + g * 2 ^ shift
    new_acc = rw (low, mod-eq_of_lt fits) (bit_or_low_high shift acc g ha)

acc_bound : (g shift acc : ℕ) → g < 128 → acc < 2 ^ shift → acc + g * 2 ^ shift < 2 ^ (shift + 7)
acc_bound g shift acc hg ha = rw shift_seven (grind arith)

loop_groups :
    (bits last k v shift acc : ℕ) (rest : Bytes)
    → v < 128 ^ suc k
    → last ≡ shift + 7 * k
    → acc < 2 ^ shift
    → acc + v * 2 ^ shift < 2 ^ bits
    → get_varint_loop bits last (groups k v ++ rest) shift acc ≡ some (acc + v * 2 ^ shift, rest)
unfolding groups
loop_groups bits last zero v shift acc rest hv hl ha fits =
    last_round bits last v shift acc rest (omega arith) (omega arith) ha (omega arith)
loop_groups bits last (suc k) v shift acc rest hv hl ha fits = ground (
  arith,
  pow-suc 128 (suc k),
  last_round bits last v shift acc rest,
  split_group v shift,
  more_round bits last (v % 128) shift acc (groups k (v / 128) ++ rest),
  acc_bound (v % 128) shift acc,
  loop_groups bits last k (v / 128) (shift + 7) (acc + v % 128 * 2 ^ shift) rest,
)

-- GetVarint64 reads the value that EncodeVarint64 wrote and leaves whatever follows it.
pub get_varint64-encode_varint64 :
    (v : ℕ) (rest : Bytes) → v < 2 ^ 64 → get_varint64 (encode_varint64 v ++ rest) ≡ some (v, rest)
unfolding get_varint64 get_varint64_ptr
get_varint64-encode_varint64 v rest h =
    rw (encode_varint64-eq-groups v h) (ground (arith, loop_groups 64 63 9 v 0 0 rest))

-- The fast path of GetVarint32Ptr answers as the loop does.
pub get_varint32_ptr-eq-fallback :
    (p : Bytes) → All IsByte p → get_varint32_ptr p ≡ get_varint32_ptr_fallback p
unfolding get_varint32_ptr get_varint32_ptr_fallback get_varint_loop
get_varint32_ptr-eq-fallback [] h = refl
get_varint32_ptr-eq-fallback (b ∷ p) h = ground (arith, zero-bit_or b)

groups-IsByte : (k v : ℕ) → v < 128 ^ suc k → All IsByte (groups k v)
unfolding groups
groups-IsByte zero v h = omega arith
groups-IsByte (suc k) v h = ground (arith, pow-suc 128 (suc k), groups-IsByte k (v / 128))

-- Behind the fast path only the first byte matters.
first_group :
    (k v : ℕ) (rest : Bytes)
    → v < 128 ^ suc k
    → get_varint32_ptr_fallback (groups k v ++ rest) ≡ some (v, rest)
    → get_varint32_ptr (groups k v ++ rest) ≡ some (v, rest)
unfolding groups get_varint32_ptr
first_group zero v rest h e = ground (arith, bit_and_128 v)
first_group (suc k) v rest h e = ground (arith, bit_and_128 v, bit_and_128 (v % 128 + 128))

-- GetVarint32 reads the value that EncodeVarint32 wrote and leaves whatever follows it.
pub get_varint32-encode_varint32 :
    (v : ℕ) (rest : Bytes) → v < 2 ^ 32 → get_varint32 (encode_varint32 v ++ rest) ≡ some (v, rest)
unfolding get_varint32 get_varint32_ptr_fallback
get_varint32-encode_varint32 v rest h =
    rw (encode_varint32-eq-groups v h) (first_group 4 v rest (omega arith) decoded)
  where
    decoded : get_varint32_ptr_fallback (groups 4 v ++ rest) ≡ some (v, rest)
    decoded = ground (arith, loop_groups 32 28 4 v 0 0 rest)

-- VarintLength counts the bytes that EncodeVarint64 writes.
varint_length_loop-encode :
    (v len : ℕ) (w : Acc ◌<◌ v)
    → varint_length_loop v (len + 1) w ≡ len + length (encode_varint64_loop v w)
unfolding varint_length_loop encode_varint64_loop
varint_length_loop-encode v len (Acc.intro _ smaller) = grind (
  arith,
  λ (h : v / 128 < v). varint_length_loop-encode (v / 128) (len + 1) (smaller (v / 128) h),
)

pub varint_length-encode_varint64 : (v : ℕ) → varint_length v ≡ length (encode_varint64 v)
unfolding varint_length encode_varint64
varint_length-encode_varint64 v = varint_length_loop-encode v 0 (lt_wf.apply v) ∙ omega arith

next_acc : (bits acc x shift : ℕ) → acc < 2 ^ bits → bit_or acc (shl bits x shift) < 2 ^ bits
next_acc bits acc x shift h = bit_or-lt bits acc (shl bits x shift) h (mod-lt _ (omega arith))

no_round :
    (bits last : ℕ) (p : Bytes) (shift acc : ℕ)
    → last < shift
    → get_varint_loop bits last p shift acc ≡ none
unfolding get_varint_loop
no_round bits last [] shift acc h = refl
no_round bits last (b ∷ p) shift acc h = ground arith

-- A successful read takes a byte at least, one for each round at most, and its value fits.
get_varint_loop_takes :
    (bits last k : ℕ) (p : Bytes) (shift acc v : ℕ) (rest : Bytes)
    → last ≡ shift + 7 * k
    → acc < 2 ^ bits
    → get_varint_loop bits last p shift acc ≡ some (v, rest)
    → (v < 2 ^ bits) × (length rest < length p) × (length p ≤ length rest + k + 1)
unfolding get_varint_loop
get_varint_loop_takes bits last k [] shift acc v rest e ha h = cc
get_varint_loop_takes bits last zero (b ∷ p) shift acc v rest e ha h = ground (
  arith,
  next_acc bits acc b shift,
  no_round bits last p (shift + 7) (bit_or acc (shl bits (bit_and b 127) shift)),
)
get_varint_loop_takes bits last (suc k) (b ∷ p) shift acc v rest e ha h = ground (
  arith,
  next_acc bits acc b shift,
  next_acc bits acc (bit_and b 127) shift,
  get_varint_loop_takes bits last k p (shift + 7) (bit_or acc (shl bits (bit_and b 127) shift)) v
      rest,
)

-- GetVarint64 returns a 64-bit value and takes 1 to 10 bytes.
pub get_varint64_takes :
    (p : Bytes) (v : ℕ) (rest : Bytes)
    → get_varint64 p ≡ some (v, rest)
    → (v < 2 ^ 64) × (length rest < length p) × (length p ≤ length rest + 10)
unfolding get_varint64 get_varint64_ptr
get_varint64_takes p v rest h = ground (arith, get_varint_loop_takes 64 63 9 p 0 0 v rest)

-- GetVarint32 returns a 32-bit value and takes 1 to 5 bytes.
pub get_varint32_takes :
    (p : Bytes) (v : ℕ) (rest : Bytes)
    → All IsByte p
    → get_varint32 p ≡ some (v, rest)
    → (v < 2 ^ 32) × (length rest < length p) × (length p ≤ length rest + 5)
unfolding get_varint32 get_varint32_ptr_fallback
get_varint32_takes p v rest bytes h =
    ground (arith, get_varint32_ptr-eq-fallback p bytes, get_varint_loop_takes 32 28 4 p 0 0 v rest)

get_varint_loop_shorter :
    (bits last : ℕ) (p : Bytes) (shift acc v : ℕ) (rest : Bytes)
    → get_varint_loop bits last p shift acc ≡ some (v, rest)
    → length rest < length p
unfolding get_varint_loop
get_varint_loop_shorter bits last [] shift acc v rest h = cc
get_varint_loop_shorter bits last (b ∷ p) shift acc v rest h = ground (
  arith,
  get_varint_loop_shorter bits last p (shift + 7) (bit_or acc (shl bits (bit_and b 127) shift)) v
      rest,
)

-- GetVarint32 takes a byte at least.
pub get_varint32_shorter :
    (p : Bytes) (v : ℕ) (rest : Bytes) → get_varint32 p ≡ some (v, rest) → length rest < length p
unfolding get_varint32 get_varint32_ptr get_varint32_ptr_fallback
get_varint32_shorter [] v rest h = get_varint_loop_shorter 32 28 [] 0 0 v rest h
get_varint32_shorter (b ∷ p) v rest h =
    ground (arith, get_varint_loop_shorter 32 28 (b ∷ p) 0 0 v rest)
