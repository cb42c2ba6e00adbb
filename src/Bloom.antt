-- ===== src/Bloom.antt =====
-- util/hash.cc, include/pebblesdb/filter_policy.h and util/bloom.cc: the hash of a key, the contract of a
-- filter policy, and the Bloom filter. Plain `char` is signed, as on x86. The product
-- `bits_per_key * 0.69`, computed in floating point, is an argument of the constructor.
pub mod Bits
pub mod Match
mod Runs
use mathlib.Core.List.{foldl}
use pebblesdb.Common.{
  ℕ, zero, suc, ◌+◌, ◌-◌, ◌*◌, ◌/◌, ◌%◌, ◌^◌, ◌<◌, bit_and, bit_or, bit_xor, Bool, true, false,
  List, [], ◌∷◌, ◌++◌, Bytes, ltb, ◌==◌, if◌then◌else◌, length, get_or, replicate,
}
use pebblesdb.Coding.{decode_fixed32}

abbrev hash_m : ℕ
hash_m = 0xc6a4a793

-- A `char` that is added to a 32-bit register.
abbrev char_value : ℕ → ℕ
char_value b = if ltb b 128 then b else b + (2 ^ 32 - 256)

abbrev add32 : ℕ → ℕ → ℕ
add32 h x = (h + x) % 2 ^ 32

-- `h *= m; h ^= (h >> shift);`
abbrev scramble : ℕ → ℕ → ℕ
scramble shift h = let h' = h * hash_m % 2 ^ 32 in bit_xor h' (h' / 2 ^ shift)

-- Four bytes at a time, then the switch on the bytes that remain.
hash_loop : Bytes → ℕ → ℕ
hash_loop (a ∷ b ∷ c ∷ d ∷ rest) h =
    hash_loop rest (scramble 16 (add32 h (decode_fixed32 (a ∷ b ∷ c ∷ d ∷ []))))
hash_loop (a ∷ b ∷ c ∷ []) h =
    scramble 24
      (add32 (add32 (add32 h (char_value c * 2 ^ 16)) (char_value b * 2 ^ 8)) (char_value a))
hash_loop (a ∷ b ∷ []) h = scramble 24 (add32 (add32 h (char_value b * 2 ^ 8)) (char_value a))
hash_loop (a ∷ []) h = scramble 24 (add32 h (char_value a))
hash_loop [] h = h

-- `n * m` is a product of 64-bit registers.
unfoldable pub hash : Bytes → ℕ → ℕ
unfolding hash_loop
hash key seed = hash_loop key (bit_xor seed (length key * hash_m % 2 ^ 64) % 2 ^ 32)

unfoldable pub bloom_hash : Bytes → ℕ
bloom_hash key = hash key 0xbc9f1d34

-- FilterPolicy, on a state `S` of the policy that CreateFilter may count in.
pub record FilterPolicy {ℓ} (S : Type ℓ) : Type ℓ where
  pub create_filter : S → List Bytes → Bytes → S × Bytes
  pub key_may_match : S → Bytes → Bytes → Bool

pub record BloomFilterPolicy : Type 0 where
  pub bits_per_key : ℕ
  pub k : ℕ
  pub byte_size : ℕ
  pub filter_count : ℕ

-- The constructor, with the product as `scaled`.
unfoldable pub new_bloom_filter_policy : ℕ → ℕ → BloomFilterPolicy
new_bloom_filter_policy bits_per_key scaled = record {
  bits_per_key = bits_per_key;
  k = if ltb scaled 1 then 1 else if ltb 30 scaled then 30 else scaled;
  byte_size = 0;
  filter_count = 0;
}

-- `array[bitpos / 8] |= (1 << (bitpos % 8))`
abbrev pub or_at : Bytes → ℕ → ℕ → Bytes
or_at [] i mask = []
or_at (b ∷ bs) zero mask = bit_or b mask ∷ bs
or_at (b ∷ bs) (suc i) mask = b ∷ or_at bs i mask

abbrev pub set_bit : Bytes → ℕ → Bytes
set_bit array bitpos = or_at array (bitpos / 8) (2 ^ (bitpos % 8))

-- `array[bitpos / 8] & (1 << (bitpos % 8))`
abbrev pub get_bit : Bytes → ℕ → ℕ
get_bit array bitpos = bit_and (get_or array (bitpos / 8) 0) (2 ^ (bitpos % 8))

-- `(h >> 17) | (h << 15)`
abbrev pub rotated : ℕ → ℕ
rotated h = bit_or (h / 2 ^ 17) (h * 2 ^ 15 % 2 ^ 32)

-- The inner loop of CreateFilter, `k` rounds from the hash `h`.
unfoldable pub add_probes : ℕ → ℕ → ℕ → ℕ → Bytes → Bytes
add_probes zero bits h delta array = array
add_probes (suc k) bits h delta array =
    add_probes k bits ((h + delta) % 2 ^ 32) delta (set_bit array (h % bits))

abbrev pub add_key : ℕ → ℕ → Bytes → Bytes → Bytes
add_key k bits array key = add_probes k bits (bloom_hash key) (rotated (bloom_hash key)) array

-- The size of the array in bytes, for `n` keys.
abbrev pub filter_bytes : ℕ → ℕ → ℕ
filter_bytes bits_per_key n =
    let bits = n * bits_per_key % 2 ^ 64 in ((if ltb bits 64 then 64 else bits) + 7) % 2 ^ 64 / 8

unfoldable pub create_filter : BloomFilterPolicy → List Bytes → Bytes → BloomFilterPolicy × Bytes
create_filter p keys dst =
    let bytes = filter_bytes p.bits_per_key (length keys) in
    (
      record p { byte_size = p.byte_size + bytes; filter_count = p.filter_count + 1 },
      dst ++ (foldl (add_key p.k (bytes * 8)) (replicate bytes 0) keys ++ p.k % 256 ∷ []),
    )

-- The loop of KeyMayMatch.
unfoldable pub match_probes : ℕ → ℕ → ℕ → ℕ → Bytes → Bool
match_probes zero bits h delta array = true
match_probes (suc k) bits h delta array =
    let rest = match_probes k bits ((h + delta) % 2 ^ 32) delta array in
    if get_bit array (h % bits) == 0 then false else rest

-- `k` is read from a `char`; one above 127 is negative there, and larger than 30 as a `size_t`.
unfoldable pub key_may_match : BloomFilterPolicy → Bytes → Bytes → Bool
key_may_match p key bloom_filter =
    let len = length bloom_filter in
    let k = get_or bloom_filter (len - 1) 0 in
    if ltb len 2
    then false
    else if ltb 30 k
    then true
    else match_probes k ((len - 1) * 8) (bloom_hash key) (rotated (bloom_hash key)) bloom_filter

abbrev pub bloom_filter : FilterPolicy BloomFilterPolicy
bloom_filter = record { create_filter = create_filter; key_may_match = key_may_match }
