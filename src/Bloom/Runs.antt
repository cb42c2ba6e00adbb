-- ===== src/Bloom/Runs.antt =====
-- Concrete runs, and the theorem at concrete keys.
use pebblesdb.Common.{◌≡◌, refl, [], ◌∷◌, List, Bytes, true, false, inl, inr, drop, arith}
use pebblesdb.Bloom.{
  BloomFilterPolicy, new_bloom_filter_policy, hash, bloom_hash, hash_loop, create_filter,
  key_may_match, match_probes, add_probes,
}
use pebblesdb.Bloom.Match.{key_may_match-create_filter}

abbrev ten_bits : BloomFilterPolicy
ten_bits = record { bits_per_key = 10; k = 6; byte_size = 0; filter_count = 0 }

ten_bits_constructed : new_bloom_filter_policy 10 6 ≡ ten_bits
unfolding new_bloom_filter_policy
ten_bits_constructed = refl

-- The hash of one byte.
hash_one_byte : hash (0x62 ∷ []) 0xbc9f1d34 ≡ 0xef1345c4
unfolding hash hash_loop pebblesdb.Coding.decode_fixed32
hash_one_byte = refl

abbrev two_keys : List Bytes
two_keys = (1 ∷ []) ∷ (2 ∷ 3 ∷ []) ∷ []

other_key_fails :
    key_may_match ten_bits (9 ∷ []) (drop 1 (create_filter ten_bits two_keys (7 ∷ [])).1) ≡ false
unfolding key_may_match create_filter match_probes add_probes bloom_hash hash hash_loop
    pebblesdb.Coding.decode_fixed32
other_key_fails = refl

key_may_match-create_filter_example :
    key_may_match ten_bits (2 ∷ 3 ∷ []) (drop 1 (create_filter ten_bits two_keys (7 ∷ [])).1) ≡ true
key_may_match-create_filter_example =
    key_may_match-create_filter ten_bits ten_bits two_keys (7 ∷ []) (2 ∷ 3 ∷ []) (omega arith)
      (omega arith) (inr (inl refl))
