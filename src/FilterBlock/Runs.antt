-- ===== src/FilterBlock/Runs.antt =====
-- The theorems at concrete keys.
use mathlib.Core.List.{foldl}
use pebblesdb.Common.{◌≡◌, refl, ap, some, none, [], ◌∷◌, Bytes, true, inl, inr, arith}
use pebblesdb.Bloom.{BloomFilterPolicy, bloom_filter, key_may_match, create_filter}
use pebblesdb.FilterBlock.{cleared, add_filter_key, generate_filter}
use pebblesdb.FilterBlock.Slices.{generate_filter-add_filter_key, key_may_match-generate_filter}

abbrev ten_bits : BloomFilterPolicy
ten_bits = record { bits_per_key = 10; k = 6; byte_size = 0; filter_count = 0 }

no_keys : generate_filter (some bloom_filter) ten_bits cleared ≡ (ten_bits, none, cleared)
unfolding generate_filter
no_keys = refl

generate_filter-add_filter_key_example :
    generate_filter
      (some bloom_filter)
      ten_bits
      (foldl (add_filter_key (some bloom_filter)) cleared ((1 ∷ []) ∷ (2 ∷ 3 ∷ []) ∷ []))
    ≡ (
      (create_filter ten_bits ((1 ∷ []) ∷ (2 ∷ 3 ∷ []) ∷ []) []).0,
      some (create_filter ten_bits ((1 ∷ []) ∷ (2 ∷ 3 ∷ []) ∷ []) []).1,
      cleared,
    )
generate_filter-add_filter_key_example =
    generate_filter-add_filter_key bloom_filter ten_bits (1 ∷ []) ((2 ∷ 3 ∷ []) ∷ [])

abbrev made_filter : Bytes
made_filter = (create_filter ten_bits ((1 ∷ []) ∷ (2 ∷ 3 ∷ []) ∷ []) []).1

key_may_match-generate_filter_example : key_may_match ten_bits (2 ∷ 3 ∷ []) made_filter ≡ true
key_may_match-generate_filter_example =
    key_may_match-generate_filter ten_bits ten_bits (1 ∷ []) ((2 ∷ 3 ∷ []) ∷ []) (2 ∷ 3 ∷ [])
      made_filter (omega arith) (omega arith) (inr (inl refl))
      (ap (λ r. r.1)
        (generate_filter-add_filter_key bloom_filter ten_bits (1 ∷ []) ((2 ∷ 3 ∷ []) ∷ [])))
