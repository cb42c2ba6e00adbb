-- ===== src/Bloom/Match.antt =====
-- The Bloom filter against the contract of a filter policy (util/bloom.cc, filter_policy.h).
use mathlib.Core.List.{foldl}
use native.Mathlib.Nat.{mod-lt, mod-eq_of_lt}
use pebblesdb.Common.{
  length-replicate, ℕ, zero, suc, ◌+◌, ◌-◌, ◌*◌, ◌/◌, ◌%◌, ◌^◌, ◌<◌, ◌≤◌, ◌≡◌, ◌⊎◌, inl, inr, refl,
  sym, subst, ap, ◌∙◌, bit_and, Bool, true, false, List, [], ◌∷◌, ◌++◌, Bytes, arith, length,
  length-append, get_or, replicate, if◌then◌else◌, ltb, ltb-false, drop, drop-append,
}
use pebblesdb.Bloom.{
  BloomFilterPolicy, bloom_hash, set_bit, get_bit, rotated, add_probes, add_key, filter_bytes,
  create_filter, match_probes, key_may_match,
}
use pebblesdb.Bloom.Bits.{length-or_at, get_bit-set_bit, set_bit-sets}

-- Whether a key is one of a list.
abbrev pub IsIn : Bytes → List Bytes → Type 0
IsIn key [] = ⊥
IsIn key (k ∷ keys) = (key ≡ k) ⊎ IsIn key keys

length-add_probes :
    (k bits h delta : ℕ) (array : Bytes) → length (add_probes k bits h delta array) ≡ length array
unfolding add_probes
length-add_probes zero bits h delta array = refl
length-add_probes (suc k) bits h delta array =
    length-add_probes k bits ((h + delta) % 2 ^ 32) delta (set_bit array (h % bits))
    ∙ length-or_at array _ _

get_bit-add_probes :
    (k bits h delta : ℕ) (array : Bytes) (pos : ℕ)
    → get_bit array pos ≤ get_bit (add_probes k bits h delta array) pos
unfolding add_probes
get_bit-add_probes zero bits h delta array pos = omega arith
get_bit-add_probes (suc k) bits h delta array pos = omega (
  arith,
  get_bit-set_bit array (h % bits) pos,
  get_bit-add_probes k bits ((h + delta) % 2 ^ 32) delta (set_bit array (h % bits)) pos,
)

-- The probes of a hash match in every array that has the bits that they set.
match_probes-add_probes :
    (k bits h delta : ℕ) (array other : Bytes)
    → 1 ≤ bits
    → bits ≤ length array * 8
    → ((pos : ℕ) → pos < bits → get_bit (add_probes k bits h delta array) pos ≤ get_bit other pos)
    → match_probes k bits h delta other ≡ true
unfolding add_probes match_probes
match_probes-add_probes zero bits h delta array other some_bits fits covered = refl
match_probes-add_probes (suc k) bits h delta array other some_bits fits covered =
    let below = mod-lt h some_bits in
    ground (
      arith,
      match_probes-add_probes k bits ((h + delta) % 2 ^ 32) delta (set_bit array (h % bits)) other
          some_bits (omega (arith, length-or_at array ((h % bits) / 8) (2 ^ ((h % bits) % 8))))
          covered,
      set_bit-sets array (h % bits) (omega arith),
      get_bit-add_probes k bits ((h + delta) % 2 ^ 32) delta (set_bit array (h % bits)) (h % bits),
      covered (h % bits) below,
    )

module _ (k bits : ℕ) (some_bits : 1 ≤ bits) where
  length-add_keys :
      (keys : List Bytes) (array : Bytes)
      → length (foldl (add_key k bits) array keys) ≡ length array
  length-add_keys [] array = refl
  length-add_keys (key ∷ keys) array =
      length-add_keys keys (add_key k bits array key)
      ∙ length-add_probes k bits (bloom_hash key) (rotated (bloom_hash key)) array

  get_bit-add_keys :
      (keys : List Bytes) (array : Bytes) (pos : ℕ)
      → get_bit array pos ≤ get_bit (foldl (add_key k bits) array keys) pos
  get_bit-add_keys [] array pos = omega arith
  get_bit-add_keys (key ∷ keys) array pos = omega (
    arith,
    get_bit-add_probes k bits (bloom_hash key) (rotated (bloom_hash key)) array pos,
    get_bit-add_keys keys (add_key k bits array key) pos,
  )

  match_probes-add_keys :
      (keys : List Bytes) (array other key : Bytes)
      → bits ≤ length array * 8
      → IsIn key keys
      → ((pos : ℕ)
          → pos < bits
          → get_bit (foldl (add_key k bits) array keys) pos ≤ get_bit other pos)
      → match_probes k bits (bloom_hash key) (rotated (bloom_hash key)) other ≡ true
  match_probes-add_keys [] array other key fits member covered = absurd member
  match_probes-add_keys (x ∷ keys) array other key fits (inl same) covered =
      subst (λ key. match_probes k bits (bloom_hash key) (rotated (bloom_hash key)) other ≡ true)
        (sym same)
        (match_probes-add_probes k bits (bloom_hash x) (rotated (bloom_hash x)) array other
          some_bits fits
          (λ pos h.
            omega (arith, get_bit-add_keys keys (add_key k bits array x) pos, covered pos h)))
  match_probes-add_keys (x ∷ keys) array other key fits (inr later) covered =
      match_probes-add_keys keys (add_key k bits array x) other key
        (omega (arith, length-add_probes k bits (bloom_hash x) (rotated (bloom_hash x)) array))
        later covered

get_or-append : (xs ys : Bytes) (i : ℕ) → i < length xs → get_or (xs ++ ys) i 0 ≡ get_or xs i 0
get_or-append [] ys i h = absurd (omega arith)
get_or-append (x ∷ xs) ys zero h = refl
get_or-append (x ∷ xs) ys (suc i) h = get_or-append xs ys i (omega arith)

get_or-last : (xs : Bytes) (x : ℕ) → get_or (xs ++ x ∷ []) (length xs) 0 ≡ x
get_or-last [] x = refl
get_or-last (y ∷ xs) x = get_or-last xs x

filter_bytes-le :
    (bits_per_key n : ℕ) → n * bits_per_key < 2 ^ 64 - 7 → 8 ≤ filter_bytes bits_per_key n
filter_bytes-le bits_per_key n h = ground arith

-- KeyMayMatch on an array of bits followed by the number of probes.
key_may_match-array :
    (p : BloomFilterPolicy) (key array : Bytes) (k : ℕ)
    → 1 ≤ length array
    → match_probes k
        (length array * 8)
        (bloom_hash key)
        (rotated (bloom_hash key))
        (array ++ k ∷ [])
      ≡ true
    → key_may_match p key (array ++ k ∷ []) ≡ true
unfolding key_may_match
key_may_match-array p key array k h matches =
    rw
      (
        length-append array (k ∷ []),
        ltb-false (length array + 1) 2 (omega arith),
        add-sub (length array),
        get_or-last array k,
        matches,
      )
      (either (ltb 30 k))
  where
    add-sub : (n : ℕ) → n + 1 - 1 ≡ n
    add-sub n = omega arith

    either : (b : Bool) → (if b then true else true) ≡ true
    either true = refl
    either false = refl

-- No false negatives: for a policy with at most 30 probes, as the constructor makes it, and a list of
-- keys whose number of bits does not overflow 64 bits, KeyMayMatch of every key of the list holds on
-- the filter that CreateFilter appended for the list.
pub key_may_match-create_filter :
    (p q : BloomFilterPolicy) (keys : List Bytes) (dst key : Bytes)
    → p.k ≤ 30
    → length keys * p.bits_per_key < 2 ^ 64 - 7
    → IsIn key keys
    → key_may_match q key (drop (length dst) (create_filter p keys dst).1) ≡ true
unfolding create_filter
key_may_match-create_filter p q keys dst key probes few member =
    let bytes = filter_bytes p.bits_per_key (length keys) in
    let array = foldl (add_key p.k (bytes * 8)) (replicate bytes 0) keys in
    let enough = filter_bytes-le p.bits_per_key (length keys) few in
    let size =
      length-add_keys p.k (bytes * 8) (omega arith) keys (replicate bytes 0)
      ∙ length-replicate {A = ℕ} bytes 0 in
    let one_byte : p.k < 256 = omega arith in
    rw (mod-eq_of_lt one_byte, drop-append dst (array ++ p.k ∷ []))
      (key_may_match-array q key array p.k (omega arith) (
        rw size (
          match_probes-add_keys p.k (bytes * 8) (omega arith) keys (replicate bytes 0)
            (array ++ p.k ∷ []) key (omega (arith, length-replicate {A = ℕ} bytes 0)) member
            (λ pos h. omega (
              arith,
              ap (λ (b : ℕ). bit_and b (2 ^ (pos % 8)))
                  (get_or-append array (p.k ∷ []) (pos / 8) (omega (arith, size))),
            )))))
