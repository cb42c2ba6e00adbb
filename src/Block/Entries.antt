-- ===== src/Block/Entries.antt =====
-- The bytes of an entry of a block, and DecodeEntry on them (table/block_builder.cc, table/block.cc).
use pebblesdb.Common.{
  ℕ, ◌+◌, ◌-◌, ◌^◌, ◌<◌, ◌≤◌, ◌≡◌, refl, ap, ◌∙◌, Bool, true, false, some, [], ◌∷◌, ◌++◌, Bytes,
  arith, ltb, length, drop, ◌>>=◌, dec_lt, ltb-false, bit_or, get_or, length-append,
}
use pebblesdb.Common.Bits.{bit_or_128, bit_or-lt, bit_or_ge}
use pebblesdb.Coding.{encode_varint32, get_varint32, get_varint32_ptr}
use pebblesdb.Coding.Varint.{get_varint32-encode_varint32}
use pebblesdb.Block.Iter.{decode_entry, decode_lengths, decode_slow, in_limit}

-- The three lengths in front of an entry.
abbrev pub lengths : ℕ → ℕ → ℕ → Bytes → Bytes
lengths shared non_shared value_length body =
    encode_varint32 shared ++ (encode_varint32 non_shared ++ (encode_varint32 value_length ++ body))

-- The entry that Add writes for a key of which `shared` bytes are left out.
abbrev pub entry_bytes : ℕ → Bytes → Bytes → Bytes
entry_bytes shared key value =
    lengths shared (length key - shared) (length value) (drop shared key ++ value)

encode_small : (v : ℕ) → v < 128 → encode_varint32 v ≡ v ∷ []
unfolding encode_varint32
encode_small v h = ground arith

-- A varint of more than one byte starts with a byte of 128 or more.
encode_large : (v : ℕ) (rest : Bytes) → 128 ≤ v → 128 ≤ get_or (encode_varint32 v ++ rest) 0 0
unfolding encode_varint32
encode_large v rest h = ground (arith, bit_or_128 v)

ptr_lem :
    (v : ℕ) (rest : Bytes)
    → v < 2 ^ 32
    → get_varint32_ptr (encode_varint32 v ++ rest) ≡ some (v, rest)
unfolding get_varint32
ptr_lem v rest h = get_varint32-encode_varint32 v rest h

decode_slow-lengths :
    (s n v : ℕ) (body : Bytes)
    → s < 2 ^ 32
    → n < 2 ^ 32
    → v < 2 ^ 32
    → decode_slow (lengths s n v body) ≡ some (s, n, v, body)
unfolding decode_slow
decode_slow-lengths s n v body hs hn hv =
    rw
      (
        ptr_lem s (encode_varint32 n ++ (encode_varint32 v ++ body)) hs,
        ptr_lem n (encode_varint32 v ++ body) hn,
        ptr_lem v body hv,
      )
      refl

-- The test of the fast path, on the first three bytes.
abbrev short_lengths : Bytes → Bool
short_lengths p = ltb (bit_or (bit_or (get_or p 0 0) (get_or p 1 0)) (get_or p 2 0)) 128

long_first : (a b c : ℕ) → 128 ≤ a → ltb (bit_or (bit_or a b) c) 128 ≡ false
long_first a b c h = ground (arith, bit_or_ge a b, bit_or_ge (bit_or a b) c)

long_second : (a b c : ℕ) → 128 ≤ b → ltb (bit_or (bit_or a b) c) 128 ≡ false
long_second a b c h = ground (arith, bit_or_ge a b, bit_or_ge (bit_or a b) c)

long_third : (a b c : ℕ) → 128 ≤ c → ltb (bit_or (bit_or a b) c) 128 ≡ false
long_third a b c h = ground (arith, bit_or_ge (bit_or a b) c)

all_short : (a b c : ℕ) → a < 128 → b < 128 → c < 128 → ltb (bit_or (bit_or a b) c) 128 ≡ true
all_short a b c ha hb hc = ground (arith, bit_or-lt 7 a b ha hb, bit_or-lt 7 (bit_or a b) c)

pub encode_varint32_positive : (v : ℕ) → 1 ≤ length (encode_varint32 v)
unfolding encode_varint32
encode_varint32_positive v = ground arith

long_entry : (p : Bytes) → 3 ≤ length p → decode_entry p ≡ (decode_lengths p >>= in_limit)
unfolding decode_entry
long_entry p h = rw (ltb-false (length p) 3 h) refl

pub length-lengths : (s n v : ℕ) (body : Bytes) → 3 + length body ≤ length (lengths s n v body)
length-lengths s n v body = omega (
  arith,
  length-append (encode_varint32 s) (encode_varint32 n ++ (encode_varint32 v ++ body)),
  length-append (encode_varint32 n) (encode_varint32 v ++ body),
  length-append (encode_varint32 v) body,
  encode_varint32_positive s,
  encode_varint32_positive n,
  encode_varint32_positive v,
)

module _ (s n v : ℕ) (body : Bytes) where
  slow :
      short_lengths (lengths s n v body) ≡ false
      → decode_lengths (lengths s n v body) ≡ decode_slow (lengths s n v body)
  slow e = rw e refl

  fast : s < 128 → n < 128 → v < 128 → decode_lengths (lengths s n v body) ≡ some (s, n, v, body)
  fast hs hn hv =
      rw (encode_small s hs, encode_small n hn, encode_small v hv, all_short s n v hs hn hv) refl

  is_slow :
      (b : Bytes)
      → lengths s n v body ≡ b
      → short_lengths b ≡ false
      → short_lengths (lengths s n v body) ≡ false
  is_slow b e h = rw e h

  decode_lengths_lem :
      s < 2 ^ 32
      → n < 2 ^ 32
      → v < 2 ^ 32
      → decode_lengths (lengths s n v body) ≡ some (s, n, v, body)
  decode_lengths_lem hs hn hv = elim (dec_lt s 128) [
    | no big ↦
        slow (long_first _ _ _ (encode_large s _ (at_least big)))
        ∙ decode_slow-lengths s n v body hs hn hv
    | yes small ↦ elim (dec_lt n 128) [
      | no big ↦
          slow (
            is_slow (s ∷ (encode_varint32 n ++ (encode_varint32 v ++ body)))
              (rw (encode_small s small) refl)
              (long_second s _ _ (encode_large n _ (at_least big))))
          ∙ decode_slow-lengths s n v body hs hn hv
      | yes small' ↦ elim (dec_lt v 128) [
        | no big ↦
            slow (
              is_slow (s ∷ n ∷ (encode_varint32 v ++ body))
                (rw (encode_small s small, encode_small n small') refl)
                (long_third s n _ (encode_large v _ (at_least big))))
            ∙ decode_slow-lengths s n v body hs hn hv
        | yes small'' ↦ fast small small' small''
      ]
    ]
  ]
    where
      at_least : {m : ℕ} → ¬ (m < 128) → 128 ≤ m
      at_least h = omega arith

  -- DecodeEntry reads the three lengths that Add wrote, where the two that it adds up and the bytes
  -- behind them are below 2^32.
  pub decode_entry-lengths :
      s < 2 ^ 32
      → n + v ≤ length body
      → length body < 2 ^ 32
      → decode_entry (lengths s n v body) ≡ some (s, n, v, body)
  decode_entry-lengths hs fits small =
      long_entry (lengths s n v body) (omega (arith, length-lengths s n v body))
      ∙ ap (λ l. l >>= in_limit) (decode_lengths_lem hs (omega arith) (omega arith))
      ∙ ground arith
