-- ===== src/Dbformat/Keys.antt =====
-- Encoding an internal key and taking it apart again.
use pebblesdb.Common.{
  ℕ, ◌+◌, ◌-◌, ◌*◌, ◌^◌, ◌<◌, ◌≤◌, ◌≡◌, ◌≢◌, refl, ◌∙◌, none, some, [], ◌++◌, append-nil, Bytes,
  arith, ltb-false, length, length-append, take-append, drop-append,
}
use mathlib.Core.Path.{ap₂}
use pebblesdb.Common.Bits.{bit_and_255, bit_or_high_low}
use pebblesdb.Coding.{encode_fixed64, put_fixed64}
use pebblesdb.Coding.Fixed.{decode_fixed64-encode_fixed64, length-encode_fixed64}
use pebblesdb.Dbformat.{
  ValueType, deletion, value, guard, type_code, ParsedInternalKey, pack_sequence_and_type,
  append_internal_key, extract_user_key, extract_tag, parse_internal_key, max_sequence_number,
  parsed, internal_key_encoding_length,
}

-- The tag is the sequence number above the type.
pub pack-eq-sum :
    (seq : ℕ) (t : ValueType)
    → seq ≤ max_sequence_number
    → pack_sequence_and_type seq t ≡ seq * 256 + type_code t
unfolding pack_sequence_and_type
pack-eq-sum seq deletion h = ground (arith, bit_or_high_low 8 seq 0)
pack-eq-sum seq value h = ground (arith, bit_or_high_low 8 seq 1)
pack-eq-sum seq guard h = ground (arith, bit_or_high_low 8 seq 2)

-- What AppendInternalKey writes for `u`, with the tag `tag`.
abbrev pub tagged : Bytes → ℕ → Bytes
tagged u tag = u ++ encode_fixed64 tag

pub length-tagged : (u : Bytes) (tag : ℕ) → length (tagged u tag) ≡ length u + 8
length-tagged u tag = omega (arith, length-append u (encode_fixed64 tag), length-encode_fixed64 tag)

offset-tagged : (u : Bytes) (tag : ℕ) → length (tagged u tag) - 8 ≡ length u
offset-tagged u tag = omega (arith, length-tagged u tag)

pub extract_user_key-tagged : (u : Bytes) (tag : ℕ) → extract_user_key (tagged u tag) ≡ u
unfolding extract_user_key
extract_user_key-tagged u tag = rw (offset-tagged u tag) (take-append u (encode_fixed64 tag))

pub extract_tag-tagged : (u : Bytes) (tag : ℕ) → tag < 2 ^ 64 → extract_tag (tagged u tag) ≡ tag
unfolding extract_tag
extract_tag-tagged u tag h =
    rw (offset-tagged u tag, drop-append u (encode_fixed64 tag), ← append-nil (encode_fixed64 tag))
      (decode_fixed64-encode_fixed64 tag [] h)

pub append_internal_key-eq-tagged :
    (key : ParsedInternalKey)
    → append_internal_key [] key
      ≡ tagged key.user_key (pack_sequence_and_type key.sequence key.type)
unfolding append_internal_key put_fixed64
append_internal_key-eq-tagged key = refl

-- InternalKeyEncodingLength is the number of bytes that AppendInternalKey adds.
pub length-append_internal_key :
    (result : Bytes) (key : ParsedInternalKey)
    → length (append_internal_key result key) ≡ length result + internal_key_encoding_length key
unfolding append_internal_key put_fixed64 internal_key_encoding_length
length-append_internal_key result key = omega (
  arith,
  length-append (result ++ key.user_key)
      (encode_fixed64 (pack_sequence_and_type key.sequence key.type)),
  length-append result key.user_key,
  length-encode_fixed64 (pack_sequence_and_type key.sequence key.type),
)

parsed-pack :
    (u : Bytes) (seq : ℕ) (t : ValueType)
    → t ≢ guard
    → parsed u (seq * 256 + type_code t) ≡ some (record { user_key = u; sequence = seq; type = t })
unfolding parsed
parsed-pack u seq deletion h = ground (arith, bit_and_255 (seq * 256 + 0))
parsed-pack u seq value h = ground (arith, bit_and_255 (seq * 256 + 1))
parsed-pack u seq guard h = absurd (h refl)

parsed_guard : (u : Bytes) (seq : ℕ) → parsed u (seq * 256 + type_code guard) ≡ none
unfolding parsed
parsed_guard u seq = ground (arith, bit_and_255 (seq * 256 + 2))

pub tag_bound :
    (seq : ℕ) (t : ValueType) → seq ≤ max_sequence_number → seq * 256 + type_code t < 2 ^ 64
tag_bound seq deletion h = omega arith
tag_bound seq value h = omega arith
tag_bound seq guard h = omega arith

-- ParseInternalKey computes its fields from the two parts of the encoding.
parse-tagged :
    (u : Bytes) (tag : ℕ) → tag < 2 ^ 64 → parse_internal_key (tagged u tag) ≡ parsed u tag
unfolding parse_internal_key extract_user_key
parse-tagged u tag h =
    rw (ltb-false (length (tagged u tag)) 8 (omega (arith, length-tagged u tag)))
      (ap₂ parsed (extract_user_key-tagged u tag) (extract_tag-tagged u tag h))

-- ParseInternalKey refuses the key of a guard, for which AppendInternalKey was given type kTypeGuard.
pub parse-append_guard :
    (u : Bytes) (seq : ℕ)
    → seq ≤ max_sequence_number
    → parse_internal_key
        (append_internal_key [] (record { user_key = u; sequence = seq; type = guard }))
      ≡ none
parse-append_guard u seq h =
    rw
      (
        append_internal_key-eq-tagged (record { user_key = u; sequence = seq; type = guard }),
        pack-eq-sum seq guard h,
      )
      (parse-tagged u (seq * 256 + 2) (tag_bound seq guard h) ∙ parsed_guard u seq)

-- ParseInternalKey reads back the key that AppendInternalKey wrote, for a value or a deletion.
pub parse-append :
    (key : ParsedInternalKey)
    → key.sequence ≤ max_sequence_number
    → key.type ≢ guard
    → parse_internal_key (append_internal_key [] key) ≡ some key
parse-append key hs ht =
    rw (append_internal_key-eq-tagged key, pack-eq-sum key.sequence key.type hs)
      (parse-tagged key.user_key (key.sequence * 256 + type_code key.type)
          (tag_bound key.sequence key.type hs)
        ∙ parsed-pack key.user_key key.sequence key.type ht)

-- The user key of a parsed key is the one that ExtractUserKey gives, and the type is no guard.
pub parse_internal_key-user_key :
    (k : Bytes) (p : ParsedInternalKey)
    → parse_internal_key k ≡ some p
    → (p.user_key ≡ extract_user_key k) × (p.type ≢ guard)
unfolding parse_internal_key parsed extract_user_key
parse_internal_key-user_key k p h = ground (arith, h)
