-- ===== src/MemTable/Entries.antt =====
-- The bytes that Add writes, as Get and the comparator read them (db/memtable.cc).
use mathlib.Core.Path.{ap₂}
use pebblesdb.Common.{
  ℕ, ◌+◌, ◌*◌, ◌%◌, ◌^◌, ◌<◌, ◌≤◌, ◌≡◌, refl, sym, ap, ◌∙◌, [], ◌++◌, append_assoc, append-nil,
  Bytes, arith, length, take-append, drop-append, bit_and, ◌==◌, if◌then◌else◌,
}
use pebblesdb.Common.Bits.{bit_and_255}
use native.Mathlib.Nat.{mod-eq_of_lt}
use pebblesdb.Coding.{encode_varint32, encode_fixed64, get_varint32}
use pebblesdb.Coding.Varint.{get_varint32-encode_varint32}
use pebblesdb.Coding.Slices.{prefixed}
use pebblesdb.Status.{not_found}
use pebblesdb.Comparator.{Comparator}
use pebblesdb.Dbformat.{
  ValueType, deletion, value, guard, type_code, pack_sequence_and_type, max_sequence_number,
  extract_tag,
}
use pebblesdb.Dbformat.Keys.{
  tagged, length-tagged, pack-eq-sum, tag_bound, extract_user_key-tagged, extract_tag-tagged,
}
use pebblesdb.MemTable.{
  slice_at, length_prefixed_slice, memtable_entry, Got, absent, found, deleted, get_entry,
  get_parts, get_slices, is_equal,
}

length_prefixed_slice-prefixed :
    (s rest : Bytes) → length s < 2 ^ 32 → length_prefixed_slice (prefixed s ++ rest) ≡ (s, rest)
unfolding length_prefixed_slice get_varint32
length_prefixed_slice-prefixed s rest h =
    ap length_prefixed_slice (append_assoc (encode_varint32 (length s % 2 ^ 32)) s rest)
    ∙ ap (λ (n : ℕ). length_prefixed_slice (encode_varint32 n ++ (s ++ rest))) (mod-eq_of_lt h)
    ∙ ap slice_at (get_varint32-encode_varint32 (length s) (s ++ rest) h)
    ∙ ap₂ (λ a b. (a, b)) (take-append s rest) (drop-append s rest)

-- An entry is the internal key and the value, each behind its length.
entry-layout :
    (s : ℕ) (t : ValueType) (key v : Bytes)
    → memtable_entry s t key v ≡ prefixed (tagged key (pack_sequence_and_type s t)) ++ prefixed v
unfolding memtable_entry
entry-layout s t key v =
    let head = encode_varint32 ((length key + 8) % 2 ^ 32) in
    let tag = encode_fixed64 (pack_sequence_and_type s t) in
    rw (length-tagged key (pack_sequence_and_type s t)) (
      ap (λ bytes. head ++ bytes) (sym (append_assoc key tag (prefixed v)))
      ∙ sym (append_assoc head (key ++ tag) (prefixed v)))

module _ (s : ℕ) (t : ValueType) (key v : Bytes) (key_fits : length key + 8 < 2 ^ 32) where
  abbrev internal : Bytes
  internal = tagged key (pack_sequence_and_type s t)

  length_prefixed_slice-entry :
      length_prefixed_slice (memtable_entry s t key v) ≡ (internal, prefixed v)
  length_prefixed_slice-entry =
      ap length_prefixed_slice (entry-layout s t key v)
      ∙ length_prefixed_slice-prefixed internal (prefixed v)
          (omega (arith, length-tagged key (pack_sequence_and_type s t)))

  module _ (v_fits : length v < 2 ^ 32) (bounded : s ≤ max_sequence_number) where
    read_value : (length_prefixed_slice (prefixed v)).0 ≡ v
    read_value =
        ap (λ bytes. (length_prefixed_slice bytes).0) (sym (append-nil (prefixed v)))
        ∙ ap (λ p. p.0) (length_prefixed_slice-prefixed v [] v_fits)

    read_tag : extract_tag internal ≡ s * 256 + type_code t
    read_tag =
        rw (pack-eq-sum s t bounded)
          (extract_tag-tagged key (s * 256 + type_code t) (tag_bound s t bounded))

-- What Get answers for an entry of the key that is looked up.
abbrev pub answer : ValueType → Bytes → Got
answer value v = found v
answer deletion v = deleted (not_found "")
answer guard v = absent

type_of_tag : (s : ℕ) (t : ValueType) → bit_and (s * 256 + type_code t) 0xff ≡ type_code t
type_of_tag s deletion = omega (arith, bit_and_255 (s * 256 + 0))
type_of_tag s value = omega (arith, bit_and_255 (s * 256 + 1))
type_of_tag s guard = omega (arith, bit_and_255 (s * 256 + 2))

module _ (user : Comparator) where
  get_parts-type :
      (t : ValueType) (s : ℕ) (u key v : Bytes)
      → get_parts user u key (s * 256 + type_code t) v
        ≡ (if is_equal (user.compare key u) then answer t v else absent)
  get_parts-type t s u key v = ap (λ (c : ℕ). by_code c) (type_of_tag s t) ∙ by_type t
    where
      by_code : ℕ → Got
      by_code c =
          if is_equal (user.compare key u)
          then if c == type_code value
            then found v
            else if c == type_code deletion
            then deleted (not_found "")
            else absent
          else absent

      by_type :
          (t : ValueType)
          → by_code (type_code t) ≡ (if is_equal (user.compare key u) then answer t v else absent)
      by_type deletion = refl
      by_type value = refl
      by_type guard = refl

  -- Get on an entry that Add wrote, with a key and a value that fit 32-bit lengths and a sequence
  -- number of at most 56 bits, answers with its value or its deletion when its user key compares
  -- equal to the one that is looked up, and with false otherwise.
  pub get_entry-memtable_entry :
      (s : ℕ) (t : ValueType) (key v u : Bytes)
      → length key + 8 < 2 ^ 32
      → length v < 2 ^ 32
      → s ≤ max_sequence_number
      → get_entry user u (memtable_entry s t key v)
        ≡ (if is_equal (user.compare key u) then answer t v else absent)
  unfolding get_entry
  get_entry-memtable_entry s t key v u key_fits v_fits bounded =
      ap (get_slices user u) (length_prefixed_slice-entry s t key v key_fits)
      ∙ ap
          (λ k.
            get_parts user u k (extract_tag (tagged key (pack_sequence_and_type s t)))
              (length_prefixed_slice (prefixed v)).0)
          (extract_user_key-tagged key (pack_sequence_and_type s t))
      ∙ ap (λ (tag : ℕ). get_parts user u key tag (length_prefixed_slice (prefixed v)).0)
          (read_tag s t key v key_fits v_fits bounded)
      ∙ ap (λ w. get_parts user u key (s * 256 + type_code t) w)
          (read_value s t key v key_fits v_fits bounded)
      ∙ get_parts-type t s u key v
