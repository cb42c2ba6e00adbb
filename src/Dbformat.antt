-- ===== src/Dbformat.antt =====
-- db/dbformat.h and db/dbformat.cc: internal keys, their order, their shortening, and lookup keys.
-- An internal key is a user key followed by eight bytes that hold a sequence number and a type.
pub mod Keys
pub mod KeyOrder
pub mod Shorten
pub mod Lookup
mod Runs
use Prim.Native.Nat.{compare, Ordering}
use pebblesdb.Common.{
  ℕ, zero, suc, ◌+◌, ◌-◌, ◌*◌, ◌/◌, ◌%◌, ◌^◌, ◌<◌, ◌≤◌, ◌≡◌, bit_and, bit_or, Bool, true, false,
  ◌&&◌, Option, none, some, List, [], ◌∷◌, ◌++◌, Bytes, arith, ltb, leb, ◌==◌, if◌then◌else◌,
  length, take, drop,
}
use pebblesdb.Coding.{shl, put_fixed64, decode_fixed64, encode_varint32, encode_fixed64}
use pebblesdb.Comparator.{Comparator, or_else, is_lt}

abbrev pub num_levels : ℕ
num_levels = 7

pub data ValueType : Type 0 where
  deletion value guard : ValueType

abbrev pub type_code : ValueType → ℕ
type_code deletion = 0x0
type_code value = 0x1
type_code guard = 0x2

abbrev pub value_type_for_seek : ValueType
value_type_for_seek = value

abbrev pub max_sequence_number : ℕ
max_sequence_number = 2 ^ 56 - 1

pub record ParsedInternalKey : Type 0 where
  pub user_key : Bytes
  pub sequence : ℕ
  pub type : ValueType

unfoldable pub internal_key_encoding_length : ParsedInternalKey → ℕ
internal_key_encoding_length key = length key.user_key + 8

unfoldable pub pack_sequence_and_type : ℕ → ValueType → ℕ
pack_sequence_and_type seq t = bit_or (shl 64 seq 8) (type_code t)

unfoldable pub append_internal_key : Bytes → ParsedInternalKey → Bytes
append_internal_key result key =
    put_fixed64 (result ++ key.user_key) (pack_sequence_and_type key.sequence key.type)

-- Only internal keys of eight bytes and more are passed to the next three.
unfoldable pub extract_user_key : Bytes → Bytes
extract_user_key internal_key = take (length internal_key - 8) internal_key

-- `DecodeFixed64(internal_key.data() + n - 8)`
unfoldable pub extract_tag : Bytes → ℕ
extract_tag internal_key = decode_fixed64 (drop (length internal_key - 8) internal_key)

unfoldable pub extract_value_type : Bytes → ℕ
extract_value_type internal_key = bit_and (extract_tag internal_key) 0xff

-- The fields that the tag `num` gives, with the test `c <= kTypeValue` that ParseInternalKey returns.
parsed : Bytes → ℕ → Option ParsedInternalKey
parsed u num =
    let c = bit_and num 0xff in
    if c == 0
    then some (record { user_key = u; sequence = num / 2 ^ 8; type = deletion })
    else if c == 1
    then some (record { user_key = u; sequence = num / 2 ^ 8; type = value })
    else none

-- `none` is the result false, whose key the source leaves undefined.
unfoldable pub parse_internal_key : Bytes → Option ParsedInternalKey
unfolding parsed
parse_internal_key internal_key =
    let n = length internal_key in
    if ltb n 8 then none else parsed (take (n - 8) internal_key) (extract_tag internal_key)

-- InternalKeyComparator over the user's comparator.
module _ (user : Comparator) where
  unfoldable pub internal_compare : Bytes → Bytes → Ordering
  internal_compare akey bkey =
      or_else (user.compare (extract_user_key akey) (extract_user_key bkey)) (
        let anum = extract_tag akey in
        let bnum = extract_tag bkey in
        if ltb bnum anum then Ordering.lt else if ltb anum bnum then Ordering.gt else Ordering.eq)

  -- The test and the replacement that both shortening operations end with: `tmp` is the shortened
  -- user key, to which the largest sequence number is added.
  unfoldable pub shortened : Bytes → Bytes → Bytes
  shortened key tmp =
      if ltb (length tmp) (length (extract_user_key key))
        && is_lt (user.compare (extract_user_key key) tmp)
      then put_fixed64 tmp (pack_sequence_and_type max_sequence_number value_type_for_seek)
      else key

  unfoldable pub internal_shortest_separator : Bytes → Bytes → Bytes
  internal_shortest_separator start limit =
      shortened start
        (user.find_shortest_separator (extract_user_key start) (extract_user_key limit))

  unfoldable pub internal_short_successor : Bytes → Bytes
  internal_short_successor key = shortened key (user.find_short_successor (extract_user_key key))

  abbrev pub internal_key_comparator : Comparator
  internal_key_comparator = record {
    compare = internal_compare;
    find_shortest_separator = internal_shortest_separator;
    find_short_successor = internal_short_successor;
  }

-- LookupKey: the bytes from start_ to end_, and the offset of kstart_.
pub record LookupKey : Type 0 where
  pub bytes : Bytes
  pub kstart : ℕ

unfoldable pub lookup_key : Bytes → ℕ → LookupKey
lookup_key ukey s =
    let head = encode_varint32 ((length ukey + 8) % 2 ^ 32) in
    record {
      bytes = head ++ (ukey ++ encode_fixed64 (pack_sequence_and_type s value_type_for_seek));
      kstart = length head;
    }

unfoldable pub memtable_key : LookupKey → Bytes
memtable_key key = key.bytes

unfoldable pub internal_key : LookupKey → Bytes
internal_key key = drop key.kstart key.bytes

unfoldable pub user_key : LookupKey → Bytes
user_key key = take (length key.bytes - key.kstart - 8) (drop key.kstart key.bytes)
