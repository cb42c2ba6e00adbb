-- ===== src/MemTable.antt =====
-- db/memtable.h and db/memtable.cc: the entries of a memtable and its Add and Get. The skip list behind it
-- is the list of its keys in order: Insert puts a key behind those that are below it, and Seek finds
-- the first key that is not below the target.
pub mod Entries
pub mod Order
pub mod Seek
mod Runs
use Prim.Native.Nat.{Ordering}
use pebblesdb.Common.{
  ℕ, ◌+◌, ◌-◌, ◌%◌, ◌^◌, Bool, true, false, Option, none, some, List, [], ◌∷◌, ◌++◌, Bytes, bit_and,
  ◌==◌, if◌then◌else◌, length, take, drop,
}
use pebblesdb.Coding.{encode_varint32, encode_fixed64, decode_fixed64, get_varint32_ptr}
use pebblesdb.Status.{Status, not_found}
use pebblesdb.Comparator.{Comparator, is_lt}
use pebblesdb.Dbformat.{
  ValueType, deletion, value, type_code, pack_sequence_and_type, internal_compare, extract_user_key,
  extract_tag, LookupKey, memtable_key, user_key,
}

-- GetLengthPrefixedSlice on a pointer, with the bytes behind the slice. The data is not corrupted.
abbrev pub slice_at : Option (ℕ × Bytes) → Bytes × Bytes
slice_at none = ([], [])
slice_at (some (len, p)) = (take len p, drop len p)

unfoldable pub length_prefixed_slice : Bytes → Bytes × Bytes
length_prefixed_slice entry = slice_at (get_varint32_ptr entry)

-- The bytes that Add writes.
unfoldable pub memtable_entry : ℕ → ValueType → Bytes → Bytes → Bytes
memtable_entry s type key v =
    encode_varint32 ((length key + 8) % 2 ^ 32)
    ++ (key
        ++ (encode_fixed64 (pack_sequence_and_type s type)
            ++ (encode_varint32 (length v % 2 ^ 32) ++ v)))

pub record MemTable : Type 0 where
  pub table : List Bytes
  pub num_entries : ℕ

abbrev pub new_memtable : MemTable
new_memtable = record { table = []; num_entries = 0 }

-- What Get returns: false, or true with the value or with the status.
pub data Got : Type 0 where
  absent : Got
  found : Bytes → Got
  deleted : Status → Got

abbrev pub is_equal : Ordering → Bool
is_equal Ordering.eq = true
is_equal _ = false

module _ (user : Comparator) where
  -- KeyComparator.
  unfoldable pub compare_entries : Bytes → Bytes → Ordering
  compare_entries a b =
      internal_compare user (length_prefixed_slice a).0 (length_prefixed_slice b).0

  -- Insert of the skip list.
  unfoldable pub insert : Bytes → List Bytes → List Bytes
  insert entry [] = entry ∷ []
  insert entry (e ∷ es) =
      let rest = insert entry es in
      if is_lt (compare_entries e entry) then e ∷ rest else entry ∷ e ∷ es

  unfoldable pub add : ℕ → ValueType → Bytes → Bytes → MemTable → MemTable
  add s type key v m = record {
    table = insert (memtable_entry s type key v) m.table;
    num_entries = m.num_entries + 1;
  }

  -- Seek of the skip list.
  unfoldable pub seek : Bytes → List Bytes → Option Bytes
  seek target [] = none
  seek target (e ∷ es) =
      let later = seek target es in if is_lt (compare_entries e target) then later else some e

  -- The test and the switch of Get, on the user key, the tag and the value of the entry found.
  abbrev pub get_parts : Bytes → Bytes → ℕ → Bytes → Got
  get_parts lookup_user_key entry_user_key tag v =
      if is_equal (user.compare entry_user_key lookup_user_key)
      then if bit_and tag 0xff == type_code value
        then found v
        else if bit_and tag 0xff == type_code deletion
        then deleted (not_found "")
        else absent
      else absent

  abbrev pub get_slices : Bytes → Bytes × Bytes → Got
  get_slices lookup_user_key (key, behind) =
      get_parts lookup_user_key (extract_user_key key) (extract_tag key)
        (length_prefixed_slice behind).0

  unfoldable pub get_entry : Bytes → Bytes → Got
  get_entry lookup_user_key entry = get_slices lookup_user_key (length_prefixed_slice entry)

  abbrev pub get_sought : Bytes → Option Bytes → Got
  get_sought lookup_user_key none = absent
  get_sought lookup_user_key (some entry) = get_entry lookup_user_key entry

  unfoldable pub get : LookupKey → MemTable → Got
  get key m = get_sought (user_key key) (seek (memtable_key key) m.table)
