-- ===== src/MemTable/Runs.antt =====
-- A small memtable, and the theorems at it.
use pebblesdb.Common.{◌≡◌, refl, [], ◌∷◌, List, Bytes, arith}
use pebblesdb.Comparator.{bytewise, slice_compare, memcmp}
use pebblesdb.Dbformat.{value, deletion, lookup_key, memtable_key}
use pebblesdb.MemTable.{
  MemTable, new_memtable, add, get, get_entry, memtable_entry, found, deleted, absent, seek, insert,
}
use pebblesdb.MemTable.Entries.{get_entry-memtable_entry}

abbrev one_entry : Bytes
one_entry = memtable_entry 3 value (7 ∷ []) (9 ∷ [])

abbrev older : List Bytes
older = memtable_entry 2 deletion (7 ∷ []) [] ∷ []

get_entry-memtable_entry_example : get_entry bytewise (7 ∷ []) one_entry ≡ found (9 ∷ [])
unfolding slice_compare memcmp
get_entry-memtable_entry_example =
    get_entry-memtable_entry bytewise 3 value (7 ∷ []) (9 ∷ []) (7 ∷ []) (omega arith) (omega arith)
      (omega arith)

-- Key 7 was written at 3, overwritten at 4 and deleted at 6.
abbrev written : MemTable
written =
    add bytewise 6 deletion (7 ∷ []) [] (
      add bytewise 4 value (7 ∷ []) (10 ∷ []) (add bytewise 3 value (7 ∷ []) (9 ∷ []) new_memtable))

read_at_5 : get bytewise (lookup_key (7 ∷ []) 5) written ≡ found (10 ∷ [])
unfolding get seek add insert pebblesdb.MemTable.compare_entries pebblesdb.Dbformat.internal_compare
    slice_compare memcmp pebblesdb.Dbformat.extract_user_key
    pebblesdb.MemTable.length_prefixed_slice pebblesdb.Coding.get_varint32_ptr memtable_entry
    pebblesdb.Coding.encode_varint32 pebblesdb.Coding.encode_fixed64 pebblesdb.Dbformat.extract_tag
    pebblesdb.Coding.decode_fixed64 pebblesdb.Coding.decode_fixed32
    pebblesdb.Dbformat.pack_sequence_and_type memtable_key pebblesdb.Dbformat.user_key get_entry
    lookup_key
read_at_5 = refl
