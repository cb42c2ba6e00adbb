-- ===== src/Dbformat/Runs.antt =====
-- Concrete runs, and the theorems at concrete inputs.
use Prim.Native.Nat.{Ordering, compare}
use pebblesdb.Common.{◌≡◌, ◌≢◌, refl, some, [], ◌∷◌, Bytes, arith}
use pebblesdb.Comparator.{or_else, slice_compare, memcmp, bytewise, IsOrder}
use pebblesdb.Comparator.Bytewise.{slice_compare-IsOrder}
use pebblesdb.Comparator.Shorten.{bytewise-IsShortener}
use pebblesdb.Coding.{get_length_prefixed_slice, decode_fixed64, decode_fixed32}
use pebblesdb.Dbformat.{
  ParsedInternalKey, deletion, value, guard, type_code, append_internal_key, parse_internal_key,
  internal_compare, internal_shortest_separator, internal_short_successor, lookup_key, memtable_key,
  internal_key, extract_user_key, extract_tag,
}
use pebblesdb.Dbformat.Keys.{parse-append}
use pebblesdb.Dbformat.KeyOrder.{internal_compare-append, internal_compare-IsOrder}
use pebblesdb.Dbformat.Shorten.{internal_separator, internal_successor, bytewise_separator}
use pebblesdb.Dbformat.Lookup.{get_length_prefixed_slice-memtable_key}

abbrev first : ParsedInternalKey
first = record { user_key = 10 ∷ 7 ∷ 7 ∷ []; sequence = 5; type = value }

abbrev second : ParsedInternalKey
second = record { user_key = 20 ∷ []; sequence = 9; type = deletion }

abbrev first_bytes : Bytes
first_bytes = 10 ∷ 7 ∷ 7 ∷ 1 ∷ 5 ∷ 0 ∷ 0 ∷ 0 ∷ 0 ∷ 0 ∷ 0 ∷ []

abbrev second_bytes : Bytes
second_bytes = 20 ∷ 0 ∷ 9 ∷ 0 ∷ 0 ∷ 0 ∷ 0 ∷ 0 ∷ 0 ∷ []

first_encoded : append_internal_key [] first ≡ first_bytes
unfolding append_internal_key pebblesdb.Coding.put_fixed64 pebblesdb.Coding.encode_fixed64
    pebblesdb.Dbformat.pack_sequence_and_type
first_encoded = refl

user_order :
    slice_compare (extract_user_key first_bytes) (extract_user_key second_bytes) ≡ Ordering.lt
unfolding slice_compare memcmp extract_user_key
user_order = refl

key_order : internal_compare bytewise first_bytes second_bytes ≡ Ordering.lt
unfolding internal_compare slice_compare memcmp extract_user_key
key_order = refl

parse-append_example : parse_internal_key (append_internal_key [] first) ≡ some first
parse-append_example = parse-append first (omega arith) (λ e. cc)

internal_compare-append_example :
    internal_compare bytewise (append_internal_key [] first) (append_internal_key [] second)
    ≡ or_else
        (slice_compare first.user_key second.user_key)
        (or_else (compare 9 5) (compare (type_code deletion) (type_code value)))
internal_compare-append_example =
    internal_compare-append bytewise first second (omega arith) (omega arith)

internal_compare-IsOrder_example : IsOrder (internal_compare bytewise)
internal_compare-IsOrder_example = internal_compare-IsOrder bytewise slice_compare-IsOrder

internal_separator_example :
    (internal_compare bytewise
        (internal_shortest_separator bytewise first_bytes second_bytes)
        first_bytes
      ≢ Ordering.lt)
    × (internal_compare bytewise
          (internal_shortest_separator bytewise first_bytes second_bytes)
          second_bytes
        ≡ Ordering.lt)
internal_separator_example =
    internal_separator bytewise slice_compare-IsOrder bytewise-IsShortener first_bytes second_bytes
      user_order

internal_successor_example :
    internal_compare bytewise (internal_short_successor bytewise first_bytes) first_bytes
    ≢ Ordering.lt
internal_successor_example = internal_successor bytewise slice_compare-IsOrder first_bytes

bytewise_separator_example :
    (internal_compare bytewise
        (internal_shortest_separator bytewise first_bytes second_bytes)
        first_bytes
      ≢ Ordering.lt)
    × (internal_compare bytewise
          (internal_shortest_separator bytewise first_bytes second_bytes)
          second_bytes
        ≡ Ordering.lt)
bytewise_separator_example = bytewise_separator first_bytes second_bytes key_order

get_length_prefixed_slice-memtable_key_example :
    get_length_prefixed_slice (memtable_key (lookup_key (10 ∷ []) 7))
    ≡ some (internal_key (lookup_key (10 ∷ []) 7), [])
get_length_prefixed_slice-memtable_key_example =
    get_length_prefixed_slice-memtable_key (10 ∷ []) 7 (omega arith)
