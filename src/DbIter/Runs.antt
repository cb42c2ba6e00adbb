-- ===== src/DbIter/Runs.antt =====
-- Concrete runs over a small internal iterator, and the theorems at it.
use pebblesdb.Common.{ℕ, ◌≡◌, refl, [], ◌∷◌, List, Bytes, none, some, arith, map}
use pebblesdb.Comparator.{bytewise, slice_compare}
use pebblesdb.Comparator.Bytewise.{slice_compare-IsOrder}
use pebblesdb.Dbformat.{append_internal_key, value, deletion, ValueType}
use pebblesdb.DbIter.{DbIter, Entry, new_db_iter, seek_to_first, next, seek, shows}
use pebblesdb.DbIter.Newest.{newest, user_key_of, IsOrdered}
use pebblesdb.DbIter.Reverse.{seek_to_last, prev}
use pebblesdb.DbIter.Lookup.{find_shown, read, find_shown-read_forward}
use pebblesdb.DbIter.Seek.{entries_from, seek_key, read_forward-seek}
use pebblesdb.DbIter.Forward.{read_forward, read_forward-seek_to_first}

-- An entry with an internal key of small numbers.
abbrev entry : ℕ → ℕ → ℕ → Bytes → Entry
entry u sequence type v = record {
  key = u ∷ type ∷ sequence ∷ 0 ∷ 0 ∷ 0 ∷ 0 ∷ 0 ∷ 0 ∷ [];
  value = v;
}

-- Key 1 is overwritten, key 2 deleted, key 3 newer than the snapshot at 5 but for its first value.
abbrev entries : List Entry
entries =
    entry 1 4 1 (14 ∷ [])
    ∷ entry 1 2 1 (12 ∷ [])
    ∷ entry 2 3 0 []
    ∷ entry 2 1 1 (21 ∷ [])
    ∷ entry 3 9 1 (39 ∷ [])
    ∷ entry 3 5 1 (35 ∷ [])
    ∷ []

abbrev start : DbIter
start = new_db_iter entries

first_shown : shows bytewise 5 (seek_to_first bytewise 5 start) ≡ some (1 ∷ [], 14 ∷ [])
unfolding seek_to_first pebblesdb.DbIter.find_next_user_entry pebblesdb.Dbformat.parse_internal_key
    pebblesdb.Dbformat.extract_tag pebblesdb.Coding.decode_fixed64 pebblesdb.Coding.decode_fixed32
    pebblesdb.Dbformat.extract_user_key slice_compare pebblesdb.Comparator.memcmp
first_shown = refl

entries-IsOrdered : IsOrdered bytewise 5 entries
unfolding pebblesdb.Dbformat.extract_user_key slice_compare pebblesdb.Comparator.memcmp
entries-IsOrdered = ground arith

read_forward-seek_to_first_example :
    read_forward bytewise 5 6 (seek_to_first bytewise 5 start)
    ≡ map (λ v. (user_key_of v, v.value)) (newest bytewise 5 none entries)
read_forward-seek_to_first_example =
    read_forward-seek_to_first bytewise 5 slice_compare-IsOrder start 6 entries-IsOrdered
      (omega arith)

read_all :
    read_forward bytewise 5 6 (seek_to_first bytewise 5 start)
    ≡ (1 ∷ [], 14 ∷ []) ∷ (3 ∷ [], 35 ∷ []) ∷ []
unfolding read_forward next seek_to_first pebblesdb.DbIter.find_next_user_entry
    pebblesdb.Dbformat.parse_internal_key pebblesdb.Dbformat.extract_tag
    pebblesdb.Coding.decode_fixed64 pebblesdb.Coding.decode_fixed32
    pebblesdb.Dbformat.extract_user_key slice_compare pebblesdb.Comparator.memcmp
read_all = refl

last_shown : shows bytewise 5 (seek_to_last bytewise 5 start) ≡ some (3 ∷ [], 35 ∷ [])
unfolding seek_to_last pebblesdb.DbIter.Reverse.find_prev_user_entry pebblesdb.DbIter.cursor_last
    pebblesdb.Dbformat.parse_internal_key pebblesdb.Dbformat.extract_tag
    pebblesdb.Coding.decode_fixed64 pebblesdb.Coding.decode_fixed32
    pebblesdb.Dbformat.extract_user_key slice_compare pebblesdb.Comparator.memcmp
last_shown = refl

before_last :
    shows bytewise 5 (prev bytewise 5 (seek_to_last bytewise 5 start)) ≡ some (1 ∷ [], 14 ∷ [])
unfolding prev seek_to_last pebblesdb.DbIter.Reverse.find_prev_user_entry
    pebblesdb.DbIter.cursor_last pebblesdb.Dbformat.parse_internal_key
    pebblesdb.Dbformat.extract_tag pebblesdb.Coding.decode_fixed64 pebblesdb.Coding.decode_fixed32
    pebblesdb.Dbformat.extract_user_key slice_compare pebblesdb.Comparator.memcmp
before_last = refl

turned :
    shows bytewise 5 (next bytewise 5 (prev bytewise 5 (seek_to_last bytewise 5 start)))
    ≡ some (3 ∷ [], 35 ∷ [])
unfolding next prev seek_to_last pebblesdb.DbIter.find_next_user_entry
    pebblesdb.DbIter.Reverse.find_prev_user_entry pebblesdb.DbIter.cursor_last
    pebblesdb.Dbformat.parse_internal_key pebblesdb.Dbformat.extract_tag
    pebblesdb.Coding.decode_fixed64 pebblesdb.Coding.decode_fixed32
    pebblesdb.Dbformat.extract_user_key slice_compare pebblesdb.Comparator.memcmp
turned = refl

find_shown-read_forward_example :
    find_shown bytewise 5 (2 ∷ []) (read_forward bytewise 5 6 (seek_to_first bytewise 5 start))
    ≡ read bytewise 5 (2 ∷ []) entries
find_shown-read_forward_example =
    find_shown-read_forward bytewise 5 slice_compare-IsOrder (2 ∷ []) start 6 entries-IsOrdered
      (omega arith)

read_forward-seek_example :
    read_forward bytewise 5 6 (seek bytewise 5 (2 ∷ []) start)
    ≡ map
        (λ v. (user_key_of v, v.value))
        (newest bytewise 5 none (entries_from bytewise 5 (seek_key bytewise 5 (2 ∷ [])) entries))
read_forward-seek_example =
    read_forward-seek bytewise 5 slice_compare-IsOrder (2 ∷ []) start 6 entries-IsOrdered
      (omega arith)
