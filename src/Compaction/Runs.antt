-- ===== src/Compaction/Runs.antt =====
-- Compactions of concrete entries.
use pebblesdb.Common.{Bytes, ℕ, true, false, ◌≡◌, refl, [], ◌∷◌, none, List, All, arith}
use pebblesdb.Comparator.{bytewise, slice_compare, memcmp}
use pebblesdb.Comparator.Bytewise.{slice_compare-IsOrder}
use pebblesdb.Dbformat.{max_sequence_number}
use pebblesdb.DbIter.{Entry}
use pebblesdb.DbIter.Newest.{newest}
use pebblesdb.VersionEdit.{FileMetaData}
use pebblesdb.Compaction.{Levels, first_locals, kept}
use pebblesdb.Compaction.Future.{IsParsed, IsInternal}
use pebblesdb.Compaction.Visible.{newest-kept}
use pebblesdb.Compaction.Ranges.{IsBySmallest}
use pebblesdb.Compaction.BaseLevel.{IsAscending, answers, searches, answers-searches}

-- An entry of a user key of one byte, with its type and its sequence number.
abbrev entry : ℕ → ℕ → ℕ → Entry
entry u type s = record { key = u ∷ type ∷ s ∷ 0 ∷ 0 ∷ 0 ∷ 0 ∷ 0 ∷ 0 ∷ []; value = s ∷ [] }

abbrev deep_file : ℕ → FileMetaData
deep_file u = record {
  refs = 1;
  allowed_seeks = 100;
  number = u;
  file_size = 10;
  smallest = u ∷ 1 ∷ 1 ∷ 0 ∷ 0 ∷ 0 ∷ 0 ∷ 0 ∷ 0 ∷ [];
  largest = u ∷ 1 ∷ 1 ∷ 0 ∷ 0 ∷ 0 ∷ 0 ∷ 0 ∷ 0 ∷ [];
}

-- Key 3 was written at 6 and 4, key 5 deleted at 3 and key 7 deleted at 2, with a value below it.
abbrev entries : List Entry
entries = entry 3 1 6 ∷ entry 3 1 4 ∷ entry 3 1 2 ∷ entry 5 0 3 ∷ entry 7 0 2 ∷ []

abbrev deeper : Levels
deeper = (deep_file 7 ∷ []) ∷ []

entries-IsParsed : All IsParsed entries
unfolding pebblesdb.Dbformat.parse_internal_key pebblesdb.Dbformat.extract_tag
    pebblesdb.Coding.decode_fixed64 pebblesdb.Coding.decode_fixed32
entries-IsParsed = ((_, refl), ((_, refl), ((_, refl), ((_, refl), ((_, refl), tt)))))

entries-IsInternal : IsInternal bytewise 5 entries
unfolding slice_compare memcmp pebblesdb.Dbformat.parse_internal_key
    pebblesdb.Dbformat.extract_user_key pebblesdb.Dbformat.extract_tag
    pebblesdb.Coding.decode_fixed64 pebblesdb.Coding.decode_fixed32
entries-IsInternal = ground arith

newest-kept_example :
    newest bytewise 5 none (kept bytewise 4 100 (first_locals deeper) entries)
    ≡ newest bytewise 5 none entries
newest-kept_example =
    newest-kept bytewise slice_compare-IsOrder 5 4 100 (ground arith) (ground arith) deeper entries
      entries-IsParsed entries-IsInternal

-- The oldest version of key 3 and the deletion of key 5 are dropped.
three_left :
    kept bytewise 4 100 (first_locals deeper) entries ≡ entry 3 1 6 ∷ entry 3 1 4 ∷ entry 7 0 2 ∷ []
unfolding kept pebblesdb.Compaction.drop_parsed pebblesdb.Compaction.is_base_level_for_key
    pebblesdb.Compaction.in_level slice_compare memcmp pebblesdb.Dbformat.parse_internal_key
    pebblesdb.Dbformat.extract_user_key pebblesdb.Dbformat.extract_tag
    pebblesdb.Coding.decode_fixed64 pebblesdb.Coding.decode_fixed32
three_left = refl

abbrev wide_file : ℕ → ℕ → FileMetaData
wide_file u v = record {
  refs = 1;
  allowed_seeks = 100;
  number = u;
  file_size = 10;
  smallest = u ∷ 1 ∷ 1 ∷ 0 ∷ 0 ∷ 0 ∷ 0 ∷ 0 ∷ 0 ∷ [];
  largest = v ∷ 1 ∷ 1 ∷ 0 ∷ 0 ∷ 0 ∷ 0 ∷ 0 ∷ 0 ∷ [];
}

-- The first two files of the first level overlap.
abbrev overlapping : Levels
overlapping = (wide_file 2 6 ∷ wide_file 4 5 ∷ wide_file 8 9 ∷ []) ∷ (wide_file 12 14 ∷ []) ∷ []

abbrev asked : List Bytes
asked = (1 ∷ []) ∷ (5 ∷ []) ∷ (7 ∷ []) ∷ (13 ∷ []) ∷ []

overlapping-IsBySmallest : All (IsBySmallest bytewise) overlapping
unfolding slice_compare memcmp pebblesdb.Dbformat.extract_user_key
overlapping-IsBySmallest = ground arith

asked-IsAscending : IsAscending bytewise asked
unfolding slice_compare memcmp
asked-IsAscending = ground arith

answers-searches_example : answers bytewise overlapping asked ≡ searches bytewise overlapping asked
answers-searches_example =
    answers-searches bytewise slice_compare-IsOrder overlapping asked overlapping-IsBySmallest
      asked-IsAscending

four_answers : answers bytewise overlapping asked ≡ true ∷ false ∷ true ∷ false ∷ []
unfolding answers pebblesdb.Compaction.is_base_level_for_key pebblesdb.Compaction.in_level
    slice_compare memcmp pebblesdb.Dbformat.extract_user_key
four_answers = refl
