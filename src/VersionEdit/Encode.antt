-- ===== src/VersionEdit/Encode.antt =====
-- db/version_edit.cc: the tags of the fields and EncodeTo.
use mathlib.Core.List.{foldl}
use pebblesdb.Common.{ℕ, Bool, List, Bytes, if◌then◌else◌}
use pebblesdb.Coding.{put_varint32, put_varint64, put_length_prefixed_slice}
use pebblesdb.VersionEdit.{VersionEdit, FileMetaData, GuardMetaData, InternalKey}

pub data Tag : Type 0 where
  comparator_tag log_number_tag next_file_number_tag last_sequence_tag : Tag
  compact_pointer_tag deleted_file_tag new_file_tag prev_log_number_tag : Tag
  deleted_guard_tag new_guard_tag file_inside_guard_tag new_sentinel_file_tag : Tag
  deleted_sentinel_file_tag new_complete_guard_tag new_sentinel_file_no_tag : Tag

abbrev pub tag_code : Tag → ℕ
tag_code comparator_tag = 1
tag_code log_number_tag = 2
tag_code next_file_number_tag = 3
tag_code last_sequence_tag = 4
tag_code compact_pointer_tag = 5
tag_code deleted_file_tag = 6
tag_code new_file_tag = 7
tag_code prev_log_number_tag = 9
tag_code deleted_guard_tag = 10
tag_code new_guard_tag = 11
tag_code file_inside_guard_tag = 12
tag_code new_sentinel_file_tag = 13
tag_code deleted_sentinel_file_tag = 14
tag_code new_complete_guard_tag = 15
tag_code new_sentinel_file_no_tag = 16

abbrev put_tag : Bytes → Tag → Bytes
put_tag dst tag = put_varint32 dst (tag_code tag)

-- `if (has_...) { PutVarint32(dst, tag); PutVarint64(dst, n); }`
unfoldable pub put_number_if : Bool → Tag → ℕ → Bytes → Bytes
put_number_if has tag n dst = if has then put_varint64 (put_tag dst tag) n else dst

unfoldable pub put_comparator_if : Bool → Bytes → Bytes → Bytes
put_comparator_if has name dst =
    if has then put_length_prefixed_slice (put_tag dst comparator_tag) name else dst

abbrev pub put_level_and_key : Tag → Bytes → ℕ × InternalKey → Bytes
put_level_and_key tag dst (level, key) =
    put_length_prefixed_slice (put_varint32 (put_tag dst tag) level) key

abbrev pub put_level_and_number : Tag → Bytes → ℕ × ℕ → Bytes
put_level_and_number tag dst (level, number) =
    put_varint64 (put_varint32 (put_tag dst tag) level) number

abbrev pub put_new_file : Bytes → ℕ × FileMetaData → Bytes
put_new_file dst (level, f) =
    let numbers =
      put_varint64 (put_varint64 (put_varint32 (put_tag dst new_file_tag) level) f.number)
        f.file_size in
    put_length_prefixed_slice (put_length_prefixed_slice numbers f.smallest) f.largest

-- The number of segments that is written is 0.
abbrev pub put_guard : Tag → Bytes → GuardMetaData → Bytes
put_guard tag dst g =
    put_length_prefixed_slice (put_varint64 (put_varint32 (put_tag dst tag) g.level) 0) g.guard_key

-- `for (k) for (i) { const GuardMetaData& g = rows[k][i]; ... }`
abbrev pub put_rows : Tag → Bytes → List (List GuardMetaData) → Bytes
put_rows tag = foldl (foldl (put_guard tag))

-- The fields that are written when they are set.
unfoldable pub encode_numbers : VersionEdit → Bytes → Bytes
encode_numbers e dst0 =
    let dst1 = put_comparator_if e.has_comparator e.comparator dst0 in
    let dst2 = put_number_if e.has_log_number log_number_tag e.log_number dst1 in
    let dst3 = put_number_if e.has_prev_log_number prev_log_number_tag e.prev_log_number dst2 in
    let dst4 = put_number_if e.has_next_file_number next_file_number_tag e.next_file_number dst3 in
    put_number_if e.has_last_sequence last_sequence_tag e.last_sequence dst4

unfoldable pub encode_to : VersionEdit → Bytes → Bytes
encode_to e dst0 =
    let dst1 = encode_numbers e dst0 in
    let dst2 = foldl (put_level_and_key compact_pointer_tag) dst1 e.compact_pointers in
    let dst3 = foldl (put_level_and_number deleted_file_tag) dst2 e.deleted_files in
    let dst4 = foldl put_new_file dst3 e.new_files in
    let dst5 = foldl (put_level_and_key deleted_guard_tag) dst4 e.deleted_guards in
    let dst6 = put_rows new_guard_tag dst5 e.new_guards in
    let dst7 = put_rows new_complete_guard_tag dst6 e.new_complete_guards in
    foldl (put_level_and_number deleted_sentinel_file_tag) dst7 e.deleted_sentinel_files
