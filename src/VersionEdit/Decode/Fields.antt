-- ===== src/VersionEdit/Decode/Fields.antt =====
-- db/version_edit.cc: GetInternalKey, GetLevel and the fields behind a tag.
use pebblesdb.Common.{ℕ, ◌^◌, Option, none, some, Bytes, ltb, if◌then◌else◌, ◌>>=◌}
use pebblesdb.Coding.{get_length_prefixed_slice, get_varint32, get_varint64}
use pebblesdb.Dbformat.{num_levels}
use pebblesdb.VersionEdit.{FileMetaData, InternalKey}

abbrev pub get_internal_key : Bytes → Option (InternalKey × Bytes)
get_internal_key input = get_length_prefixed_slice input

unfoldable pub get_level : Bytes → Option (ℕ × Bytes)
get_level input = do
  (v, rest) ← get_varint32 input
  if ltb v num_levels then some (v, rest) else none

abbrev pub get_level_and_key : Bytes → Option ((ℕ × InternalKey) × Bytes)
get_level_and_key input = do
  (level, rest) ← get_level input
  (key, rest') ← get_internal_key rest
  some ((level, key), rest')

abbrev pub get_level_and_number : Bytes → Option ((ℕ × ℕ) × Bytes)
get_level_and_number input = do
  (level, rest) ← get_level input
  (number, rest') ← get_varint64 rest
  some ((level, number), rest')

-- The fields of a new file behind its tag; the other members of the local `f` keep their defaults.
abbrev pub get_new_file : Bytes → Option ((ℕ × FileMetaData) × Bytes)
get_new_file input = do
  ((level, number), rest) ← get_level_and_number input
  (file_size, rest') ← get_varint64 rest
  (smallest, rest'') ← get_internal_key rest'
  (largest, rest''') ← get_internal_key rest''
  some (
    (
      level,
      record {
        refs = 0;
        allowed_seeks = 2 ^ 30;
        number = number;
        file_size = file_size;
        smallest = smallest;
        largest = largest;
      },
    ),
    rest''',
  )

-- `GetLevel(&g.level) && GetVarint64(&g.number_segments) && GetInternalKey(&g.guard_key)`
abbrev pub get_guard : Bytes → Option ((ℕ × ℕ × InternalKey) × Bytes)
get_guard input = do
  ((level, segments), rest) ← get_level_and_number input
  (key, rest') ← get_internal_key rest
  some ((level, segments, key), rest')
