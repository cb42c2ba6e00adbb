-- ===== src/VersionEdit/RoundTrip/Fields.antt =====
-- Reading the fields behind a tag (db/version_edit.cc).
use pebblesdb.Common.{
  ℕ, ◌^◌, ◌<◌, ◌≡◌, refl, [], ◌++◌, append_assoc, some, Bytes, length, arith, lt→ltb,
}
use pebblesdb.Coding.{encode_varint32, encode_varint64}
use pebblesdb.Coding.Varint.{get_varint32-encode_varint32, get_varint64-encode_varint64}
use pebblesdb.Coding.Slices.{prefixed, get_length_prefixed_slice-prefixed}
use pebblesdb.Dbformat.{num_levels}
use pebblesdb.VersionEdit.{FileMetaData, GuardMetaData, InternalKey}
use pebblesdb.VersionEdit.Decode.{
  get_level, get_level_and_key, get_level_and_number, get_new_file, get_guard, no_locals, guard_of,
}
use pebblesdb.VersionEdit.Items.{
  Item, comparator_item, log_item, prev_log_item, next_file_item, last_sequence_item, compact_item,
  deleted_guard_item, deleted_file_item, deleted_sentinel_item, new_file_item, guard_item,
  complete_item, level_and_key, level_and_number, file_fields, guard_fields,
}

-- What a guard and a file look like after a round trip.
abbrev pub stored_guard : GuardMetaData → GuardMetaData
stored_guard g = guard_of no_locals g.level 0 g.guard_key []

abbrev pub stored_file : FileMetaData → FileMetaData
stored_file f = record f { refs = 0; allowed_seeks = 2 ^ 30 }

abbrev pub FitsKey : InternalKey → Type 0
FitsKey key = length key < 2 ^ 32

abbrev pub FitsFile : FileMetaData → Type 0
FitsFile f = (f.number < 2 ^ 64) × (f.file_size < 2 ^ 64) × FitsKey f.smallest × FitsKey f.largest

-- Levels below kNumLevels, 64-bit numbers, and strings that a 32-bit length can hold.
abbrev pub Fits : Item → Type 0
Fits (comparator_item name) = FitsKey name
Fits (log_item n) = n < 2 ^ 64
Fits (prev_log_item n) = n < 2 ^ 64
Fits (next_file_item n) = n < 2 ^ 64
Fits (last_sequence_item n) = n < 2 ^ 64
Fits (compact_item p) = (p.0 < num_levels) × FitsKey p.1
Fits (deleted_guard_item p) = (p.0 < num_levels) × FitsKey p.1
Fits (deleted_file_item p) = (p.0 < num_levels) × (p.1 < 2 ^ 64)
Fits (deleted_sentinel_item p) = (p.0 < num_levels) × (p.1 < 2 ^ 64)
Fits (new_file_item p) = (p.0 < num_levels) × FitsFile p.1
Fits (guard_item g) = (g.level < num_levels) × FitsKey g.guard_key
Fits (complete_item g) = (g.level < num_levels) × FitsKey g.guard_key

pub get_level-encode :
    (level : ℕ) (more : Bytes)
    → level < num_levels
    → get_level (encode_varint32 level ++ more) ≡ some (level, more)
unfolding get_level
get_level-encode level more h =
    rw (get_varint32-encode_varint32 level more (omega arith), lt→ltb level num_levels h) refl

pub get_level_and_key-fields :
    (p : ℕ × InternalKey) (more : Bytes)
    → p.0 < num_levels
    → FitsKey p.1
    → get_level_and_key (level_and_key p ++ more) ≡ some (p, more)
get_level_and_key-fields (level, key) more hl hk =
    rw
      (
        append_assoc (encode_varint32 level) (prefixed key) more,
        get_level-encode level (prefixed key ++ more) hl,
        get_length_prefixed_slice-prefixed key more hk,
      )
      refl

pub get_level_and_number-fields :
    (level number : ℕ) (more : Bytes)
    → level < num_levels
    → number < 2 ^ 64
    → get_level_and_number (encode_varint32 level ++ (encode_varint64 number ++ more))
      ≡ some ((level, number), more)
get_level_and_number-fields level number more hl hn =
    rw
      (
        get_level-encode level (encode_varint64 number ++ more) hl,
        get_varint64-encode_varint64 number more hn,
      )
      refl

pub get_level_and_number-pair :
    (p : ℕ × ℕ) (more : Bytes)
    → p.0 < num_levels
    → p.1 < 2 ^ 64
    → get_level_and_number (level_and_number p ++ more) ≡ some (p, more)
get_level_and_number-pair (level, number) more hl hn =
    rw (append_assoc (encode_varint32 level) (encode_varint64 number) more)
      (get_level_and_number-fields level number more hl hn)

pub get_new_file-fields :
    (level : ℕ) (f : FileMetaData) (more : Bytes)
    → level < num_levels
    → FitsFile f
    → get_new_file (file_fields (level, f) ++ more) ≡ some ((level, stored_file f), more)
get_new_file-fields level f more hl (hn, hs, ha, hb) =
    rw
      (
        append_assoc (encode_varint32 level) _ more,
        append_assoc (encode_varint64 f.number) _ more,
        append_assoc (encode_varint64 f.file_size) _ more,
        append_assoc (prefixed f.smallest) (prefixed f.largest) more,
        get_level_and_number-fields level f.number _ hl hn,
        get_varint64-encode_varint64 f.file_size _ hs,
        get_length_prefixed_slice-prefixed f.smallest _ ha,
        get_length_prefixed_slice-prefixed f.largest more hb,
      )
      refl

pub get_guard-fields :
    (g : GuardMetaData) (more : Bytes)
    → g.level < num_levels
    → FitsKey g.guard_key
    → get_guard (guard_fields g ++ more) ≡ some ((g.level, 0, g.guard_key), more)
get_guard-fields g more hl hk =
    rw
      (
        append_assoc (encode_varint32 g.level) _ more,
        append_assoc (encode_varint64 0) (prefixed g.guard_key) more,
        get_level_and_number-fields g.level 0 _ hl (omega arith),
        get_length_prefixed_slice-prefixed g.guard_key more hk,
      )
      refl
