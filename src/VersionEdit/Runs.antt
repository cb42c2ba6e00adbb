-- ===== src/VersionEdit/Runs.antt =====
-- Concrete runs, and the theorems at a concrete edit.
use pebblesdb.Common.{◌≢◌, [], ◌∷◌, Bool, true, false}
use pebblesdb.VersionEdit.{VersionEdit, InternalKey, new_edit}
use pebblesdb.VersionEdit.Decode.{decode_from, stuck}
use pebblesdb.VersionEdit.Ending.{decode_from-ne-stuck}

-- Two deleted files, a new one, and a guard with its complete form at level 2.
abbrev sample : VersionEdit
sample = record new_edit {
  log_number = 9;
  has_log_number = true;
  compact_pointers = (1, 5 ∷ []) ∷ [];
  deleted_files = (0, 4) ∷ (1, 3) ∷ [];
  new_files =
      (
        2,
        record {
          refs = 0;
          allowed_seeks = 7;
          number = 8;
          file_size = 300;
          smallest = 1 ∷ [];
          largest = 2 ∷ [];
        },
      )
      ∷ [];
  new_guards =
      []
      ∷ []
      ∷ (record {
        refs = 0;
        level = 2;
        number_segments = 1;
        guard_key = 6 ∷ [];
        smallest = [];
        largest = [];
        files = 8 ∷ [];
      }
          ∷ [])
      ∷ []
      ∷ []
      ∷ []
      ∷ []
      ∷ [];
}

abbrev never : InternalKey → InternalKey → Bool
never a b = false

decode_from-ne-stuck_example : decode_from never new_edit (2 ∷ 0x80 ∷ []) ≢ stuck
decode_from-ne-stuck_example = decode_from-ne-stuck never new_edit (2 ∷ 0x80 ∷ [])
