-- ===== src/VersionEdit/RoundTrip/Stored.antt =====
-- The round trip of a whole edit.
use pebblesdb.Common.{ℕ, ◌≡◌, Bool, List, [], ◌++◌, map, length, All, if◌then◌else◌}
use pebblesdb.Dbformat.{num_levels}
use pebblesdb.VersionEdit.{
  VersionEdit, FileMetaData, GuardMetaData, InternalKey, pair_before, by_smallest_pair, clear,
}
use pebblesdb.VersionEdit.Items.{items_of}
use pebblesdb.VersionEdit.RoundTrip.{stored_guard, stored_file, Fits}
use pebblesdb.VersionEdit.RoundTrip.Sections.{IsAscending, RowsAt, append_rows}

-- The optional fields, one after the other.
abbrev with_name : VersionEdit → VersionEdit → VersionEdit
with_name base e = record (base) {
  comparator = if e.has_comparator then e.comparator else [];
  has_comparator = e.has_comparator;
}

abbrev with_log : VersionEdit → VersionEdit → VersionEdit
with_log base e = record (with_name base e) {
  log_number = if e.has_log_number then e.log_number else 0;
  has_log_number = e.has_log_number;
}

abbrev with_prev : VersionEdit → VersionEdit → VersionEdit
with_prev base e = record (with_log base e) {
  prev_log_number = if e.has_prev_log_number then e.prev_log_number else 0;
  has_prev_log_number = e.has_prev_log_number;
}

abbrev with_next : VersionEdit → VersionEdit → VersionEdit
with_next base e = record (with_prev base e) {
  next_file_number = if e.has_next_file_number then e.next_file_number else 0;
  has_next_file_number = e.has_next_file_number;
}

abbrev with_numbers : VersionEdit → VersionEdit → VersionEdit
with_numbers base e = record (with_next base e) {
  last_sequence = if e.has_last_sequence then e.last_sequence else 0;
  has_last_sequence = e.has_last_sequence;
}

abbrev stored_rows : List (List GuardMetaData) → List (List GuardMetaData)
stored_rows rows = map (map stored_guard) rows

abbrev stored_files : List (ℕ × FileMetaData) → List (ℕ × FileMetaData)
stored_files fs = map (λ p. (p.0, stored_file p.1)) fs

-- The edit `e` as it is read into the edit `base`: what is not written is lost, and what Clear leaves
-- in `base` stands in front.
abbrev pub stored : VersionEdit → VersionEdit → VersionEdit
stored base e = record (with_numbers (clear base) e) {
  compact_pointers = base.compact_pointers ++ e.compact_pointers;
  deleted_files = e.deleted_files;
  new_files = stored_files e.new_files;
  deleted_guards = e.deleted_guards;
  new_guards = stored_rows e.new_guards;
  new_complete_guards = append_rows base.new_complete_guards (stored_rows e.new_complete_guards);
  deleted_sentinel_files = e.deleted_sentinel_files;
}

module _ (key_before : InternalKey → InternalKey → Bool) where
  -- An edit that can be written: its fields fit their widths, its sets are in order, and its guards
  -- stand in the row of their level.
  abbrev pub IsStorable : VersionEdit → Type 0
  IsStorable e =
      All Fits (items_of e)
      × IsAscending pair_before e.deleted_files
      × IsAscending (by_smallest_pair key_before) e.deleted_guards
      × IsAscending pair_before e.deleted_sentinel_files
      × (length e.new_guards ≡ num_levels)
      × RowsAt 0 e.new_guards
      × (length e.new_complete_guards ≡ num_levels)
      × RowsAt 0 e.new_complete_guards
