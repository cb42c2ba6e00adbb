-- ===== src/VersionSet.antt =====
-- db/version_set.cc: FindFile, the binary search in the files of a level. A pointer to a file is the file.
pub mod Search
mod Runs
use pebblesdb.Common.{
  ℕ, zero, suc, ◌+◌, ◌/◌, ◌<◌, Bool, true, false, Option, none, some, List, [], ◌∷◌, Bytes, ltb,
  if◌then◌else◌, length, get_elem?,
}
use pebblesdb.Comparator.{Comparator, is_lt}
use pebblesdb.Dbformat.{internal_compare}
use pebblesdb.VersionEdit.{FileMetaData}

module _ (user : Comparator) (files : List FileMetaData) (key : Bytes) where
  -- `icmp.Compare(f->largest.Encode(), key) < 0`; a place outside the list is not read.
  abbrev pub largest_below : Option FileMetaData → Bool
  largest_below none = false
  largest_below (some f) = is_lt (internal_compare user f.largest key)

  abbrev pub file_below : ℕ → Bool
  file_below i = largest_below (get_elem? files i)

  -- `while (left < right)`, on fuel; the interval gets shorter in every round.
  unfoldable pub find_file_loop : ℕ → ℕ → ℕ → ℕ
  find_file_loop zero left right = right
  find_file_loop (suc fuel) left right =
      let mid = (left + right) / 2 in
      let upper = find_file_loop fuel (mid + 1) right in
      let lower = find_file_loop fuel left mid in
      if ltb left right then if file_below mid then upper else lower else right

  unfoldable pub find_file : ℕ
  find_file = find_file_loop (length files) 0 (length files)
