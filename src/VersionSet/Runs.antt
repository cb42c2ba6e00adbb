-- ===== src/VersionSet/Runs.antt =====
-- FindFile in two files, and the theorem at them.
use pebblesdb.Common.{ℕ, ◌≡◌, refl, [], ◌∷◌, List, Bytes}
use pebblesdb.Comparator.{bytewise, slice_compare, memcmp}
use pebblesdb.VersionEdit.{FileMetaData}
use pebblesdb.VersionSet.{find_file}

abbrev key_of : ℕ → Bytes
key_of u = u ∷ 1 ∷ 4 ∷ 0 ∷ 0 ∷ 0 ∷ 0 ∷ 0 ∷ 0 ∷ []

abbrev file : ℕ → FileMetaData
file u = record {
  refs = 1;
  allowed_seeks = 100;
  number = u;
  file_size = 10;
  smallest = key_of u;
  largest = key_of u;
}

abbrev files : List FileMetaData
files = file 3 ∷ file 5 ∷ file 9 ∷ []

second_file : find_file bytewise files (key_of 5) ≡ 1
unfolding find_file pebblesdb.VersionSet.find_file_loop slice_compare memcmp
    pebblesdb.Dbformat.internal_compare pebblesdb.Dbformat.extract_user_key
    pebblesdb.Dbformat.extract_tag pebblesdb.Coding.decode_fixed64 pebblesdb.Coding.decode_fixed32
second_file = refl
