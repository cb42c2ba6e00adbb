-- ===== src/VersionEdit.antt =====
-- db/version_edit.h and db/version_edit.cc: a change to the set of files and guards, and its bytes in
-- the descriptor log. A `std::set` is the list of its members in its order, an array over the levels
-- is the list of its rows. The pointers of a file to its guard and of a guard to its files belong to
-- the version set and are left out.
pub mod Encode
pub mod Decode
pub mod Items
pub mod RoundTrip
pub mod Ending
mod Runs
use mathlib.Core.List.{foldl}
use pebblesdb.Common.{
  ℕ, zero, suc, ◌+◌, ◌-◌, ◌^◌, ◌<◌, ◌≤◌, Bool, true, false, ◌&&◌, ◌||◌, List, [], ◌∷◌, ◌++◌, Bytes,
  ltb, ◌==◌, if◌then◌else◌, replicate,
}
use pebblesdb.Coding.{put_varint32, put_varint64, put_length_prefixed_slice}
use pebblesdb.Dbformat.{num_levels}

-- InternalKey: its field `rep_`, which Encode returns and DecodeFrom assigns.
abbrev pub InternalKey : Type 0
InternalKey = Bytes

pub record FileMetaData : Type 0 where
  pub refs : ℕ
  pub allowed_seeks : ℕ
  pub number : ℕ
  pub file_size : ℕ
  pub smallest : InternalKey
  pub largest : InternalKey

pub record GuardMetaData : Type 0 where
  pub refs : ℕ
  pub level : ℕ
  pub number_segments : ℕ
  pub guard_key : InternalKey
  pub smallest : InternalKey
  pub largest : InternalKey
  pub files : List ℕ

pub record VersionEdit : Type 0 where
  pub comparator : Bytes
  pub log_number : ℕ
  pub prev_log_number : ℕ
  pub next_file_number : ℕ
  pub last_sequence : ℕ
  pub has_comparator : Bool
  pub has_log_number : Bool
  pub has_prev_log_number : Bool
  pub has_next_file_number : Bool
  pub has_last_sequence : Bool
  pub compact_pointers : List (ℕ × InternalKey)
  pub deleted_files : List (ℕ × ℕ)
  pub new_files : List (ℕ × FileMetaData)
  pub sentinel_files : List (List FileMetaData)
  pub sentinel_file_nos : List (List ℕ)
  pub deleted_sentinel_files : List (ℕ × ℕ)
  pub new_guards : List (List GuardMetaData)
  pub new_complete_guards : List (List GuardMetaData)
  pub deleted_guards : List (ℕ × InternalKey)

-- An array of empty vectors over the levels.
abbrev pub no_rows {ℓ} : {A : Type ℓ} → List (List A)
no_rows = replicate num_levels []

-- `rows[level].push_back(x)`
abbrev pub push_back_at {ℓ} : {A : Type ℓ} → ℕ → A → List (List A) → List (List A)
push_back_at level x [] = []
push_back_at zero x (row ∷ rows) = (row ++ x ∷ []) ∷ rows
push_back_at (suc level) x (row ∷ rows) = row ∷ push_back_at level x rows

-- `std::set::insert` with the order `before`.
abbrev pub set_insert {ℓ} : {A : Type ℓ} → (A → A → Bool) → A → List A → List A
set_insert before x [] = x ∷ []
set_insert before x (y ∷ ys) =
    let rest = set_insert before x ys in
    if before x y then x ∷ y ∷ ys else if before y x then y ∷ rest else y ∷ ys

-- The order of `std::pair<int, uint64_t>`.
unfoldable pub pair_before : ℕ × ℕ → ℕ × ℕ → Bool
pair_before (a, m) (b, n) = ltb a b || (a == b && ltb m n)

-- BySmallestPair, with the order of the comparator that its pointer designates.
unfoldable pub by_smallest_pair :
    (InternalKey → InternalKey → Bool) → ℕ × InternalKey → ℕ × InternalKey → Bool
by_smallest_pair key_before (a, m) (b, n) = if a == b then key_before m n else ltb a b

-- Clear leaves the compaction pointers, the numbers of sentinel files and the complete guards.
unfoldable pub clear : VersionEdit → VersionEdit
clear e = record e {
  comparator = [];
  log_number = 0;
  prev_log_number = 0;
  last_sequence = 0;
  next_file_number = 0;
  has_comparator = false;
  has_log_number = false;
  has_prev_log_number = false;
  has_next_file_number = false;
  has_last_sequence = false;
  deleted_files = [];
  new_files = [];
  deleted_guards = [];
  new_guards = no_rows;
  sentinel_files = no_rows;
  deleted_sentinel_files = [];
}

-- The constructor.
abbrev pub new_edit : VersionEdit
new_edit = record {
  comparator = [];
  log_number = 0;
  prev_log_number = 0;
  next_file_number = 0;
  last_sequence = 0;
  has_comparator = false;
  has_log_number = false;
  has_prev_log_number = false;
  has_next_file_number = false;
  has_last_sequence = false;
  compact_pointers = [];
  deleted_files = [];
  new_files = [];
  sentinel_files = no_rows;
  sentinel_file_nos = no_rows;
  deleted_sentinel_files = [];
  new_guards = no_rows;
  new_complete_guards = no_rows;
  deleted_guards = [];
}

-- SetLogNumber, AddFile, AddGuard and AddCompleteGuard; DeleteFile inserts into the set.
unfoldable pub set_log_number : VersionEdit → ℕ → VersionEdit
set_log_number e num = record e { has_log_number = true; log_number = num }

unfoldable pub add_file : VersionEdit → ℕ → ℕ → ℕ → InternalKey → InternalKey → VersionEdit
add_file e level file file_size smallest largest = record e {
  new_files =
      e.new_files
      ++ (
        level,
        record {
          refs = 0;
          allowed_seeks = 2 ^ 30;
          number = file;
          file_size = file_size;
          smallest = smallest;
          largest = largest;
        },
      )
        ∷ [];
}

abbrev fresh_guard : ℕ → InternalKey → GuardMetaData
fresh_guard level guard_key = record {
  refs = 0;
  level = level;
  number_segments = 0;
  guard_key = guard_key;
  smallest = [];
  largest = [];
  files = [];
}

unfoldable pub add_guard : VersionEdit → ℕ → InternalKey → VersionEdit
add_guard e level guard_key = record e {
  new_guards = push_back_at level (fresh_guard level guard_key) e.new_guards;
}

unfoldable pub add_complete_guard : VersionEdit → ℕ → InternalKey → VersionEdit
add_complete_guard e level guard_key = record e {
  new_complete_guards = push_back_at level (fresh_guard level guard_key) e.new_complete_guards;
}

unfoldable pub delete_file : VersionEdit → ℕ → ℕ → VersionEdit
delete_file e level file = record e {
  deleted_files = set_insert pair_before (level, file) e.deleted_files;
}
