-- ===== src/Compaction.antt =====
-- db/db_impl.cc and db/version_set.cc: which entries a compaction keeps. The input is the list of the
-- entries of the merged iterator.
mod Future
mod KeyOrder
mod Ahead
mod Sees
mod Step
pub mod Ranges
pub mod BaseLevel
pub mod Visible
mod Runs
use Prim.Native.Nat.{Ordering}
use pebblesdb.Common.{
  ℕ, ◌+◌, ◌-◌, ◌^◌, Bool, true, false, ◌&&◌, ◌||◌, not, Option, none, some, List, [], ◌∷◌, Bytes,
  leb, ◌==◌, if◌then◌else◌,
}
use pebblesdb.Comparator.{Comparator, is_lt}
use pebblesdb.Dbformat.{
  ValueType, deletion, value, guard, ParsedInternalKey, parse_internal_key, max_sequence_number,
  extract_user_key,
}
use pebblesdb.DbIter.{Entry}
use pebblesdb.DbIter.Newest.{is_eq}
use pebblesdb.VersionEdit.{FileMetaData}

abbrev pub is_deletion : ValueType → Bool
is_deletion deletion = true
is_deletion _ = false

abbrev pub is_gt : Ordering → Bool
is_gt Ordering.gt = true
is_gt _ = false

-- The files of the levels from level_ + 2 on, each from its place in level_ptrs_.
abbrev pub Levels : Type 0
Levels = List (List FileMetaData)

module _ (user : Comparator) where
  -- The files of a level that are left, and whether the key lies in the range of the first of them.
  unfoldable pub in_level : Bytes → List FileMetaData → Bool × List FileMetaData
  in_level user_key [] = (false, [])
  in_level user_key (f ∷ files) =
      let rest = in_level user_key files in
      if is_gt (user.compare user_key (extract_user_key f.largest))
      then rest
      else (not (is_lt (user.compare user_key (extract_user_key f.smallest))), f ∷ files)

  abbrev pub next_levels : List FileMetaData → Bool × Levels → Bool × Levels
  next_levels files (base, levels) = (base, files ∷ levels)

  abbrev pub at_level : Bool × Levels → Levels → Bool × List FileMetaData → Bool × Levels
  at_level deeper levels (true, files) = (false, files ∷ levels)
  at_level deeper levels (false, files) = next_levels files deeper

  -- Compaction::IsBaseLevelForKey
  unfoldable pub is_base_level_for_key : Bytes → Levels → Bool × Levels
  is_base_level_for_key user_key [] = (true, [])
  is_base_level_for_key user_key (files ∷ levels) =
      at_level (is_base_level_for_key user_key levels) levels (in_level user_key files)

-- The locals of the loop of DoCompactionWork that the choice depends on; has_current_key is in the option.
pub record Locals : Type 0 where
  pub current_key : Option Bytes
  pub last_sequence_for_key : ℕ
  pub levels : Levels

abbrev pub first_locals : Levels → Locals
first_locals levels = record {
  current_key = none;
  last_sequence_for_key = max_sequence_number;
  levels = levels;
}

module _ (user : Comparator) (smallest_snapshot manual_garbage_cutoff : ℕ) where
  -- `has_current_key && Compare(ikey.user_key, current_key.user_key) == 0`
  abbrev pub is_current : Option Bytes → Bytes → Bool
  is_current none user_key = false
  is_current (some current) user_key = is_eq (user.compare user_key current)

  -- Rule (A), and else the rule for deletions, whose third condition is evaluated last.
  abbrev pub drop_by : Bool → Bool → Bool × Levels → Levels → Bool × Levels
  drop_by true obsolete base levels = (true, levels)
  drop_by false true base levels = base
  drop_by false false base levels = (false, levels)

  -- The two rules and the cutoff, for an entry of the user key whose last sequence number was `last`.
  unfoldable pub drop_parsed : ParsedInternalKey → ℕ → Levels → Bool × Levels
  drop_parsed ikey last levels =
      let (drop, levels') =
        drop_by (leb last smallest_snapshot)
          (is_deletion ikey.type && leb ikey.sequence smallest_snapshot)
          (is_base_level_for_key user ikey.user_key levels) levels in
      (
        drop && not ((last == max_sequence_number) && leb manual_garbage_cutoff ikey.sequence),
        levels',
      )

  -- last_sequence_for_key before the rules: that of the user key, if it is the current one.
  abbrev pub last_for : Locals → Bytes → ℕ
  last_for l user_key =
      if is_current l.current_key user_key then l.last_sequence_for_key else max_sequence_number

  -- One round: whether the entry is dropped, and the locals of the next round.
  abbrev pub round : Locals → Option ParsedInternalKey → Bool × Locals
  round l none =
      (false, record l { current_key = none; last_sequence_for_key = max_sequence_number })
  round l (some ikey) =
      let (drop, levels) = drop_parsed ikey (last_for l ikey.user_key) l.levels in
      (
        drop,
        record {
          current_key =
              if is_current l.current_key ikey.user_key then l.current_key else some ikey.user_key;
          last_sequence_for_key = ikey.sequence;
          levels = levels;
        },
      )

  abbrev pub keep_if : (Locals → List Entry) → Entry → Bool × Locals → List Entry
  keep_if rest e (true, l) = rest l
  keep_if rest e (false, l) = e ∷ rest l

  -- The entries that the loop adds to the output.
  unfoldable pub kept : Locals → List Entry → List Entry
  kept l [] = []
  kept l (e ∷ es) = keep_if (λ l'. kept l' es) e (round l (parse_internal_key e.key))
