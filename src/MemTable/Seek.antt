-- ===== src/MemTable/Seek.antt =====
-- Seeking in the list of a memtable after an entry was inserted.
use pebblesdb.Common.{Option, none, some, Bytes, if◌then◌else◌}
use pebblesdb.Comparator.{Comparator, is_lt}
use pebblesdb.MemTable.{compare_entries}

module _ (user : Comparator) where
  -- The smaller of a new entry and the one that was found without it.
  abbrev pub smaller : Bytes → Option Bytes → Option Bytes
  smaller x none = some x
  smaller x (some y) = if is_lt (compare_entries user y x) then some y else some x

  -- What is found once `x` is there: nothing new if it is below the target.
  abbrev pub found_with : Bytes → Bytes → Option Bytes → Option Bytes
  found_with target x o = if is_lt (compare_entries user x target) then o else smaller x o
