-- ===== src/DbIter/Reverse.antt =====
-- db/db_iter.cc: FindPrevUserEntry, Prev and SeekToLast.
use pebblesdb.Common.{
  ℕ, Bool, true, false, ◌&&◌, Option, none, some, List, [], ◌∷◌, Bytes, leb, if◌then◌else◌,
}
use pebblesdb.Comparator.{Comparator, is_lt}
use pebblesdb.Dbformat.{ValueType, deletion, ParsedInternalKey, extract_user_key}
use pebblesdb.DbIter.{DbIter, Entry, Cursor, off, at, forward, reverse, parse_key, cursor_last}

-- `value_type != kTypeDeletion`
abbrev not_deletion : ValueType → Bool
not_deletion deletion = false
not_deletion _ = true

-- The entry that is kept for a type that has just been read.
abbrev keep : ValueType → Entry → DbIter → DbIter
keep deletion e d = record d { saved_key = []; saved_value = [] }
keep _ e d = record d { saved_key = extract_user_key e.key; saved_value = e.value }

-- Where the loop stands: whether it breaks, value_type, and the iterator.
pub record Collected : Type 0 where
  pub breaks : Bool
  pub type : ValueType
  pub d : DbIter

module _ (user : Comparator) (sequence : ℕ) where
  abbrev collect_parsed : Option ParsedInternalKey → Entry → ValueType → DbIter → Collected
  collect_parsed none e type d = record { breaks = false; type = type; d = d }
  collect_parsed (some ikey) e type d =
      if leb ikey.sequence sequence
      then if not_deletion type && is_lt (user.compare ikey.user_key d.saved_key)
        then record { breaks = true; type = type; d = d }
        else record { breaks = false; type = ikey.type; d = keep ikey.type e d }
      else record { breaks = false; type = type; d = d }

  abbrev collect : Entry → ValueType → DbIter → Collected
  collect e type d = let (ikey, d') = parse_key user sequence e d in collect_parsed ikey e type d'

  -- The loop of FindPrevUserEntry, from the entry of the cursor down.
  find_prev_loop : List Entry → Entry → List Entry → ValueType → DbIter → ValueType × DbIter
  find_prev_loop [] e right type d =
      let c = collect e type d in
      (c.type, record c.d { iter = if c.breaks then at [] e right else off })
  find_prev_loop (l ∷ left) e right type d =
      let c = collect e type d in
      let rest = find_prev_loop left l (e ∷ right) c.type c.d in
      if c.breaks then (c.type, record c.d { iter = at (l ∷ left) e right }) else rest

  abbrev find_prev_from : Cursor → DbIter → ValueType × DbIter
  find_prev_from off d = (deletion, d)
  find_prev_from (at left e right) d = find_prev_loop left e right deletion d

  unfoldable pub find_prev_user_entry : DbIter → DbIter
  unfolding find_prev_loop
  find_prev_user_entry d =
      let (type, d') = find_prev_from d.iter d in
      if not_deletion type
      then record d' { valid = true }
      else record d' { valid = false; saved_key = []; saved_value = []; direction = forward }

  -- The scan of Prev backwards until the key changes.
  scan_back : Bytes → List Entry → Entry → List Entry → Cursor
  scan_back saved [] e right = off
  scan_back saved (l ∷ left) e right =
      let rest = scan_back saved left l (e ∷ right) in
      if is_lt (user.compare (extract_user_key l.key) saved) then at left l (e ∷ right) else rest

  abbrev prev_scanned : Cursor → DbIter → DbIter
  prev_scanned off d = record d { iter = off; valid = false; saved_key = []; saved_value = [] }
  prev_scanned (at left e right) d =
      find_prev_user_entry (record d { iter = at left e right; direction = reverse })

  abbrev prev_forward : Cursor → DbIter → DbIter
  prev_forward off d = d
  prev_forward (at left e right) d =
      let saved = extract_user_key e.key in
      prev_scanned (scan_back saved left e right) (record d { saved_key = saved })

  -- Prev of a valid iterator.
  unfoldable pub prev : DbIter → DbIter
  unfolding scan_back
  prev d = elim d.direction [ forward ↦ prev_forward d.iter d | reverse ↦ find_prev_user_entry d ]

  unfoldable pub seek_to_last : DbIter → DbIter
  seek_to_last d =
      find_prev_user_entry
        (record d { direction = reverse; saved_value = []; iter = cursor_last d.entries })
