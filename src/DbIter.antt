-- ===== src/DbIter.antt =====
-- db/db_iter.cc: DBIter, which shows the user keys of an internal iterator at a sequence number. The
-- internal iterator is a cursor in the list of its entries, in the order of the internal keys. The
-- sampling of reads (RecordReadSample and its counters) does not change what is shown and is left
-- out, and so is the capacity of the saved value.
pub mod Reverse
pub mod Newest
pub mod Lookup
pub mod Seek
pub mod Forward
mod Runs
use Prim.Native.Nat.{compare, Ordering}
use pebblesdb.Common.{
  ℕ, ◌<◌, ◌≤◌, Bool, true, false, ◌&&◌, Option, none, some, List, [], ◌∷◌, ◌++◌, Bytes, leb,
  if◌then◌else◌,
}
use pebblesdb.Status.{Status, ok, corruption, is_ok}
use pebblesdb.Comparator.{Comparator, is_lt}
use pebblesdb.Dbformat.{
  ValueType, deletion, value, guard, ParsedInternalKey, parse_internal_key, extract_user_key,
  append_internal_key, value_type_for_seek, internal_compare,
}

pub record Entry : Type 0 where
  pub key : Bytes
  pub value : Bytes

-- A position: the entries before it, nearest first, the entry, and those behind; or no entry.
pub data Cursor : Type 0 where
  off : Cursor
  at : List Entry → Entry → List Entry → Cursor

-- Next and Prev of a valid cursor.
abbrev pub cursor_next : Cursor → Cursor
cursor_next off = off
cursor_next (at left e []) = off
cursor_next (at left e (r ∷ right)) = at (e ∷ left) r right

abbrev pub cursor_prev : Cursor → Cursor
cursor_prev off = off
cursor_prev (at [] e right) = off
cursor_prev (at (l ∷ left) e right) = at left l (e ∷ right)

abbrev pub cursor_first : List Entry → Cursor
cursor_first [] = off
cursor_first (e ∷ right) = at [] e right

-- The last entry of a list that is not empty, reached from its first.
cursor_end : List Entry → Entry → List Entry → Cursor
cursor_end left e [] = at left e []
cursor_end left e (r ∷ right) = cursor_end (e ∷ left) r right

unfoldable pub cursor_last : List Entry → Cursor
unfolding cursor_end
cursor_last [] = off
cursor_last (e ∷ right) = cursor_end [] e right

pub data Direction : Type 0 where
  forward reverse : Direction

-- The state of a DBIter; `entries` is the list behind `iter`.
pub record DbIter : Type 0 where
  pub entries : List Entry
  pub iter : Cursor
  pub status : Status
  pub saved_key : Bytes
  pub saved_value : Bytes
  pub direction : Direction
  pub valid : Bool

abbrev pub new_db_iter : List Entry → DbIter
new_db_iter entries = record {
  entries = entries;
  iter = off;
  status = ok;
  saved_key = [];
  saved_value = [];
  direction = forward;
  valid = false;
}

abbrev corrupted : Status
corrupted = corruption "corrupted internal key in DBIter"

-- `Compare(...) <= 0`
abbrev pub is_le : Ordering → Bool
is_le Ordering.gt = false
is_le _ = true

-- One round of FindNextUserEntry: the entry is shown, or passed with what is skipped from then on.
pub data Look : Type 0 where
  shown : Look
  passed : Bool → DbIter → Look

-- The switch on the type of a readable entry, with the test of the case kTypeValue.
abbrev pub look_type : ValueType → Bool → Bytes → Bool → DbIter → Look
look_type deletion hidden u skipping d = passed true (record d { saved_key = u })
look_type value true u skipping d = passed skipping d
look_type value false u skipping d = shown
look_type guard hidden u skipping d = passed skipping d

module _ (user : Comparator) (sequence : ℕ) where
  -- ParseKey, on what ParseInternalKey returns.
  abbrev pub parse_key_from : Option ParsedInternalKey → DbIter → Option ParsedInternalKey × DbIter
  parse_key_from none d = (none, record d { status = corrupted })
  parse_key_from (some ikey) d = (some ikey, d)

  abbrev pub parse_key : Entry → DbIter → Option ParsedInternalKey × DbIter
  parse_key e d = parse_key_from (parse_internal_key e.key) d

  abbrev pub look_parsed : Option ParsedInternalKey → Bool → DbIter → Look
  look_parsed none skipping d = passed skipping d
  look_parsed (some ikey) skipping d =
      let hidden = skipping && is_le (user.compare ikey.user_key d.saved_key) in
      if leb ikey.sequence sequence
      then look_type ikey.type hidden ikey.user_key skipping d
      else passed skipping d

  abbrev pub look_from : Option ParsedInternalKey → Bool → DbIter → Look
  look_from o skipping d = let (ikey, d') = parse_key_from o d in look_parsed ikey skipping d'

  abbrev pub look : Entry → Bool → DbIter → Look
  look e skipping d = look_from (parse_internal_key e.key) skipping d

  -- The loop of FindNextUserEntry on a valid cursor; `skip` is always the saved key.
  unfoldable pub find_next_user_entry : List Entry → Entry → List Entry → Bool → DbIter → DbIter
  find_next_user_entry left e [] skipping d = elim (look e skipping d) [
    | shown ↦ record d { iter = at left e []; valid = true; saved_key = [] }
    | passed skipping' d' ↦ record d' { iter = off; saved_key = []; valid = false }
  ]
  find_next_user_entry left e (r ∷ right) skipping d = elim (look e skipping d) [
    | shown ↦ record d { iter = at left e (r ∷ right); valid = true; saved_key = [] }
    | passed skipping' d' ↦ find_next_user_entry (e ∷ left) r right skipping' d'
  ]

  -- FindNextUserEntry where the cursor may have run off: the callers test Valid first.
  abbrev pub find_next_from : Cursor → Bool → DbIter → DbIter
  find_next_from off skipping d = record d { iter = off; valid = false }
  find_next_from (at left e right) skipping d = find_next_user_entry left e right skipping d

  abbrev pub cursor_key : Cursor → Bytes
  cursor_key off = []
  cursor_key (at left e right) = e.key

  abbrev pub cursor_value : Cursor → Bytes
  cursor_value off = []
  cursor_value (at left e right) = e.value

  abbrev pub enter : List Entry → Cursor → Cursor
  enter entries off = cursor_first entries
  enter entries (at left e right) = cursor_next (at left e right)

  abbrev pub next_reverse : Cursor → DbIter → DbIter
  next_reverse off d = record d { iter = off; valid = false; saved_key = []; direction = forward }
  next_reverse (at left e right) d =
      find_next_user_entry left e right true (record d { direction = forward })

  abbrev pub next_forward : Cursor → DbIter → DbIter
  next_forward off d = d
  next_forward (at left e right) d =
      find_next_user_entry left e right true (record d { saved_key = extract_user_key e.key })

  -- Next of a valid iterator.
  unfoldable pub next : DbIter → DbIter
  next d = elim d.direction [
    | reverse ↦ next_reverse (enter d.entries d.iter) d
    | forward ↦ next_forward d.iter d
  ]

  -- What Valid, key and value show of the iterator.
  abbrev pub shows : DbIter → Option (Bytes × Bytes)
  shows d =
      if d.valid
      then some (elim d.direction [
        | forward ↦ (extract_user_key (cursor_key d.iter), cursor_value d.iter)
        | reverse ↦ (d.saved_key, d.saved_value)
      ])
      else none

  unfoldable pub seek_to_first : DbIter → DbIter
  seek_to_first d =
      find_next_from (cursor_first d.entries) false
        (record d { direction = forward; saved_value = [] })

  -- Seek of the internal iterator: the first entry that is not below the target.
  cursor_seek : Bytes → List Entry → List Entry → Cursor
  cursor_seek target left [] = off
  cursor_seek target left (e ∷ right) =
      let later = cursor_seek target (e ∷ left) right in
      if is_lt (internal_compare user e.key target) then later else at left e right

  unfoldable pub seek : Bytes → DbIter → DbIter
  unfolding cursor_seek
  seek target d =
      let key =
        append_internal_key []
          (record { user_key = target; sequence = sequence; type = value_type_for_seek }) in
      find_next_from (cursor_seek key [] d.entries) false
        (record d { direction = forward; saved_value = []; saved_key = key })
