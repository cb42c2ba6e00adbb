-- ===== src/DbIter/Newest.antt =====
-- What a reader at a sequence number sees of the entries of an internal iterator: for each user key its
-- newest readable entry, when that is a value.
use Prim.Native.Nat.{Ordering}
use pebblesdb.Common.{
  ℕ, ◌≢◌, Bool, true, false, ◌&&◌, not, Option, none, some, List, [], ◌∷◌, Bytes, leb,
  if◌then◌else◌, All,
}
use pebblesdb.Comparator.{Comparator}
use pebblesdb.Dbformat.{ValueType, value, ParsedInternalKey, parse_internal_key, extract_user_key}
use pebblesdb.DbIter.{Entry}

abbrev pub user_key_of : Entry → Bytes
user_key_of e = extract_user_key e.key

abbrev pub is_eq : Ordering → Bool
is_eq Ordering.eq = true
is_eq _ = false

abbrev pub is_value : ValueType → Bool
is_value value = true
is_value _ = false

module _ (user : Comparator) (sequence : ℕ) where
  -- The type of an entry that can be read at the sequence number.
  abbrev pub type_parsed : Option ParsedInternalKey → Option ValueType
  type_parsed none = none
  type_parsed (some ikey) = if leb ikey.sequence sequence then some ikey.type else none

  abbrev pub type_at : Entry → Option ValueType
  type_at e = type_parsed (parse_internal_key e.key)

  -- Whether the user key `u` has been met last.
  abbrev pub same_key : Option Bytes → Bytes → Bool
  same_key none u = false
  same_key (some k) u = is_eq (user.compare k u)

  -- The entries to show: `previous` is the user key of the last entry that could be read.
  abbrev pub newest_at :
      Option ValueType → Option Bytes → Entry → List Entry → List Entry → List Entry
  newest_at none previous e same_rest rest = same_rest
  newest_at (some type) previous e same_rest rest =
      if is_value type && not (same_key previous (user_key_of e)) then e ∷ rest else rest

  unfoldable pub newest : Option Bytes → List Entry → List Entry
  newest previous [] = []
  newest previous (e ∷ es) =
      newest_at (type_at e) previous e (newest previous es) (newest (some (user_key_of e)) es)

  -- The user keys do not decrease.
  abbrev pub NotBelow : Bytes → List Entry → Type 0
  NotBelow k es = All (λ y. user.compare k (user_key_of y) ≢ Ordering.gt) es

  abbrev pub IsOrdered : List Entry → Type 0
  IsOrdered [] = Unit
  IsOrdered (e ∷ es) = NotBelow (user_key_of e) es × IsOrdered es
