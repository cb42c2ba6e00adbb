-- ===== src/DbIter/Seek.antt =====
-- Seek and Next against what a reader sees from the target on (db/db_iter.cc).
use pebblesdb.Common.{
  ℕ, suc, ◌≤◌, ◌≡◌, refl, Bool, true, false, none, List, [], ◌∷◌, Bytes, if◌then◌else◌, map, length,
  arith,
}
use pebblesdb.Comparator.{Comparator, IsOrder, is_lt}
use pebblesdb.Dbformat.{internal_compare, append_internal_key, value_type_for_seek}
use pebblesdb.DbIter.{DbIter, Entry, at, forward, cursor_seek, find_next_from, seek}
use pebblesdb.DbIter.Newest.{user_key_of, newest, IsOrdered}
use pebblesdb.DbIter.Forward.{
  Yields, find_next-Yields, read_forward, read_forward-Yields, length-newest,
}

module _ (user : Comparator) (sequence : ℕ) where
  -- The internal key that Seek looks for.
  abbrev pub seek_key : Bytes → Bytes
  seek_key target =
      append_internal_key []
        (record { user_key = target; sequence = sequence; type = value_type_for_seek })

  -- The entries from the first that is not below an internal key.
  unfoldable pub entries_from : Bytes → List Entry → List Entry
  entries_from key [] = []
  entries_from key (e ∷ es) =
      let later = entries_from key es in
      if is_lt (internal_compare user e.key key) then later else e ∷ es

  length-entries_from : (key : Bytes) (es : List Entry) → length (entries_from key es) ≤ length es
  unfolding entries_from
  length-entries_from key [] = omega arith
  length-entries_from key (e ∷ es) =
      by_case (is_lt (internal_compare user e.key key)) (entries_from key es)
        (length-entries_from key es)
    where
      by_case :
          (b : Bool) (later : List Entry)
          → length later ≤ length es
          → length (if b then later else e ∷ es) ≤ suc (length es)
      by_case true later h = omega arith
      by_case false later h = omega arith

  module _ (order : IsOrder user.compare) where
    cursor_seek-Yields :
        (key : Bytes) (es left : List Entry) (d : DbIter)
        → IsOrdered user sequence es
        → d.direction ≡ forward
        → Yields user sequence order
            (find_next_from user sequence (cursor_seek user sequence key left es) false d)
            (newest user sequence none (entries_from key es))
    unfolding cursor_seek entries_from newest
    cursor_seek-Yields key [] left d ordered dir = refl
    cursor_seek-Yields key (e ∷ es) left d ordered dir =
        by_case (is_lt (internal_compare user e.key key))
          (cursor_seek-Yields key es (e ∷ left) d ordered.1 dir)
          (find_next-Yields user sequence order es left e false d none tt tt ordered dir)
      where
        by_case :
            (b : Bool)
            → Yields user sequence order
                (find_next_from user sequence (cursor_seek user sequence key (e ∷ left) es) false d)
                (newest user sequence none (entries_from key es))
            → Yields user sequence order
                (find_next_from user sequence (at left e es) false d)
                (newest user sequence none (e ∷ es))
            → Yields user sequence order
                (find_next_from user sequence
                  (if b then cursor_seek user sequence key (e ∷ left) es else at left e es)
                  false
                  d)
                (newest user sequence none (if b then entries_from key es else e ∷ es))
        by_case true later here = later
        by_case false later here = here

    -- Seek to a user key, and then Next as long as the iterator is valid, shows the newest readable
    -- values of the entries from the first that is not below the seek key, when the internal
    -- iterator is ordered by user key and the comparator is a total order; as many rounds as there
    -- are entries are enough.
    pub read_forward-seek :
        (target : Bytes) (d : DbIter) (fuel : ℕ)
        → IsOrdered user sequence d.entries
        → length d.entries ≤ fuel
        → read_forward user sequence fuel (seek user sequence target d)
          ≡ map
              (λ v. (user_key_of v, v.value))
              (newest user sequence none (entries_from (seek_key target) d.entries))
    unfolding seek
    read_forward-seek target d fuel ordered enough =
        read_forward-Yields user sequence order fuel _ _
          (cursor_seek-Yields (seek_key target) d.entries [] _ ordered refl)
          (omega (
            arith,
            length-newest user sequence order none (entries_from (seek_key target) d.entries),
            length-entries_from (seek_key target) d.entries,
          ))
