-- ===== src/DbIter/Lookup.antt =====
-- A scan with DBIter and a point read of a user key (db/db_iter.cc).
use Prim.Native.Nat.{Ordering}
use pebblesdb.Common.{
  ℕ, ◌≤◌, length, map, ◌≡◌, ◌≢◌, refl, sym, ap, ◌∙◌, Bool, true, false, not, ◌&&◌, Option, none,
  some, List, [], ◌∷◌, Bytes, if◌then◌else◌, All, arith,
}
use pebblesdb.Comparator.{Comparator, IsOrder, reverse_order}
use pebblesdb.Dbformat.{ValueType, deletion, value, guard}
use pebblesdb.DbIter.{Entry, DbIter, seek_to_first}
use pebblesdb.DbIter.Forward.{read_forward, read_forward-seek_to_first}
use pebblesdb.DbIter.Newest.{
  user_key_of, is_eq, is_value, type_at, same_key, newest_at, newest, NotBelow, IsOrdered,
}

abbrev value_of : ValueType → Bytes → Option Bytes
value_of value v = some v
value_of _ v = none

abbrev read_type : Option ValueType → Bool → Bytes → Option Bytes → Option Bytes
read_type none same v later = later
read_type (some t) true v later = value_of t v
read_type (some t) false v later = later

module _ (user : Comparator) (sequence : ℕ) where
  -- The value under a user key in a list of shown entries.
  unfoldable pub find : Bytes → List Entry → Option Bytes
  find u [] = none
  find u (e ∷ es) =
      let later = find u es in
      if is_eq (user.compare (user_key_of e) u) then some e.value else later

  -- The value under a user key in what an iterator shows.
  unfoldable pub find_shown : Bytes → List (Bytes × Bytes) → Option Bytes
  find_shown u [] = none
  find_shown u ((k, v) ∷ rest) =
      let later = find_shown u rest in if is_eq (user.compare k u) then some v else later

  -- A point read: the first entry of the key that can be read decides.
  unfoldable pub read : Bytes → List Entry → Option Bytes
  read u [] = none
  read u (e ∷ es) =
      read_type (type_at user sequence e) (is_eq (user.compare (user_key_of e) u)) e.value
        (read u es)

  module _ (order : IsOrder user.compare) (u : Bytes) where
    abbrev Differs : List Entry → Type 0
    Differs es = All (λ y. is_eq (user.compare (user_key_of y) u) ≡ false) es

    find_other :
        (t : Option ValueType) (previous : Option Bytes) (e : Entry) (skipped kept : List Entry)
        (found : Option Bytes)
        → is_eq (user.compare (user_key_of e) u) ≡ false
        → (t ≡ none → find u skipped ≡ found)
        → find u kept ≡ found
        → find u (newest_at user sequence t previous e skipped kept) ≡ found
    unfolding find
    find_other none previous e skipped kept found other h h' = h refl
    find_other (some t) previous e skipped kept found other h h' =
        by_test (is_value t && not (same_key user sequence previous (user_key_of e)))
      where
        by_test : (b : Bool) → find u (if b then e ∷ kept else kept) ≡ found
        by_test true = rw other h'
        by_test false = h'

    find-Differs :
        (previous : Option Bytes) (es : List Entry)
        → Differs es
        → find u (newest user sequence previous es) ≡ none
    unfolding find newest
    find-Differs previous [] h = refl
    find-Differs previous (e ∷ es) (other, h) =
        find_other (type_at user sequence e) previous e (newest user sequence previous es)
          (newest user sequence (some (user_key_of e)) es) none other
          (λ _. find-Differs previous es h) (find-Differs (some (user_key_of e)) es h)

    is_eq-elim : (o : Ordering) → is_eq o ≡ true → o ≡ Ordering.eq
    is_eq-elim Ordering.lt h = cc
    is_eq-elim Ordering.eq h = refl
    is_eq-elim Ordering.gt h = cc

    lt_of : (o : Ordering) → is_eq o ≡ false → o ≢ Ordering.gt → o ≡ Ordering.lt
    lt_of Ordering.lt h h' = refl
    lt_of Ordering.eq h h' = cc
    lt_of Ordering.gt h h' = absurd (h' refl)

    -- Nothing from a key above `u` on compares equal to `u`.
    above-Differs :
        (k : Bytes) (es : List Entry)
        → user.compare u k ≡ Ordering.lt
        → NotBelow user sequence k es
        → Differs es
    above-Differs k [] below h = tt
    above-Differs k (y ∷ es) below (not_below, h) =
        (by_case (is_eq (user.compare (user_key_of y) u)) refl, above-Differs k es below h)
      where
        by_case :
            (b : Bool)
            → is_eq (user.compare (user_key_of y) u) ≡ b
            → is_eq (user.compare (user_key_of y) u) ≡ false
        by_case false e = e
        by_case true e = absurd (
            not_below (
              order.flip (user_key_of y) k
              ∙ ap reverse_order (order.eq_left (user_key_of y) u k (is_eq-elim _ e) ∙ below)))

    find_hidden :
        (t : Option ValueType) (k : Bytes) (e : Entry) (skipped kept : List Entry)
        → is_eq (user.compare k (user_key_of e)) ≡ true
        → find u skipped ≡ none
        → find u kept ≡ none
        → find u (newest_at user sequence t (some k) e skipped kept) ≡ none
    find_hidden none k e skipped kept same h h' = h
    find_hidden (some deletion) k e skipped kept same h h' = h'
    find_hidden (some value) k e skipped kept same h h' = rw same h'
    find_hidden (some guard) k e skipped kept same h h' = h'

    -- The key `k`, which has been met and compares equal to `u`, hides `u`.
    find-met :
        (k : Bytes) (es : List Entry)
        → IsOrdered user sequence es
        → NotBelow user sequence k es
        → user.compare k u ≡ Ordering.eq
        → find u (newest user sequence (some k) es) ≡ none
    find-met k [] ordered below same = unfold find newest in refl
    find-met k (e ∷ es) ordered below same =
        by_case (is_eq (user.compare k (user_key_of e))) refl (find-met k es ordered.1 below.1 same)
          (λ equal.
            find-met (user_key_of e) es ordered.1 ordered.0
              (sym (order.eq_left k (user_key_of e) u (is_eq-elim _ equal)) ∙ same))
      where
        by_case :
            (b : Bool)
            → is_eq (user.compare k (user_key_of e)) ≡ b
            → find u (newest user sequence (some k) es) ≡ none
            → (is_eq (user.compare k (user_key_of e)) ≡ true
                → find u (newest user sequence (some (user_key_of e)) es) ≡ none)
            → find u (newest user sequence (some k) (e ∷ es)) ≡ none
        by_case false h skipped kept =
            let below_u : user.compare u (user_key_of e) ≡ Ordering.lt =
              sym (order.eq_left k u (user_key_of e) same) ∙ lt_of _ h below.0 in
            find-Differs (some k) (e ∷ es) (
              rw (order.flip u (user_key_of e), below_u) refl,
              above-Differs (user_key_of e) es below_u ordered.0,
            )
        by_case true h skipped kept =
            unfold newest in
            find_hidden (type_at user sequence e) k e (newest user sequence (some k) es)
              (newest user sequence (some (user_key_of e)) es) h skipped (kept h)

    -- The entry at hand has the key `u`: it is shown if it is a value, and hides the rest.
    find_here :
        (t : ValueType) (previous : Option Bytes) (e : Entry) (skipped kept : List Entry)
        → is_eq (user.compare (user_key_of e) u) ≡ true
        → same_key user sequence previous (user_key_of e) ≡ false
        → find u kept ≡ none
        → find u (newest_at user sequence (some t) previous e skipped kept) ≡ value_of t e.value
    unfolding find
    find_here deletion previous e skipped kept here fresh h = h
    find_here value previous e skipped kept here fresh h = rw (fresh, here) refl
    find_here guard previous e skipped kept here fresh h = h

    not_met :
        (previous : Option Bytes) (k : Bytes)
        → same_key user sequence previous u ≡ false
        → is_eq (user.compare k u) ≡ true
        → same_key user sequence previous k ≡ false
    not_met none k h same = refl
    not_met (some p) k h same = by_case (is_eq (user.compare p k)) refl
      where
        by_case : (b : Bool) → is_eq (user.compare p k) ≡ b → is_eq (user.compare p k) ≡ false
        by_case false e = e
        by_case true e =
            let met = ap is_eq (order.eq_left p k u (is_eq-elim _ e)) ∙ same in
            ground (arith, met, h)

    find-newest_after :
        (previous : Option Bytes) (es : List Entry)
        → IsOrdered user sequence es
        → same_key user sequence previous u ≡ false
        → find u (newest user sequence previous es) ≡ read u es
    unfolding find newest read
    find-newest_after previous [] ordered fresh = refl
    find-newest_after previous (e ∷ es) ordered fresh =
        by_case (type_at user sequence e) (is_eq (user.compare (user_key_of e) u)) refl
          (find-newest_after previous es ordered.1 fresh)
          (λ differs. find-newest_after (some (user_key_of e)) es ordered.1 differs)
      where
        by_case :
            (t : Option ValueType) (b : Bool)
            → is_eq (user.compare (user_key_of e) u) ≡ b
            → find u (newest user sequence previous es) ≡ read u es
            → (is_eq (user.compare (user_key_of e) u) ≡ false
                → find u (newest user sequence (some (user_key_of e)) es) ≡ read u es)
            → find u (
                newest_at user sequence t previous e
                  (newest user sequence previous es)
                  (newest user sequence (some (user_key_of e)) es))
              ≡ read_type t b e.value (read u es)
        by_case none b h skipped kept = skipped
        by_case (some t) true h skipped kept =
            find_here t previous e (newest user sequence previous es)
              (newest user sequence (some (user_key_of e)) es) h
              (not_met previous (user_key_of e) fresh h)
              (find-met (user_key_of e) es ordered.1 ordered.0 (is_eq-elim _ h))
        by_case (some t) false h skipped kept =
            find_other (some t) previous e (newest user sequence previous es)
              (newest user sequence (some (user_key_of e)) es) (read u es) h
              (λ n. ground (arith, n)) (kept h)

    find_shown-map :
        (es : List Entry) → find_shown u (map (λ v. (user_key_of v, v.value)) es) ≡ find u es
    unfolding find_shown find
    find_shown-map [] = refl
    find_shown-map (e ∷ es) =
        ap (λ later. if is_eq (user.compare (user_key_of e) u) then some e.value else later)
          (find_shown-map es)

    -- A scan agrees with point reads: for an internal iterator ordered by user key and a comparator
    -- that is a total order, the value found under a user key in what SeekToFirst and Next show is the
    -- value that the first readable entry of that key holds, and there is none if that entry is a
    -- deletion or if no entry of the key can be read.
    pub find_shown-read_forward :
        (d : DbIter) (fuel : ℕ)
        → IsOrdered user sequence d.entries
        → length d.entries ≤ fuel
        → find_shown u (read_forward user sequence fuel (seek_to_first user sequence d))
          ≡ read u d.entries
    find_shown-read_forward d fuel ordered enough =
        ap (find_shown u) (read_forward-seek_to_first user sequence order d fuel ordered enough)
        ∙ find_shown-map (newest user sequence none d.entries)
        ∙ find-newest_after none d.entries ordered refl
