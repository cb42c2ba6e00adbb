-- ===== src/DbIter/Forward.antt =====
-- SeekToFirst and Next against what a reader sees (db/db_iter.cc).
mod Rounds
mod Steps
use Prim.Native.Nat.{Ordering}
use pebblesdb.Common.{
  ℕ, zero, suc, ◌+◌, ◌≤◌, ◌≡◌, ◌≢◌, ◌⊎◌, inl, inr, refl, sym, subst, ap, ◌∙◌, Bool, true, false,
  ◌&&◌, not, Option, none, some, List, [], ◌∷◌, ◌++◌, map, Bytes, leb, if◌then◌else◌, length, All,
  arith,
}
use pebblesdb.Comparator.{Comparator, IsOrder, is_lt, reverse_order}
use pebblesdb.Dbformat.{
  ValueType, deletion, value, guard, ParsedInternalKey, parse_internal_key, extract_user_key,
}
use pebblesdb.Dbformat.Keys.{parse_internal_key-user_key}
use pebblesdb.DbIter.{
  DbIter, Entry, Cursor, off, at, Direction, forward, reverse, is_le, Look, shown, passed,
  look_parsed, look, look_from, look_type, find_next_user_entry, find_next_from, next, next_reverse,
  enter, shows, seek_to_first, cursor_first, next_forward, parse_key,
}
use pebblesdb.DbIter.Newest.{
  user_key_of, is_eq, is_value, type_parsed, type_at, same_key, newest_at, newest, NotBelow,
  IsOrdered,
}
use Steps.{find_next_shown, find_next_last, find_next_passed}
use Rounds.{Agrees, NotBelowLast, round_on, refl_key}

module _ (user : Comparator) (sequence : ℕ) where
  abbrev and_then : Option (Bytes × Bytes) → List (Bytes × Bytes) → List (Bytes × Bytes)
  and_then none rest = []
  and_then (some kv) rest = kv ∷ rest

  -- Reading an iterator out with Next, at most `fuel` entries.
  unfoldable pub read_forward : ℕ → DbIter → List (Bytes × Bytes)
  read_forward zero d = []
  read_forward (suc fuel) d =
      and_then (shows user sequence d) (read_forward fuel (next user sequence d))

module _ (user : Comparator) (sequence : ℕ) (order : IsOrder user.compare) where
  -- The iterator shows the entries `vs`, one Next after the other.
  abbrev pub Yields : DbIter → List Entry → Type 0
  Yields d [] = d.valid ≡ false
  Yields d (v ∷ vs) =
      (left : List Entry) × (right : List Entry) × (d.iter ≡ at left v right)
      × (d.valid ≡ true)
      × (d.direction ≡ forward)
      × IsOrdered user sequence (v ∷ right)
      × (newest user sequence (some (user_key_of v)) right ≡ vs)

  Yields-subst :
      (d d' : DbIter) (vs vs' : List Entry) → d ≡ d' → vs ≡ vs' → Yields d' vs' → Yields d vs
  Yields-subst d d' vs vs' hd hv y =
      subst (λ vs. Yields d vs) (sym hv) (subst (λ d. Yields d vs') (sym hd) y)

  -- FindNextUserEntry yields the newest readable values of the entries from the cursor on.
  pub find_next-Yields :
      (right : List Entry) (left : List Entry) (e : Entry) (skipping : Bool) (d : DbIter)
      (previous : Option Bytes)
      → Agrees user sequence skipping d.saved_key previous
      → NotBelowLast user sequence previous (e ∷ right)
      → IsOrdered user sequence (e ∷ right)
      → d.direction ≡ forward
      → Yields
          (find_next_user_entry user sequence left e right skipping d)
          (newest user sequence previous (e ∷ right))
  unfolding newest
  find_next-Yields [] left e skipping d previous agrees last ordered dir =
      elim (round_on user sequence order skipping d previous e [] (parse_internal_key e.key)
        (parse_internal_key-user_key e.key) agrees last tt) [
          | inl (l, n) ↦
              Yields-subst _ _ _ _ (find_next_shown user sequence [] left e skipping d l) n
                (left, [], refl, refl, dir, ordered, refl)
          | inr (skipping', d', none, l, dir', agrees', last', n) ↦
              Yields-subst _ _ _ _ (find_next_last user sequence left e skipping skipping' d d' l) n
                refl
          | inr (skipping', d', some k, l, dir', agrees', last', n) ↦
              Yields-subst _ _ _ _ (find_next_last user sequence left e skipping skipping' d d' l) n
                refl
        ]
  find_next-Yields (r ∷ right) left e skipping d previous agrees last ordered dir =
      elim (round_on user sequence order skipping d previous e (r ∷ right)
        (parse_internal_key e.key) (parse_internal_key-user_key e.key) agrees last ordered.0) [
          | inl (l, n) ↦
              Yields-subst _ _ _ _ (find_next_shown user sequence (r ∷ right) left e skipping d l) n
                (left, r ∷ right, refl, refl, dir, ordered, refl)
          | inr (skipping', d', previous', l, dir', agrees', last', n) ↦
              Yields-subst _ _ _ _
                (find_next_passed user sequence left e r right skipping skipping' d d' l) n
                (find_next-Yields right (e ∷ left) r skipping' d' previous' agrees' last' ordered.1
                  (dir' ∙ dir))
        ]

  -- The current entry hides itself and what follows with its key.
  newest-current :
      (v : Entry) (right : List Entry)
      → newest user sequence (some (user_key_of v)) (v ∷ right)
        ≡ newest user sequence (some (user_key_of v)) right
  unfolding newest
  newest-current v right = by_type (type_at user sequence v)
    where
      by_type :
          (t : Option ValueType)
          → newest_at user sequence t
              (some (user_key_of v))
              v
              (newest user sequence (some (user_key_of v)) right)
              (newest user sequence (some (user_key_of v)) right)
            ≡ newest user sequence (some (user_key_of v)) right
      by_type none = refl
      by_type (some deletion) = refl
      by_type (some value) = rw (refl_key user sequence order (user_key_of v)) refl
      by_type (some guard) = refl

  next-forward :
      (d : DbIter) (left : List Entry) (v : Entry) (right : List Entry)
      → d.direction ≡ forward
      → d.iter ≡ at left v right
      → next user sequence d
        ≡ find_next_user_entry user sequence left v right true
            (record d { saved_key = user_key_of v })
  unfolding next
  next-forward d left v right dir place =
      ap
        (λ x. elim x [
          | reverse ↦ next_reverse user sequence (enter user sequence d.entries d.iter) d
          | forward ↦ next_forward user sequence d.iter d
        ])
        dir
      ∙ ap (λ c. next_forward user sequence c d) place

  next-Yields :
      (d : DbIter) (v : Entry) (vs : List Entry)
      → Yields d (v ∷ vs)
      → Yields (next user sequence d) vs
  next-Yields d v vs (left, right, place, valid, dir, ordered, rest) =
      let same = refl_key user sequence order (user_key_of v) in
      Yields-subst _ _ _ _ (next-forward d left v right dir place)
        (sym (newest-current v right ∙ rest))
        (find_next-Yields right left v true (record d { saved_key = user_key_of v })
          (some (user_key_of v)) same ((λ gt. ground (arith, same, gt)), ordered.0) ordered dir)

  seek_to_first-Yields :
      (d : DbIter)
      → IsOrdered user sequence d.entries
      → Yields (seek_to_first user sequence d) (newest user sequence none d.entries)
  unfolding seek_to_first newest
  seek_to_first-Yields d ordered = by_entries d.entries ordered
    where
      by_entries :
          (es : List Entry)
          → IsOrdered user sequence es
          → Yields
              (find_next_from user sequence
                (cursor_first es)
                false
                (record d { direction = forward; saved_value = [] }))
              (newest user sequence none es)
      by_entries [] h = refl
      by_entries (e ∷ es) h =
          find_next-Yields es [] e false (record d { direction = forward; saved_value = [] }) none
            tt tt h refl

  shows-Yields :
      (d : DbIter) (v : Entry) (vs : List Entry)
      → Yields d (v ∷ vs)
      → shows user sequence d ≡ some (user_key_of v, v.value)
  shows-Yields d v vs (left, right, place, valid, dir, ordered, rest) = rw (valid, dir, place) refl

  shows-nothing : (d : DbIter) → Yields d [] → shows user sequence d ≡ none
  shows-nothing d h = rw h refl

  pub read_forward-Yields :
      (fuel : ℕ) (d : DbIter) (vs : List Entry)
      → Yields d vs
      → length vs ≤ fuel
      → read_forward user sequence fuel d ≡ map (λ v. (user_key_of v, v.value)) vs
  unfolding read_forward
  read_forward-Yields zero d [] y h = refl
  read_forward-Yields zero d (v ∷ vs) y h = absurd (omega arith)
  read_forward-Yields (suc fuel) d [] y h =
      ap (λ o. and_then user sequence o (read_forward user sequence fuel (next user sequence d)))
        (shows-nothing d y)
  read_forward-Yields (suc fuel) d (v ∷ vs) y h =
      ap (λ o. and_then user sequence o (read_forward user sequence fuel (next user sequence d)))
        (shows-Yields d v vs y)
      ∙ ap (λ rest. (user_key_of v, v.value) ∷ rest)
          (read_forward-Yields fuel (next user sequence d) vs (next-Yields d v vs y) (omega arith))

  length-newest_at :
      (t : Option ValueType) (previous : Option Bytes) (e : Entry) (skipped kept : List Entry)
      (n : ℕ)
      → length skipped ≤ n
      → length kept ≤ n
      → length (newest_at user sequence t previous e skipped kept) ≤ suc n
  length-newest_at none previous e skipped kept n h h' = omega arith
  length-newest_at (some t) previous e skipped kept n h h' =
      by_test (is_value t && not (same_key user sequence previous (user_key_of e)))
    where
      by_test : (b : Bool) → length (if b then e ∷ kept else kept) ≤ suc n
      by_test true = omega arith
      by_test false = omega arith

  pub length-newest :
      (previous : Option Bytes) (es : List Entry)
      → length (newest user sequence previous es) ≤ length es
  unfolding newest
  length-newest previous [] = omega arith
  length-newest previous (e ∷ es) =
      length-newest_at (type_at user sequence e) previous e _ _ (length es)
        (length-newest previous es) (length-newest (some (user_key_of e)) es)

  -- SeekToFirst, and then Next as long as the iterator is valid, shows exactly the newest readable
  -- values, in order, when the internal iterator is ordered by user key and the user comparator is
  -- a total order; as many rounds as there are entries are enough.
  pub read_forward-seek_to_first :
      (d : DbIter) (fuel : ℕ)
      → IsOrdered user sequence d.entries
      → length d.entries ≤ fuel
      → read_forward user sequence fuel (seek_to_first user sequence d)
        ≡ map (λ v. (user_key_of v, v.value)) (newest user sequence none d.entries)
  read_forward-seek_to_first d fuel ordered enough =
      read_forward-Yields fuel (seek_to_first user sequence d) (newest user sequence none d.entries)
        (seek_to_first-Yields d ordered) (omega (arith, length-newest none d.entries))
