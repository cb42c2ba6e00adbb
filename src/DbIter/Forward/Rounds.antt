-- ===== src/DbIter/Forward/Rounds.antt =====
-- One round of the loop of FindNextUserEntry against what a reader sees.
use Prim.Native.Nat.{Ordering}
use pebblesdb.Common.{
  ℕ, ◌≡◌, ◌≢◌, ◌⊎◌, inl, inr, refl, sym, subst, ◌∙◌, Bool, true, false, ◌&&◌, Option, none, some,
  List, ◌∷◌, Bytes, leb, if◌then◌else◌,
}
use pebblesdb.Comparator.{Comparator, IsOrder, reverse_order}
use pebblesdb.Dbformat.{ValueType, deletion, value, guard, ParsedInternalKey}
use pebblesdb.DbIter.{DbIter, Entry, Direction, is_le, Look, shown, passed, look_from, look_type}
use pebblesdb.DbIter.Newest.{user_key_of, is_eq, type_parsed, same_key, newest_at, newest, NotBelow}

module _ (user : Comparator) (sequence : ℕ) where
  -- What FindNextUserEntry skips, against the user key that was met last.
  abbrev pub Agrees : Bool → Bytes → Option Bytes → Type 0
  Agrees false saved none = Unit
  Agrees false saved (some k) = ⊥
  Agrees true saved none = ⊥
  Agrees true saved (some k) = user.compare saved k ≡ Ordering.eq

  abbrev pub NotBelowLast : Option Bytes → List Entry → Type 0
  NotBelowLast none es = Unit
  NotBelowLast (some k) es = NotBelow user sequence k es

  module _ (order : IsOrder user.compare) where
    -- The test of FindNextUserEntry asks whether the key was met last.
    skips-same_key :
        (skipping : Bool) (saved : Bytes) (previous : Option Bytes) (e : Entry) (es : List Entry)
        → Agrees skipping saved previous
        → NotBelowLast previous (e ∷ es)
        → (skipping && is_le (user.compare (user_key_of e) saved))
          ≡ same_key user sequence previous (user_key_of e)
    skips-same_key false saved none e es agrees last = refl
    skips-same_key false saved (some k) e es agrees last = absurd agrees
    skips-same_key true saved none e es agrees last = absurd agrees
    skips-same_key true saved (some k) e es agrees last =
        rw (order.flip saved (user_key_of e), order.eq_left saved k (user_key_of e) agrees)
          (by_order (user.compare k (user_key_of e)) last.0)
      where
        by_order : (o : Ordering) → o ≢ Ordering.gt → is_le (reverse_order o) ≡ is_eq o
        by_order Ordering.lt h = refl
        by_order Ordering.eq h = refl
        by_order Ordering.gt h = absurd (h refl)

    pub refl_key : (k : Bytes) → user.compare k k ≡ Ordering.eq
    refl_key k = by_order (user.compare k k) (order.flip k k)
      where
        by_order : (o : Ordering) → o ≡ reverse_order o → o ≡ Ordering.eq
        by_order Ordering.lt h = cc
        by_order Ordering.eq h = refl
        by_order Ordering.gt h = cc

    -- The two ends of a round that looks at `e`, in front of `es`, and reads the type `t`.
    abbrev pub IsShown : Look → Option ValueType → Option Bytes → Entry → List Entry → Type 0
    IsShown l t previous e es =
        (l ≡ shown)
        × (newest_at user sequence t previous e (newest user sequence previous es)
              (newest user sequence (some (user_key_of e)) es)
            ≡ e ∷ newest user sequence (some (user_key_of e)) es)

    abbrev pub IsPassed :
        Look → Option ValueType → Option Bytes → Entry → List Entry → Direction → Type 0
    IsPassed l t previous e es dir =
        (skipping' : Bool) × (d' : DbIter) × (previous' : Option Bytes) × (l ≡ passed skipping' d')
        × (d'.direction ≡ dir)
        × Agrees skipping' d'.saved_key previous'
        × NotBelowLast previous' es
        × (newest_at user sequence t previous e (newest user sequence previous es)
              (newest user sequence (some (user_key_of e)) es)
            ≡ newest user sequence previous' es)

    abbrev pub Round :
        Look → Option ValueType → Option Bytes → Entry → List Entry → Direction → Type 0
    Round l t previous e es dir = IsShown l t previous e es ⊎ IsPassed l t previous e es dir

    NotBelowLast-tail :
        (previous : Option Bytes) (e : Entry) (es : List Entry)
        → NotBelowLast previous (e ∷ es)
        → NotBelowLast previous es
    NotBelowLast-tail none e es h = tt
    NotBelowLast-tail (some k) e es h = h.1

    -- A hidden value leaves the skipped key, which compares equal to its own.
    Agrees-same_key :
        (skipping : Bool) (saved : Bytes) (previous : Option Bytes) (u : Bytes)
        → Agrees skipping saved previous
        → same_key user sequence previous u ≡ true
        → Agrees skipping saved (some u)
    Agrees-same_key false saved none u agrees same = cc
    Agrees-same_key false saved (some k) u agrees same = absurd agrees
    Agrees-same_key true saved none u agrees same = absurd agrees
    Agrees-same_key true saved (some k) u agrees same =
        order.eq_left saved k u agrees ∙ eq_of (user.compare k u) same
      where
        eq_of : (o : Ordering) → is_eq o ≡ true → o ≡ Ordering.eq
        eq_of Ordering.lt h = cc
        eq_of Ordering.eq h = refl
        eq_of Ordering.gt h = cc

    module _ (skipping : Bool) (d : DbIter) (previous : Option Bytes) (e : Entry)
        (es : List Entry) where
      round_type :
          (t : ValueType) (hidden : Bool)
          → t ≢ guard
          → hidden ≡ same_key user sequence previous (user_key_of e)
          → Agrees skipping d.saved_key previous
          → NotBelow user sequence (user_key_of e) es
          → Round (look_type t hidden (user_key_of e) skipping d) (some t) previous e es d.direction
      round_type deletion hidden no_guard same agrees ordered = inr (
        true,
        record d { saved_key = user_key_of e },
        some (user_key_of e),
        refl,
        refl,
        refl_key (user_key_of e),
        ordered,
        refl,
      )
      round_type value true no_guard same agrees ordered = inr (
        skipping,
        d,
        some (user_key_of e),
        refl,
        refl,
        Agrees-same_key skipping d.saved_key previous (user_key_of e) agrees (sym same),
        ordered,
        rw (← same) refl,
      )
      round_type value false no_guard same agrees ordered = inl (refl, rw (← same) refl)
      round_type guard hidden no_guard same agrees ordered = absurd (no_guard refl)

      pub round_on :
          (o : Option ParsedInternalKey)
          → ((p : ParsedInternalKey) → o ≡ some p → (p.user_key ≡ user_key_of e) × (p.type ≢ guard))
          → Agrees skipping d.saved_key previous
          → NotBelowLast previous (e ∷ es)
          → NotBelow user sequence (user_key_of e) es
          → Round
              (look_from user sequence o skipping d)
              (type_parsed user sequence o)
              previous
              e
              es
              d.direction
      round_on none reads agrees last ordered =
          inr
            (skipping, _, previous, refl, refl, agrees, NotBelowLast-tail previous e es last, refl)
      round_on (some p) reads agrees last ordered = split (leb p.sequence sequence)
        where
          split :
              (b : Bool)
              → Round
                  (if b
                    then look_type p.type
                        (skipping && is_le (user.compare p.user_key d.saved_key))
                        p.user_key
                        skipping
                        d
                    else passed skipping d)
                  (if b then some p.type else none)
                  previous
                  e
                  es
                  d.direction
          split true =
              subst
                (λ u.
                  Round
                    (look_type p.type (skipping && is_le (user.compare u d.saved_key)) u skipping d)
                    (some p.type) previous e es d.direction)
                (sym (reads p refl).0)
                (round_type p.type _ (reads p refl).1
                  (skips-same_key skipping d.saved_key previous e es agrees last) agrees ordered)
          split false = inr (
            skipping,
            d,
            previous,
            refl,
            refl,
            agrees,
            NotBelowLast-tail previous e es last,
            refl,
          )
