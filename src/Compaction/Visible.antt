-- ===== src/Compaction/Visible.antt =====
-- What readers see of the entries that a compaction keeps (db/db_impl.cc).
use pebblesdb.Common.{
  ℕ, ◌<◌, ◌≤◌, ◌≡◌, refl, ap, ◌∙◌, Bool, true, false, Option, none, some, List, [], ◌∷◌, Bytes, All,
  All-zip, if◌then◌else◌,
}
use pebblesdb.Comparator.{Comparator, IsOrder}
use pebblesdb.Dbformat.{max_sequence_number}
use pebblesdb.DbIter.{Entry}
use pebblesdb.DbIter.Newest.{user_key_of, same_key, newest, NotBelow}
use pebblesdb.Compaction.{Levels, Locals, first_locals, keep_if, kept}
use pebblesdb.Compaction.Future.{sequence_of, IsParsed, IsInternal}
use pebblesdb.Compaction.KeyOrder.{same, Reached, NotAbove, next_key}
use pebblesdb.Compaction.Ahead.{FutureAt, Behind}
use pebblesdb.Compaction.Sees.{sees, sees-nil}
use pebblesdb.Compaction.Step.{after, round-eq-after, step}

module _ (user : Comparator) (order : IsOrder user.compare) (sequence smallest cutoff : ℕ)
    (readable : smallest ≤ sequence) (below : smallest < max_sequence_number) where
  All-Behind :
      (current : Option Bytes) (last : ℕ) (p p' : Option Bytes) (e : Entry)
      (le : NotAbove user order sequence current (user_key_of e)) (es : List Entry)
      → NotBelow user sequence (user_key_of e) es
      → All
          (λ y.
            same_key user sequence (some (user_key_of e)) (user_key_of y) ≡ true
            → sequence_of y ≤ sequence_of e)
          es
      → All (Behind user order sequence smallest current last p p' e le) es
  unfolding Behind same
  All-Behind current last p p' e le es h h' = All-zip _ _ _ (λ y a b. (a, b)) es h h'

  Reached-at :
      (current : Option Bytes) (e : Entry) (es : List Entry)
      → Reached user order sequence current (e ∷ es)
      → NotAbove user order sequence current (user_key_of e)
        × Reached user order sequence current es
  unfolding NotAbove
  Reached-at none e es r = (tt, tt)
  Reached-at (some k) e es r = (r.0, r.1)

  next-Reached :
      (current : Option Bytes) (k : Bytes) (es : List Entry)
      → Reached user order sequence current es
      → NotBelow user sequence k es
      → Reached user order sequence (next_key user order sequence current k) es
  next-Reached current k es r below = by_case (same user order sequence current k)
    where
      by_case : (b : Bool) → Reached user order sequence (if b then current else some k) es
      by_case true = r
      by_case false = below

  sees-kept :
      (es : List Entry) (l : Locals) (p p' : Option Bytes)
      → All IsParsed es
      → IsInternal user sequence es
      → All (FutureAt user order sequence smallest l.current_key l.last_sequence_for_key p p') es
      → Reached user order sequence l.current_key es
      → sees user order sequence p' (kept user smallest cutoff l es) ≡ sees user order sequence p es
  unfolding kept
  sees-kept [] l p p' parsed sorted future reached = sees-nil user order sequence p p'
  sees-kept (e ∷ es) l p p' parsed sorted future reached =
      let (ikey, ok_) = parsed.0 in
      let (le, reached') = Reached-at l.current_key e es reached in
      ap
        (λ r.
          sees user order sequence p'
            (keep_if user smallest cutoff (λ l'. kept user smallest cutoff l' es) e r))
        (round-eq-after user order sequence smallest cutoff readable below l e ikey ok_)
      ∙ step user order sequence smallest cutoff readable below l p p' e es ikey ok_ le
          (All-Behind l.current_key l.last_sequence_for_key p p' e le es sorted.0 sorted.1) future.0
          future.1
          (λ q q' f.
            sees-kept es (after user order sequence smallest cutoff readable below l e ikey).1 q q'
              parsed.1 sorted.2 f (next-Reached l.current_key (user_key_of e) es reached' sorted.0))

  no-Future :
      (n : ℕ) (es : List Entry) → All (FutureAt user order sequence smallest none n none none) es
  unfolding same
  no-Future n [] = tt
  no-Future n (e ∷ es) = ((refl, refl), no-Future n es)

  -- A reader at a sequence number from the oldest snapshot on sees of the entries that the loop keeps
  -- what it sees of all entries of the compaction: for each user key the same newest entry, if that is
  -- a value. Every key is well formed, and the entries are in the order of the internal keys.
  pub newest-kept :
      (levels : Levels) (es : List Entry)
      → All IsParsed es
      → IsInternal user sequence es
      → newest user sequence none (kept user smallest cutoff (first_locals levels) es)
        ≡ newest user sequence none es
  unfolding sees
  newest-kept levels es parsed sorted =
      sees-kept es (first_locals levels) none none parsed sorted (no-Future max_sequence_number es)
        tt
