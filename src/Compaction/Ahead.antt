-- ===== src/Compaction/Ahead.antt =====
-- How one round of a compaction changes what is known of the entries to come (db/db_impl.cc).
use Prim.Native.Nat.{Ordering}
use pebblesdb.Common.{
  ℕ, ◌<◌, ◌≤◌, ◌≡◌, ◌≢◌, sym, ◌∙◌, true, false, Option, some, Bytes, arith, leb, inl, inr, ◌⊎◌,
  Bool-cases, leb→le, le→leb,
}
use pebblesdb.Comparator.{Comparator, IsOrder}
use pebblesdb.DbIter.{Entry}
use pebblesdb.DbIter.Newest.{user_key_of}
use pebblesdb.Compaction.Future.{
  sequence_of, Future, Future-other, Future-same, dropped-Future, read-Future, unread-Future,
}
use pebblesdb.Compaction.KeyOrder.{same, NotAbove, next_key, next_key-same, other-key, new-key}

module _ (user : Comparator) (order : IsOrder user.compare) (sequence smallest : ℕ) where
  -- What is known of the entries to come.
  abbrev pub FutureAt : Option Bytes → ℕ → Option Bytes → Option Bytes → Entry → Type 0
  FutureAt current last p p' y =
      Future smallest (same user order sequence current (user_key_of y)) (leb last smallest)
        (same user order sequence p (user_key_of y)) (same user order sequence p' (user_key_of y))
        (sequence_of y)

  module _ (current : Option Bytes) (last : ℕ) (p p' : Option Bytes) (e : Entry)
      (le : NotAbove user order sequence current (user_key_of e)) where
    abbrev pub u : Bytes
    u = user_key_of e

    -- An entry behind `e`, with what the order says of it.
    unfoldable pub Behind : Entry → Type 0
    Behind y =
        (user.compare u (user_key_of y) ≢ Ordering.gt)
        × (same user order sequence (some u) (user_key_of y) ≡ true → sequence_of y ≤ sequence_of e)

    pub dropped-at :
        sequence_of e ≤ smallest
        → (y : Entry) → Behind y
        → FutureAt current last p p' y
        → FutureAt (next_key user order sequence current u) (sequence_of e) (some u) p' y
    unfolding Behind
    dropped-at low y behind f =
        rw
          (
            next_key-same user order sequence current u (user_key_of y),
            le→leb (sequence_of e) smallest low,
          )
          (dropped-Future smallest (same user order sequence (some u) (user_key_of y))
            (same user order sequence p' (user_key_of y)) (sequence_of y)
            (λ other.
              (Future-other smallest _ _ _ _ _ f
                (other-key user order sequence current u (user_key_of y) le behind.0 other)).1)
            (λ eq. omega (arith, low, behind.1 eq)))

    pub read-at :
        (y : Entry)
        → Behind y
        → FutureAt (next_key user order sequence current u) (sequence_of e) (some u) (some u) y
    unfolding Behind
    read-at y behind = rw (next_key-same user order sequence current u (user_key_of y)) (
        read-Future smallest (same user order sequence (some u) (user_key_of y))
          (leb (sequence_of e) smallest) (sequence_of y)
          (λ eq low. omega (arith, leb→le (sequence_of e) smallest low, behind.1 eq)))

    pub unread-at :
        smallest < sequence_of e
        → (same user order sequence current u ≡ true → leb last smallest ≡ false)
        → (y : Entry) → Behind y
        → FutureAt current last p p' y
        → FutureAt (next_key user order sequence current u) (sequence_of e) p p' y
    unfolding Behind
    unread-at high shown y behind f =
        rw (next_key-same user order sequence current u (user_key_of y), above)
          (unread-Future smallest (same user order sequence (some u) (user_key_of y)) _ _
            (sequence_of y)
            (λ other.
              Future-other smallest _ _ _ _ _ f
                (other-key user order sequence current u (user_key_of y) le behind.0 other))
            (Future-same smallest _ _ _ _ _ f
              (λ now. still (Bool-cases (same user order sequence current u)) now)))
      where
        above : leb (sequence_of e) smallest ≡ false
        above = ground (arith, high)

        still :
            ((same user order sequence current u ≡ true)
              ⊎ (same user order sequence current u ≡ false))
            → same user order sequence current (user_key_of y) ≡ true
            → leb last smallest ≡ false
        still (inl eq) now = shown eq
        still (inr differs) now =
            let bad : true ≡ false =
              sym now ∙ new-key user order sequence current u (user_key_of y) le behind.0 differs in
            cc
