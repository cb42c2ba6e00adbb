-- ===== src/Comparator/Shorten.antt =====
-- The shortening operations of BytewiseComparatorImpl and what comparator.h documents of them.
use Prim.Native.Nat.{Ordering}
use pebblesdb.Common.{ℕ, ◌+◌, ◌≡◌, ◌≢◌, ◌&&◌, sym, ◌∙◌, [], ◌∷◌, Bytes, arith, ltb, if◌then◌else◌}
use pebblesdb.Comparator.{
  IsShortener, slice_compare, find_shortest_separator, find_short_successor, bytewise,
}
use pebblesdb.Comparator.Bytewise.{
  lexicographic, lexicographic_irrefl, slice_compare-eq-lexicographic,
}

separator_nil_left : (limit : Bytes) → find_shortest_separator [] limit ≡ []
unfolding find_shortest_separator
separator_nil_left limit = ground arith

separator_nil_right : (start : Bytes) → find_shortest_separator start [] ≡ start
unfolding find_shortest_separator
separator_nil_right [] = ground arith
separator_nil_right (a ∷ xs) = ground arith

-- A common first byte is kept.
separator_same :
    (a b : ℕ) (xs ys : Bytes)
    → a ≡ b
    → find_shortest_separator (a ∷ xs) (b ∷ ys) ≡ a ∷ find_shortest_separator xs ys
unfolding find_shortest_separator
separator_same a b xs ys h = ground arith

-- Where the first bytes differ, the first one is incremented if that leaves room.
separator_diff :
    (a b : ℕ) (xs ys : Bytes)
    → a ≢ b
    → find_shortest_separator (a ∷ xs) (b ∷ ys)
      ≡ (if ltb a 255 && ltb (a + 1) b then (a + 1) ∷ [] else a ∷ xs)
unfolding find_shortest_separator
separator_diff a b xs ys h = ground arith

separator_low :
    (start limit : Bytes) → lexicographic (find_shortest_separator start limit) start ≢ Ordering.lt
separator_low [] limit h = cc (separator_nil_left limit)
separator_low (a ∷ xs) [] h =
    ground (arith, separator_nil_right (a ∷ xs), lexicographic_irrefl (a ∷ xs))
separator_low (a ∷ xs) (b ∷ ys) h = ground (
  arith,
  separator_same a b xs ys,
  separator_diff a b xs ys,
  separator_low xs ys,
  lexicographic_irrefl xs,
)

separator_high :
    (start limit : Bytes)
    → lexicographic start limit ≡ Ordering.lt
    → lexicographic (find_shortest_separator start limit) limit ≡ Ordering.lt
separator_high [] limit h = rw (separator_nil_left limit) h
separator_high (a ∷ xs) [] h = cc
separator_high (a ∷ xs) (b ∷ ys) h =
    ground (arith, separator_same a b xs ys, separator_diff a b xs ys, separator_high xs ys)

separator_unchanged_lem :
    (start limit : Bytes)
    → lexicographic start limit ≢ Ordering.lt
    → find_shortest_separator start limit ≡ start
separator_unchanged_lem [] limit h = separator_nil_left limit
separator_unchanged_lem (a ∷ xs) [] h = separator_nil_right (a ∷ xs)
separator_unchanged_lem (a ∷ xs) (b ∷ ys) h =
    ground
      (arith, separator_same a b xs ys, separator_diff a b xs ys, separator_unchanged_lem xs ys)

-- Where `start` is not below `limit` the separator is `start`.
pub separator_unchanged :
    (start limit : Bytes)
    → slice_compare start limit ≢ Ordering.lt
    → find_shortest_separator start limit ≡ start
separator_unchanged start limit h =
    separator_unchanged_lem start limit (λ e. h (slice_compare-eq-lexicographic start limit ∙ e))

successor_low : (key : Bytes) → lexicographic (find_short_successor key) key ≢ Ordering.lt
unfolding find_short_successor
successor_low [] h = cc
successor_low (b ∷ rest) h = ground (arith, successor_low rest)

-- FindShortestSeparator and FindShortSuccessor of the bytewise comparator do what comparator.h
-- promises: for start < limit the separator lies in [start, limit), and the successor of a key is
-- not below it.
pub bytewise-IsShortener : IsShortener bytewise
bytewise-IsShortener = record {
  separator_low = λ start limit h e.
      separator_low start limit
        (sym (slice_compare-eq-lexicographic (find_shortest_separator start limit) start) ∙ e);
  separator_high = λ start limit h.
      slice_compare-eq-lexicographic (find_shortest_separator start limit) limit
      ∙ separator_high start limit (sym (slice_compare-eq-lexicographic start limit) ∙ h);
  successor_low = λ key e.
      successor_low key (sym (slice_compare-eq-lexicographic (find_short_successor key) key) ∙ e);
}
