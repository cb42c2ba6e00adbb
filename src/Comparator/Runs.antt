-- ===== src/Comparator/Runs.antt =====
-- Concrete runs, and the theorems at concrete inputs.
use Prim.Native.Nat.{Ordering}
use pebblesdb.Common.{◌≡◌, refl, [], ◌∷◌}
use pebblesdb.Comparator.{
  slice_compare, memcmp, find_shortest_separator, find_short_successor, key_num,
}

compare_prefix : slice_compare (1 ∷ 2 ∷ []) (1 ∷ 2 ∷ 0 ∷ []) ≡ Ordering.lt
unfolding slice_compare memcmp
compare_prefix = refl

separator_shortens : find_shortest_separator (5 ∷ 10 ∷ 7 ∷ 7 ∷ []) (5 ∷ 20 ∷ []) ≡ 5 ∷ 11 ∷ []
unfolding find_shortest_separator
separator_shortens = refl

-- Neighbouring bytes leave no room, so nothing is shortened.
separator_tight : find_shortest_separator (5 ∷ 10 ∷ 7 ∷ []) (5 ∷ 11 ∷ []) ≡ 5 ∷ 10 ∷ 7 ∷ []
unfolding find_shortest_separator
separator_tight = refl

successor_skips : find_short_successor (255 ∷ 255 ∷ 3 ∷ 9 ∷ []) ≡ 255 ∷ 255 ∷ 4 ∷ []
unfolding find_short_successor
successor_skips = refl

key_num_short : key_num (1 ∷ 2 ∷ []) ≡ 0x0102_0000_0000_0000
unfolding key_num
key_num_short = refl
