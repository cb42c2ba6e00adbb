-- ===== src/Block/Ending.antt =====
-- The loops of Block::Iter end on any block (table/block.cc).
use pebblesdb.Common.{
  ℕ, zero, suc, ◌+◌, ◌-◌, ◌/◌, ◌^◌, ◌<◌, ◌≤◌, ◌≡◌, ◌≢◌, refl, Bool, true, false, Option, none, some,
  Bytes, arith, ltb, if◌then◌else◌,
}
use pebblesdb.Block.Iter.{Iter, parse_next_key, seek_to_restart_point, next_entry_offset}
use pebblesdb.Comparator.{Comparator}
use pebblesdb.Block.Moves.{
  scan_turn, scan_while, prev_from, restart_before, prev, seek_to_last, Found, out_of_fuel,
  corrupted, found, halve, restart_below, search_restarts, seek_from, seek,
}
use pebblesdb.Block.Progress.{Progress, parse_next_key-Progress}

scan_turn-ne-none :
    (it : Iter) (next : Iter → Option Iter) (test : Iter → Bool) (r : Bool × Iter)
    → Progress it r
    → ((it' : Iter) → Progress it (true, it') → next it' ≢ none)
    → scan_turn next test r ≢ none
scan_turn-ne-none it next test (false, it') p later = λ e. cc
scan_turn-ne-none it next test (true, it') p later = by_test (test it')
  where
    by_test : (b : Bool) → (if b then next it' else some it') ≢ none
    by_test true = later it' p
    by_test false = λ e. cc

-- A loop of ParseNextKey ends on any block of less than 4 GiB, whatever its bytes and whatever the
-- test: as many rounds as there are bytes in front of the restart array, and one, are enough.
pub scan_while-ne-none :
    (fuel : ℕ) (test : Iter → Bool) (it : Iter)
    → it.restarts < 2 ^ 32
    → it.restarts - next_entry_offset it < fuel
    → scan_while fuel test it ≢ none
unfolding scan_while
scan_while-ne-none zero test it small enough = absurd (omega arith)
scan_while-ne-none (suc fuel) test it small enough =
    scan_turn-ne-none it (scan_while fuel test) test (parse_next_key it)
      (parse_next_key-Progress it small)
      (λ it' p. scan_while-ne-none fuel test it' (omega (arith, p)) (omega (arith, p)))

scan_from_restart :
    (fuel index : ℕ) (test : Iter → Bool) (it : Iter)
    → it.restarts < 2 ^ 32
    → it.restarts < fuel
    → scan_while fuel test (seek_to_restart_point index it) ≢ none
unfolding seek_to_restart_point
scan_from_restart fuel index test it small enough =
    scan_while-ne-none fuel test (seek_to_restart_point index it) small (omega arith)

prev_from-ne-none :
    (fuel : ℕ) (it : Iter) (original : ℕ) (o : Option ℕ)
    → it.restarts < 2 ^ 32
    → it.restarts < fuel
    → prev_from fuel original it o ≢ none
prev_from-ne-none fuel it original none small enough = λ e. cc
prev_from-ne-none fuel it original (some index) small enough =
    scan_from_restart fuel index _ it small enough

module _ (comparator : Comparator) where
  -- A round of the binary search leaves at most half of the restart points.
  search_restarts-ends :
      (fuel : ℕ) (it : Iter) (target : Bytes) (left right : ℕ)
      → right - left < fuel
      → search_restarts comparator fuel it target left right ≢ out_of_fuel
  unfolding search_restarts
  search_restarts-ends zero it target left right enough = absurd (omega arith)
  search_restarts-ends (suc fuel) it target left right enough =
      by_case (ltb left right) refl (restart_below comparator it target mid)
        (search_restarts-ends fuel it target mid right)
        (search_restarts-ends fuel it target left (mid - 1))
    where
      mid : ℕ
      mid = (left + right + 1) / 2

      by_case :
          (b : Bool)
          → ltb left right ≡ b
          → (below : Option Bool)
          → (right - mid < fuel → search_restarts comparator fuel it target mid right ≢ out_of_fuel)
          → (mid - 1 - left < fuel
              → search_restarts comparator fuel it target left (mid - 1) ≢ out_of_fuel)
          → (if b
              then halve comparator (search_restarts comparator fuel it target) left right mid below
              else found left)
            ≢ out_of_fuel
      by_case false e below lower upper = λ e'. cc
      by_case true e none lower upper = λ e'. cc
      by_case true e (some true) lower upper = lower (ground arith)
      by_case true e (some false) lower upper = upper (ground arith)

  seek_from-ne-none :
      (fuel : ℕ) (it : Iter) (target : Bytes) (f : Found comparator)
      → it.restarts < 2 ^ 32
      → it.restarts < fuel
      → f ≢ out_of_fuel
      → seek_from comparator fuel it target f ≢ none
  seek_from-ne-none fuel it target out_of_fuel small enough ends = absurd (ends refl)
  seek_from-ne-none fuel it target corrupted small enough ends = λ e. cc
  seek_from-ne-none fuel it target (found left) small enough ends =
      scan_from_restart fuel left _ it small enough

  -- On any block of less than 4 GiB, whatever its bytes, Prev, SeekToLast and Seek end: more rounds
  -- than there are bytes in front of the restart array are enough, and for the binary search of
  -- Seek at least as many as there are restart points.
  pub moves-ne-none :
      (fuel : ℕ) (it : Iter) (target : Bytes)
      → it.restarts < 2 ^ 32
      → it.restarts < fuel
      → it.num_restarts ≤ fuel
      → (prev fuel it ≢ none)
        × (seek_to_last fuel it ≢ none)
        × (seek comparator fuel target it ≢ none)
  unfolding prev seek_to_last seek
  moves-ne-none fuel it target small enough few = (
    prev_from-ne-none fuel it it.current (restart_before it it.current it.restart_index) small
        enough,
    scan_from_restart fuel (it.num_restarts - 1) _ it small enough,
    seek_from-ne-none fuel it target _ small enough
        (search_restarts-ends fuel it target 0 (it.num_restarts - 1) (omega arith)),
  )
