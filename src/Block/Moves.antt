-- ===== src/Block/Moves.antt =====
-- table/block.cc: Block::Iter::Prev, Seek and SeekToLast.
use pebblesdb.Common.{
  ℕ, zero, suc, ◌+◌, ◌-◌, ◌/◌, Bool, true, false, Option, none, some, Bytes, ltb, leb, ◌==◌,
  if◌then◌else◌, take, drop,
}
use pebblesdb.Comparator.{Comparator, is_lt}
use pebblesdb.Block.Iter.{
  Iter, decode_entry, get_restart_point, seek_to_restart_point, parse_next_key, next_entry_offset,
  corruption_error, to_end,
}

-- A loop of ParseNextKey that goes on while an entry was read and the test holds. It has no result when
-- the fuel runs out.
abbrev pub scan_turn : (Iter → Option Iter) → (Iter → Bool) → Bool × Iter → Option Iter
scan_turn next test (false, it) = some it
scan_turn next test (true, it) = if test it then next it else some it

unfoldable pub scan_while : ℕ → (Iter → Bool) → Iter → Option Iter
scan_while zero test it = none
scan_while (suc fuel) test it = scan_turn (scan_while fuel test) test (parse_next_key it)

-- The loop of Prev over the restart points: the last one before `original`, from `index` down.
unfoldable pub restart_before : Iter → ℕ → ℕ → Option ℕ
restart_before it original zero = if leb original (get_restart_point it 0) then none else some 0
restart_before it original (suc index) =
    let rest = restart_before it original index in
    if leb original (get_restart_point it (suc index)) then rest else some (suc index)

abbrev pub prev_from : ℕ → ℕ → Iter → Option ℕ → Option Iter
prev_from fuel original it none = some (to_end it)
prev_from fuel original it (some index) =
    scan_while fuel (λ it'. ltb (next_entry_offset it') original) (seek_to_restart_point index it)

-- Prev
unfoldable pub prev : ℕ → Iter → Option Iter
prev fuel it = prev_from fuel it.current it (restart_before it it.current it.restart_index)

-- SeekToLast
unfoldable pub seek_to_last : ℕ → Iter → Option Iter
seek_to_last fuel it =
    scan_while fuel (λ it'. ltb (next_entry_offset it') it.restarts)
      (seek_to_restart_point (it.num_restarts - 1) it)

module _ (comparator : Comparator) where
  -- Whether the key at a restart point is below the target; none if the entry there is corrupted.
  abbrev pub entry_below : Bytes → Option (ℕ × ℕ × ℕ × Bytes) → Option Bool
  entry_below target none = none
  entry_below target (some (shared, non_shared, value_length, key_ptr)) =
      if shared == 0
      then some (is_lt (comparator.compare (take non_shared key_ptr) target))
      else none

  unfoldable pub restart_below : Iter → Bytes → ℕ → Option Bool
  restart_below it target index =
      entry_below target
        (decode_entry (drop (get_restart_point it index) (take it.restarts it.block_data)))

  -- What the binary search ends with.
  pub data Found : Type 0 where
    out_of_fuel : Found
    corrupted : Found
    found : ℕ → Found

  -- The binary search over the restart points; one round halves `right - left` at least.
  abbrev pub halve : (ℕ → ℕ → Found) → ℕ → ℕ → ℕ → Option Bool → Found
  halve search left right mid none = corrupted
  halve search left right mid (some true) = search mid right
  halve search left right mid (some false) = search left (mid - 1)

  unfoldable pub search_restarts : ℕ → Iter → Bytes → ℕ → ℕ → Found
  search_restarts zero it target left right = out_of_fuel
  search_restarts (suc fuel) it target left right =
      let mid = (left + right + 1) / 2 in
      let rest =
        halve (search_restarts fuel it target) left right mid (restart_below it target mid) in
      if ltb left right then rest else found left

  abbrev pub seek_from : ℕ → Iter → Bytes → Found → Option Iter
  seek_from fuel it target out_of_fuel = none
  seek_from fuel it target corrupted = some (corruption_error it)
  seek_from fuel it target (found left) =
      scan_while fuel (λ it'. is_lt (comparator.compare it'.key target))
        (seek_to_restart_point left it)

  -- Seek
  unfoldable pub seek : ℕ → Bytes → Iter → Option Iter
  seek fuel target it =
      seek_from fuel it target (search_restarts fuel it target 0 (it.num_restarts - 1))
