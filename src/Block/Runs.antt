-- ===== src/Block/Runs.antt =====
-- Blocks of concrete entries.
use pebblesdb.Common.{◌≡◌, ◌≢◌, none, List, [], ◌∷◌, Bytes, arith}
use pebblesdb.Coding.{encode_fixed32, encode_varint32}
use pebblesdb.Comparator.{bytewise}
use pebblesdb.Block.{new_block}
use pebblesdb.Block.Builder.{new_builder, finish, add_entry, add_shared}
use pebblesdb.Block.Built.{add_all}
use pebblesdb.Block.Iter.{Iter, new_iter, new_iterator, on_entries, seek_to_first}
use pebblesdb.Block.Moves.{prev, seek_to_last, seek}
use pebblesdb.Block.Forward.{read_entries}
use pebblesdb.Block.Ending.{moves-ne-none}
use pebblesdb.Block.RoundTrip.{read_entries-add_all}

abbrev two_entries : List (Bytes × Bytes)
two_entries = (97 ∷ 98 ∷ [], 1 ∷ []) ∷ (97 ∷ 99 ∷ [], 2 ∷ 3 ∷ []) ∷ []

read_entries-add_all_example :
    (it : Iter) × (new_iterator (new_block (finish (add_all 16 two_entries new_builder)).buffer)
      ≡ on_entries it)
    × (read_entries 3 (seek_to_first it) ≡ two_entries)
unfolding finish add_entry add_shared pebblesdb.Coding.put_fixed32 pebblesdb.Coding.put_varint32
    encode_fixed32 encode_varint32 pebblesdb.Comparator.common_prefix
read_entries-add_all_example =
    read_entries-add_all 16 two_entries
      ((omega arith, omega arith), ((omega arith, omega arith), tt)) (omega arith)

-- An iterator on bytes that are no block.
abbrev garbage : Iter
garbage = new_iter (255 ∷ 255 ∷ 255 ∷ 255 ∷ 0 ∷ 0 ∷ 0 ∷ 0 ∷ []) 4 1

moves-ne-none_example :
    (prev 5 garbage ≢ none)
    × (seek_to_last 5 garbage ≢ none)
    × (seek bytewise 5 (97 ∷ []) garbage ≢ none)
moves-ne-none_example =
    moves-ne-none bytewise 5 garbage (97 ∷ []) (omega arith) (omega arith) (omega arith)
