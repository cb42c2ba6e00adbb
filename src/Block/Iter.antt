-- ===== src/Block/Iter.antt =====
-- table/block.cc: Block::Iter.
use pebblesdb.Common.{
  ℕ, zero, suc, ◌+◌, ◌-◌, ◌*◌, ◌%◌, ◌^◌, Bool, true, false, ◌&&◌, Option, none, some, [], ◌++◌,
  Bytes, bit_or, ltb, leb, ◌==◌, if◌then◌else◌, ◌>>=◌, length, get_or, take, drop,
}
use pebblesdb.Coding.{decode_fixed32, get_varint32_ptr}
use pebblesdb.Block.{Block, num_restarts_of}
use pebblesdb.Status.{Status, ok, corruption}

-- The three lengths of DecodeEntry, when one of them takes more than a byte.
unfoldable pub decode_slow : Bytes → Option (ℕ × ℕ × ℕ × Bytes)
decode_slow p = do
  (shared, p1) ← get_varint32_ptr p
  (non_shared, p2) ← get_varint32_ptr p1
  (value_length, p3) ← get_varint32_ptr p2
  some (shared, non_shared, value_length, p3)

-- DecodeEntry on the bytes from `p` to `limit`: the lengths of the shared and the other key bytes and
-- of the value, and the bytes from the key delta on.
abbrev pub decode_lengths : Bytes → Option (ℕ × ℕ × ℕ × Bytes)
decode_lengths p =
    if ltb (bit_or (bit_or (get_or p 0 0) (get_or p 1 0)) (get_or p 2 0)) 128
    then some (get_or p 0 0, get_or p 1 0, get_or p 2 0, drop 3 p)
    else decode_slow p

-- The test that the key delta and the value lie before the limit; the sum is of 32 bits.
abbrev pub in_limit : ℕ × ℕ × ℕ × Bytes → Option (ℕ × ℕ × ℕ × Bytes)
in_limit (shared, non_shared, value_length, p) =
    if ltb (length p % 2 ^ 32) ((non_shared + value_length) % 2 ^ 32)
    then none
    else some (shared, non_shared, value_length, p)

unfoldable pub decode_entry : Bytes → Option (ℕ × ℕ × ℕ × Bytes)
decode_entry p = if ltb (length p) 3 then none else decode_lengths p >>= in_limit

-- The iterator; `value_` is a slice of the data, given by where it starts and how long it is.
pub record Iter : Type 0 where
  pub block_data : Bytes
  pub restarts : ℕ
  pub num_restarts : ℕ
  pub current : ℕ
  pub restart_index : ℕ
  pub key : Bytes
  pub value_start : ℕ
  pub value_size : ℕ
  pub status : Status

abbrev pub new_iter : Bytes → ℕ → ℕ → Iter
new_iter contents restarts num_restarts = record {
  block_data = contents;
  restarts = restarts;
  num_restarts = num_restarts;
  current = restarts;
  restart_index = num_restarts;
  key = [];
  value_start = 0;
  value_size = 0;
  status = ok;
}

-- Valid
abbrev pub valid : Iter → Bool
valid it = ltb it.current it.restarts

-- value
abbrev pub value : Iter → Bytes
value it = take it.value_size (drop it.value_start it.block_data)

abbrev pub next_entry_offset : Iter → ℕ
next_entry_offset it = (it.value_start + it.value_size) % 2 ^ 32

unfoldable pub get_restart_point : Iter → ℕ → ℕ
get_restart_point it index = decode_fixed32 (drop (it.restarts + index * 4) it.block_data)

unfoldable pub seek_to_restart_point : ℕ → Iter → Iter
seek_to_restart_point index it = record it {
  key = [];
  restart_index = index;
  value_start = get_restart_point it index;
  value_size = 0;
}

-- CorruptionError
abbrev pub corruption_error : Iter → Iter
corruption_error it = record it {
  current = it.restarts;
  restart_index = it.num_restarts;
  status = corruption "bad entry in block";
  key = [];
  value_start = 0;
  value_size = 0;
}

-- No more entries.
abbrev pub to_end : Iter → Iter
to_end it = record it { current = it.restarts; restart_index = it.num_restarts }

-- The loop that advances the restart index, which passes each restart point at most once.
unfoldable pub advance_restarts : ℕ → Iter → Iter
advance_restarts zero it = it
advance_restarts (suc fuel) it =
    let rest = advance_restarts fuel (record it { restart_index = it.restart_index + 1 }) in
    if ltb (it.restart_index + 1) it.num_restarts
      && ltb (get_restart_point it (it.restart_index + 1)) it.current
    then rest
    else it

-- ParseNextKey behind DecodeEntry.
abbrev pub take_entry : Iter → Option (ℕ × ℕ × ℕ × Bytes) → Bool × Iter
take_entry it none = (false, corruption_error it)
take_entry it (some (shared, non_shared, value_length, p)) =
    if ltb (length it.key) shared then (false, corruption_error it) else (
      true,
      advance_restarts it.num_restarts (record it {
        key = take shared it.key ++ take non_shared p;
        value_start = it.restarts - length p + non_shared;
        value_size = value_length;
      }),
    )

-- ParseNextKey
unfoldable pub parse_next_key : Iter → Bool × Iter
parse_next_key it =
    let it' = record it { current = next_entry_offset it } in
    if leb it'.restarts it'.current
    then (false, to_end it')
    else take_entry it' (decode_entry (drop it'.current (take it'.restarts it'.block_data)))

-- Next
unfoldable pub next : Iter → Iter
next it = (parse_next_key it).1

-- SeekToFirst
unfoldable pub seek_to_first : Iter → Iter
seek_to_first it = (parse_next_key (seek_to_restart_point 0 it)).1

-- What NewIterator returns: an error iterator, an empty one or one on the entries.
pub data Opened : Type 0 where
  error_iterator : Status → Opened
  empty_iterator : Opened
  on_entries : Iter → Opened

-- NewIterator
unfoldable pub new_iterator : Block → Opened
new_iterator b =
    if ltb b.size 4
    then error_iterator (corruption "bad block contents")
    else if num_restarts_of b.block_data b.size == 0
    then empty_iterator
    else on_entries (new_iter b.block_data b.restart_offset (num_restarts_of b.block_data b.size))
