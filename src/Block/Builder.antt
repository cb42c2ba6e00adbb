-- ===== src/Block/Builder.antt =====
-- table/block_builder.h and table/block_builder.cc: BlockBuilder.
use pebblesdb.Common.{
  ℕ, ◌+◌, ◌-◌, ◌*◌, ◌%◌, ◌^◌, Bool, true, false, List, [], ◌∷◌, ◌++◌, Bytes, ltb, if◌then◌else◌,
  length, take, drop,
}
use pebblesdb.Coding.{put_varint32, put_fixed32}
use pebblesdb.Comparator.{common_prefix}

pub record BlockBuilder : Type 0 where
  pub buffer : Bytes
  pub restarts : List ℕ
  pub counter : ℕ
  pub finished : Bool
  pub last_key : Bytes

-- The constructor, and Reset.
abbrev pub new_builder : BlockBuilder
new_builder = record {
  buffer = [];
  restarts = 0 ∷ [];
  counter = 0;
  finished = false;
  last_key = [];
}

-- The body of Add behind the choice of `shared`.
unfoldable pub add_shared : ℕ → Bytes → Bytes → BlockBuilder → BlockBuilder
add_shared shared key value b =
    let non_shared = length key - shared in
    let header =
      put_varint32 (put_varint32 (put_varint32 b.buffer (shared % 2 ^ 32)) (non_shared % 2 ^ 32))
        (length value % 2 ^ 32) in
    record b {
      buffer = (header ++ drop shared key) ++ value;
      last_key = take shared b.last_key ++ drop shared key;
      counter = b.counter + 1;
    }

-- Add, for the restart interval of the options. The loop that counts the shared bytes is the one
-- that FindShortestSeparator has.
unfoldable pub add_entry : ℕ → Bytes → Bytes → BlockBuilder → BlockBuilder
add_entry interval key value b =
    if ltb b.counter interval
    then add_shared (common_prefix b.last_key key) key value b
    else add_shared 0 key value
        (record b { restarts = b.restarts ++ length b.buffer % 2 ^ 32 ∷ []; counter = 0 })

abbrev pub put_restarts : Bytes → List ℕ → Bytes
put_restarts buffer [] = buffer
put_restarts buffer (restart ∷ restarts) = put_restarts (put_fixed32 buffer restart) restarts

-- Finish
unfoldable pub finish : BlockBuilder → BlockBuilder
finish b = record b {
  buffer = put_fixed32 (put_restarts b.buffer b.restarts) (length b.restarts % 2 ^ 32);
  finished = true;
}

-- CurrentSizeEstimate
unfoldable pub current_size_estimate : BlockBuilder → ℕ
current_size_estimate b = length b.buffer + length b.restarts * 4 + 4
