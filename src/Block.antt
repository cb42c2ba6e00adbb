-- ===== src/Block.antt =====
-- table/block_builder.cc and table/block.cc: blocks of entries whose keys share prefixes.
pub mod Builder
pub mod Iter
pub mod Moves
pub mod Entries
pub mod Layout
pub mod Built
pub mod Pending
pub mod Forward
pub mod RoundTrip
mod Runs
pub mod Progress
pub mod Ending
use pebblesdb.Common.{ℕ, ◌+◌, ◌-◌, ◌*◌, ◌/◌, ◌%◌, ◌^◌, Bytes, ltb, if◌then◌else◌, length, drop}
use pebblesdb.Coding.{decode_fixed32}

-- Block: its data, its size, which is 0 for a block in error, and where the restart array starts.
pub record Block : Type 0 where
  pub block_data : Bytes
  pub size : ℕ
  pub restart_offset : ℕ

-- NumRestarts, of `size` bytes of data.
unfoldable pub num_restarts_of : Bytes → ℕ → ℕ
num_restarts_of contents size = decode_fixed32 (drop (size - 4) contents)

-- The constructor of Block.
unfoldable pub new_block : Bytes → Block
new_block contents =
    let size = length contents in
    if ltb size 4
    then record { block_data = contents; size = 0; restart_offset = 0 }
    else (let max_restarts_allowed = (size - 4) / 4 in
        if ltb max_restarts_allowed (num_restarts_of contents size)
        then record { block_data = contents; size = 0; restart_offset = 0 }
        else record {
          block_data = contents;
          size = size;
          restart_offset = (size - (1 + num_restarts_of contents size) * 4) % 2 ^ 32;
        })
