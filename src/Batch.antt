-- ===== src/Batch.antt =====
-- db/write_batch.cc: a batch is a string with an 8-byte sequence number, a 4-byte count and the
-- records. `Iterate` decodes the records and calls a handler on each.
pub mod Layout
pub mod Iterate
pub mod Ending
pub mod Guards
mod Runs
use pebblesdb.Common.{
  ℕ, zero, suc, ◌+◌, ◌-◌, ◌*◌, ◌/◌, ◌%◌, ◌^◌, ◌<◌, ◌≤◌, bit_and, Bool, Option, none, some, List, [],
  ◌∷◌, ◌++◌, Bytes, arith, ltb, leb, ◌==◌, if◌then◌else◌, ◌>>=◌, length, take, drop, replicate,
}
use pebblesdb.Coding.{
  encode_fixed32, decode_fixed32, encode_fixed64, decode_fixed64, put_length_prefixed_slice,
  put_varint32, get_length_prefixed_slice, get_varint32,
}
use pebblesdb.Dbformat.{num_levels, ValueType, deletion, value, guard, type_code}
use pebblesdb.Status.{Status, ok, corruption}

abbrev pub header_size : ℕ
header_size = 12

-- WriteBatch: its field `rep_`.
pub record WriteBatch : Type 0 where
  pub rep : Bytes

-- WriteBatch::Clear, and the state after the constructor.
unfoldable pub clear : WriteBatch
clear = record { rep = replicate header_size 0 }

-- WriteBatchInternal::Count and SetCount, on a batch of at least twelve bytes.
unfoldable pub count : WriteBatch → ℕ
count b = decode_fixed32 (drop 8 b.rep)

unfoldable pub set_count : WriteBatch → ℕ → WriteBatch
set_count b n = record { rep = take 8 b.rep ++ (encode_fixed32 (n % 2 ^ 32) ++ drop 12 b.rep) }

-- WriteBatchInternal::Sequence and SetSequence.
unfoldable pub sequence : WriteBatch → ℕ
sequence b = decode_fixed64 b.rep

unfoldable pub set_sequence : WriteBatch → ℕ → WriteBatch
set_sequence b seq = record { rep = encode_fixed64 seq ++ drop 8 b.rep }

-- `rep_.push_back(tag)` behind the incremented count.
abbrev begin_record : WriteBatch → ValueType → Bytes
begin_record b t = (set_count b (count b + 1)).rep ++ type_code t ∷ []

unfoldable pub put : WriteBatch → Bytes → Bytes → WriteBatch
put b key v = record {
  rep = put_length_prefixed_slice (put_length_prefixed_slice (begin_record b value) key) v;
}

unfoldable pub put_guard : WriteBatch → Bytes → ℕ → WriteBatch
put_guard b key level = record {
  rep = put_varint32 (put_length_prefixed_slice (begin_record b guard) key) level;
}

unfoldable pub delete : WriteBatch → Bytes → WriteBatch
delete b key = record { rep = put_length_prefixed_slice (begin_record b deletion) key }

-- WriteBatchInternal::Append, whose source batch has its header.
unfoldable pub append : WriteBatch → WriteBatch → WriteBatch
append dst src = record {
  rep = (set_count dst (count dst + count src)).rep ++ drop header_size src.rep;
}

-- WriteBatch::Handler: the three calls, on a state that they change.
pub record Handler {ℓ} (S : Type ℓ) : Type ℓ where
  pub put : Bytes → Bytes → S → S
  pub delete : Bytes → S → S
  pub handle_guard : Bytes → ℕ → S → S

-- The switch of Iterate on one record: the error, or the handler's new state and the input left.
pub data Round {ℓ} (S : Type ℓ) : Type ℓ where
  next : S → Bytes → Round S
  stop : Status → Round S

module _ {ℓ} {S : Type ℓ} (h : Handler S) where
  abbrev after_put : Option (Bytes × Bytes × Bytes) → S → Round S
  after_put none s = stop (corruption "bad WriteBatch Put")
  after_put (some (key, v, input)) s = next (h.put key v s) input

  abbrev after_delete : Option (Bytes × Bytes) → S → Round S
  after_delete none s = stop (corruption "bad WriteBatch Delete")
  after_delete (some (key, input)) s = next (h.delete key s) input

  abbrev after_guard : Option (Bytes × ℕ × Bytes) → S → Round S
  after_guard none s = stop (corruption "bad WriteBatch Guard")
  after_guard (some (key, level, input)) s = next (h.handle_guard key level s) input

-- `GetLengthPrefixedSlice(&input, &key) && GetLengthPrefixedSlice(&input, &value)`
abbrev pub read_put : Bytes → Option (Bytes × Bytes × Bytes)
read_put input = do
  (key, input') ← get_length_prefixed_slice input
  (v, input'') ← get_length_prefixed_slice input'
  some (key, v, input'')

-- `GetLengthPrefixedSlice(&input, &key) && GetVarint32(&input, &level)`
abbrev pub read_guard : Bytes → Option (Bytes × ℕ × Bytes)
read_guard input = do
  (key, input') ← get_length_prefixed_slice input
  (level, input'') ← get_varint32 input'
  some (key, level, input'')

-- What Iterate ends with: its status and the handler's state. `stuck` is no result of the source:
-- the fuel ran out.
pub data Outcome {ℓ} (S : Type ℓ) : Type ℓ where
  done : Status → S → Outcome S
  stuck : Outcome S

module _ {ℓ} {S : Type ℓ} (h : Handler S) where
  unfoldable pub iterate_round : ℕ → Bytes → S → Round S
  iterate_round tag input s =
      if tag == type_code value
      then after_put h (read_put input) s
      else if tag == type_code deletion
      then after_delete h (get_length_prefixed_slice input) s
      else if tag == type_code guard
      then after_guard h (read_guard input) s
      else stop (corruption "unknown WriteBatch tag")

  -- `while (!input.empty())`, then the comparison of the number of records with the count.
  unfoldable pub iterate_loop : ℕ → ℕ → Bytes → ℕ → S → Outcome S
  iterate_loop fuel total [] found s =
      if found == total then done ok s else done (corruption "WriteBatch has wrong count") s
  iterate_loop zero total (tag ∷ input) found s = stuck
  iterate_loop (suc fuel) total (tag ∷ input) found s = elim (iterate_round tag input s) [
    | next s' rest ↦ iterate_loop fuel total rest (found + 1) s'
    | stop e ↦ done e s
  ]

  -- Every round takes a byte at least.
  unfoldable pub iterate : WriteBatch → S → Outcome S
  iterate b s =
      if ltb (length b.rep) header_size
      then done (corruption "malformed WriteBatch (too small)") s
      else (let input = drop header_size b.rep in iterate_loop (length input) (count b) input 0 s)
