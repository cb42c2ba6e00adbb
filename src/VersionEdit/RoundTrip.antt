-- ===== src/VersionEdit/RoundTrip.antt =====
-- DecodeFrom on the items of an edit (db/version_edit.cc).
pub mod Sections
pub mod Stored
mod Fields
pub use Fields.{stored_guard, stored_file, Fits}
use Fields.{
  FitsKey, FitsFile, get_level-encode, get_level_and_key-fields, get_level_and_number-fields,
  get_level_and_number-pair, get_new_file-fields, get_guard-fields,
}
use mathlib.Core.List.{foldl}
use native.Mathlib.Nat.{mod-eq_of_lt}
use pebblesdb.Common.{
  ℕ, zero, suc, ◌+◌, ◌^◌, ◌<◌, ◌≤◌, ◌≡◌, refl, ap, ◌∙◌, Bool, true, List, [], ◌∷◌, ◌++◌,
  append_assoc, some, Bytes, length, length-append, All, arith, lt→ltb, Option,
}
use pebblesdb.Coding.{
  encode_varint32, encode_varint64, get_varint32, get_varint32_ptr, get_varint64,
  get_length_prefixed_slice,
}
use pebblesdb.Coding.Varint.{get_varint32-encode_varint32, get_varint64-encode_varint64}
use pebblesdb.Coding.Slices.{prefixed, get_length_prefixed_slice-prefixed}
use pebblesdb.Dbformat.{num_levels}
use pebblesdb.Status.{ok}
use pebblesdb.VersionEdit.{
  VersionEdit, FileMetaData, GuardMetaData, InternalKey, push_back_at, set_insert, pair_before,
  by_smallest_pair,
}
use pebblesdb.Common.Bits.{bit_and_128}
use pebblesdb.VersionEdit.Encode.{
  Tag, tag_code, comparator_tag, log_number_tag, next_file_number_tag, last_sequence_tag,
  compact_pointer_tag, deleted_file_tag, new_file_tag, prev_log_number_tag, deleted_guard_tag,
  new_guard_tag, file_inside_guard_tag, new_sentinel_file_tag, deleted_sentinel_file_tag,
  new_complete_guard_tag, new_sentinel_file_no_tag,
}
use pebblesdb.VersionEdit.Decode.{
  get_level, get_level_and_key, get_level_and_number, get_new_file, get_guard, Locals, no_locals,
  Round, next, case_of, guard_of, add_guard_entry, add_complete_entry, find_tag, decode_round,
  decode_loop, done, Outcome,
}
use pebblesdb.VersionEdit.Items.{
  Item, comparator_item, log_item, prev_log_item, next_file_item, last_sequence_item, compact_item,
  deleted_guard_item, deleted_file_item, deleted_sentinel_item, new_file_item, guard_item,
  complete_item, tag_of, fields, encoding, encodings, level_and_key, level_and_number, file_fields,
  guard_fields,
}

encoding-eq-fields : (item : Item) → encoding item ≡ tag_code (tag_of item) ∷ fields item
unfolding encode_varint32
encoding-eq-fields (comparator_item name) = refl
encoding-eq-fields (log_item n) = refl
encoding-eq-fields (prev_log_item n) = refl
encoding-eq-fields (next_file_item n) = refl
encoding-eq-fields (last_sequence_item n) = refl
encoding-eq-fields (compact_item p) = refl
encoding-eq-fields (deleted_guard_item p) = refl
encoding-eq-fields (deleted_file_item p) = refl
encoding-eq-fields (deleted_sentinel_item p) = refl
encoding-eq-fields (new_file_item p) = refl
encoding-eq-fields (guard_item g) = refl
encoding-eq-fields (complete_item g) = refl

-- A tag is one byte.
get_varint32-byte : (t : ℕ) (rest : Bytes) → t < 128 → get_varint32 (t ∷ rest) ≡ some (t, rest)
unfolding get_varint32 get_varint32_ptr
get_varint32-byte t rest h = ground (arith, bit_and_128 t)

tag_code-lt : (tag : Tag) → tag_code tag < 128
tag_code-lt comparator_tag = omega arith
tag_code-lt log_number_tag = omega arith
tag_code-lt next_file_number_tag = omega arith
tag_code-lt last_sequence_tag = omega arith
tag_code-lt compact_pointer_tag = omega arith
tag_code-lt deleted_file_tag = omega arith
tag_code-lt new_file_tag = omega arith
tag_code-lt prev_log_number_tag = omega arith
tag_code-lt deleted_guard_tag = omega arith
tag_code-lt new_guard_tag = omega arith
tag_code-lt file_inside_guard_tag = omega arith
tag_code-lt new_sentinel_file_tag = omega arith
tag_code-lt deleted_sentinel_file_tag = omega arith
tag_code-lt new_complete_guard_tag = omega arith
tag_code-lt new_sentinel_file_no_tag = omega arith

module _ (key_before : InternalKey → InternalKey → Bool) where
  -- The change that one item makes to the edit.
  abbrev pub apply : VersionEdit → Item → VersionEdit
  apply e (comparator_item name) = record e { comparator = name; has_comparator = true }
  apply e (log_item n) = record e { log_number = n; has_log_number = true }
  apply e (prev_log_item n) = record e { prev_log_number = n; has_prev_log_number = true }
  apply e (next_file_item n) = record e { next_file_number = n; has_next_file_number = true }
  apply e (last_sequence_item n) = record e { last_sequence = n; has_last_sequence = true }
  apply e (compact_item p) = record e { compact_pointers = e.compact_pointers ++ p ∷ [] }
  apply e (deleted_guard_item p) = record e {
    deleted_guards = set_insert (by_smallest_pair key_before) p e.deleted_guards;
  }
  apply e (deleted_file_item p) = record e {
    deleted_files = set_insert pair_before p e.deleted_files;
  }
  apply e (deleted_sentinel_item p) = record e {
    deleted_sentinel_files = set_insert pair_before p e.deleted_sentinel_files;
  }
  apply e (new_file_item p) = record e { new_files = e.new_files ++ (p.0, stored_file p.1) ∷ [] }
  apply e (guard_item g) = record e {
    new_guards = push_back_at g.level (stored_guard g) e.new_guards;
  }
  apply e (complete_item g) = record e {
    new_complete_guards = push_back_at g.level (stored_guard g) e.new_complete_guards;
  }

  round-item :
      (item : Item) (e : VersionEdit) (more : Bytes)
      → Fits item
      → decode_round key_before no_locals e (tag_code (tag_of item)) (fields item ++ more)
        ≡ next no_locals (apply e item) more
  unfolding decode_round find_tag
  round-item (comparator_item name) e more h =
      ap (case_of _ _ _) (get_length_prefixed_slice-prefixed name more h)
  round-item (log_item n) e more h = ap (case_of _ _ _) (get_varint64-encode_varint64 n more h)
  round-item (prev_log_item n) e more h = ap (case_of _ _ _) (get_varint64-encode_varint64 n more h)
  round-item (next_file_item n) e more h =
      ap (case_of _ _ _) (get_varint64-encode_varint64 n more h)
  round-item (last_sequence_item n) e more h =
      ap (case_of _ _ _) (get_varint64-encode_varint64 n more h)
  round-item (compact_item p) e more h =
      ap (case_of _ _ _) (get_level_and_key-fields p more h.0 h.1)
  round-item (deleted_guard_item p) e more h =
      ap (case_of _ _ _) (get_level_and_key-fields p more h.0 h.1)
  round-item (deleted_file_item p) e more h =
      ap (case_of _ _ _) (get_level_and_number-pair p more h.0 h.1)
  round-item (deleted_sentinel_item p) e more h =
      ap (case_of _ _ _) (get_level_and_number-pair p more h.0 h.1)
  round-item (new_file_item (level, f)) e more h =
      ap (case_of _ _ _) (get_new_file-fields level f more h.0 h.1)
  round-item (guard_item g) e more h = ap (add_guard_entry _ _) (get_guard-fields g more h.0 h.1)
  round-item (complete_item g) e more h =
      ap (add_complete_entry _ _) (get_guard-fields g more h.0 h.1)

  pub loop_next :
      (fuel : ℕ) (l : Locals) (e : VersionEdit) (b : ℕ) (bs : Bytes) (tag : ℕ) (rest : Bytes)
      (l' : Locals) (e' : VersionEdit) (rest' : Bytes)
      → get_varint32 (b ∷ bs) ≡ some (tag, rest)
      → decode_round key_before l e tag rest ≡ next l' e' rest'
      → decode_loop key_before (suc fuel) l e (b ∷ bs) ≡ decode_loop key_before fuel l' e' rest'
  unfolding decode_loop
  loop_next fuel l e b bs tag rest l' e' rest' h h' = ground arith

  loop_step :
      (item : Item) (more : Bytes) (fuel : ℕ) (e : VersionEdit)
      → Fits item
      → decode_loop key_before (suc fuel) no_locals e (encoding item ++ more)
        ≡ decode_loop key_before fuel no_locals (apply e item) more
  loop_step item more fuel e fits = rw (encoding-eq-fields item) (
      loop_next fuel no_locals e _ _ _ _ no_locals (apply e item) more
        (get_varint32-byte (tag_code (tag_of item)) (fields item ++ more)
          (tag_code-lt (tag_of item)))
        (round-item item e more fits))

  loop_end :
      (fuel : ℕ) (l : Locals) (e : VersionEdit) → decode_loop key_before fuel l e [] ≡ done ok e
  unfolding decode_loop
  loop_end zero l e = refl
  loop_end (suc fuel) l e = refl

  -- The loop on the encodings of items applies them in order and ends with OK.
  pub loop-encodings :
      (items : List Item) (fuel : ℕ) (e : VersionEdit)
      → All Fits items
      → length (encodings items) ≤ fuel
      → decode_loop key_before fuel no_locals e (encodings items) ≡ done ok (foldl apply e items)
  loop-encodings [] fuel e fits enough = loop_end fuel no_locals e
  loop-encodings (item ∷ items) zero e fits enough = absurd (
      omega (
        arith,
        ap length (encoding-eq-fields item),
        length-append (encoding item) (encodings items),
      ))
  loop-encodings (item ∷ items) (suc fuel) e fits enough =
      loop_step item (encodings items) fuel e fits.0
      ∙ loop-encodings items fuel (apply e item) fits.1 (
          omega (
            arith,
            ap length (encoding-eq-fields item),
            length-append (encoding item) (encodings items),
          ))
