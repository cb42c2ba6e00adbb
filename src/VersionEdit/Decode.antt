-- ===== src/VersionEdit/Decode.antt =====
-- db/version_edit.cc: DecodeFrom. The comparator behind the set of deleted
-- guards is the argument `key_before`.
mod Fields
unfoldable pub use Fields.{
  get_internal_key, get_level, get_level_and_key, get_level_and_number, get_new_file, get_guard,
}
use Prim.Native.String.{String}
use pebblesdb.Common.{
  ℕ, zero, suc, ◌^◌, Bool, true, Option, none, some, List, [], ◌∷◌, ◌++◌, Bytes, ltb, ◌==◌,
  if◌then◌else◌, ◌>>=◌, length,
}
use pebblesdb.Coding.{get_length_prefixed_slice, get_varint32, get_varint64}
use pebblesdb.Dbformat.{num_levels}
use pebblesdb.Status.{Status, ok, corruption}
use pebblesdb.VersionEdit.{
  VersionEdit, FileMetaData, GuardMetaData, InternalKey, clear, push_back_at, set_insert,
  pair_before, by_smallest_pair,
}
use pebblesdb.VersionEdit.Encode.{
  Tag, tag_code, comparator_tag, log_number_tag, next_file_number_tag, last_sequence_tag,
  compact_pointer_tag, deleted_file_tag, new_file_tag, prev_log_number_tag, deleted_guard_tag,
  new_guard_tag, file_inside_guard_tag, new_sentinel_file_tag, deleted_sentinel_file_tag,
  new_complete_guard_tag, new_sentinel_file_no_tag,
}

-- The locals that a later round can read: those of `g` that are assigned only for a guard with
-- segments, and the last tag and number read inside a guard, which are 0 here before the first.
pub record Locals : Type 0 where
  pub smallest : InternalKey
  pub largest : InternalKey
  pub tag2 : ℕ
  pub fnumber : ℕ

abbrev pub no_locals : Locals
no_locals = record { smallest = []; largest = []; tag2 = 0; fnumber = 0 }

-- What a round of the loop does: go on, stop with the message of the status (the prefix that
-- Status::Corruption puts in front of `msg` included), or fail an assertion.
pub data Round : Type 0 where
  next : Locals → VersionEdit → Bytes → Round
  stop : String → Round
  abort : Round

-- A variable after a read that may fail, and the input.
abbrev pub read_or : Option (ℕ × Bytes) → ℕ → Bytes → ℕ × Bytes
read_or none old input = (old, input)
read_or (some (v, rest)) old input = (v, rest)

-- The files of a guard: `none` is the failed assertion on a tag.
unfoldable pub guard_files : ℕ → Locals → List ℕ → Bytes → Option (Locals × List ℕ × Bytes)
guard_files zero l files input = some (l, files, input)
guard_files (suc segments) l files input =
    let (tag2, input') = read_or (get_varint32 input) l.tag2 input in
    let (fnumber, input'') = read_or (get_varint64 input') l.fnumber input' in
    let rest =
      guard_files segments (record l { tag2 = tag2; fnumber = fnumber }) (files ++ fnumber ∷ [])
        input'' in
    if tag2 == tag_code file_inside_guard_tag then rest else none

-- `assert(GetInternalKey(&g.smallest) && GetInternalKey(&g.largest))`
abbrev pub get_range : Locals → Bytes → Option (Locals × Bytes)
get_range l input = do
  (smallest, rest) ← get_internal_key input
  (largest, rest') ← get_internal_key rest
  some (record l { smallest = smallest; largest = largest }, rest')

abbrev pub guard_of : Locals → ℕ → ℕ → InternalKey → List ℕ → GuardMetaData
guard_of l level number_segments guard_key files = record {
  refs = 0;
  level = level;
  number_segments = number_segments;
  guard_key = guard_key;
  smallest = l.smallest;
  largest = l.largest;
  files = files;
}

abbrev pub add_files : ℕ → ℕ → InternalKey → VersionEdit → Option (Locals × List ℕ × Bytes) → Round
add_files level segments key e none = abort
add_files level segments key e (some (l, files, rest)) =
    next l
      (record e {
        new_guards = push_back_at level (guard_of l level segments key files) e.new_guards;
      })
      rest

abbrev pub add_segments : ℕ → ℕ → InternalKey → VersionEdit → Option (Locals × Bytes) → Round
add_segments level segments key e none = abort
add_segments level segments key e (some (l, rest)) =
    add_files level segments key e (guard_files segments l [] rest)

abbrev pub add_guard_entry : Locals → VersionEdit → Option ((ℕ × ℕ × InternalKey) × Bytes) → Round
add_guard_entry l e none = stop "VersionEdit: new-guard entry"
add_guard_entry l e (some ((level, segments, key), rest)) =
    if ltb 0 segments
    then add_segments level segments key e (get_range l rest)
    else add_files level segments key e (some (l, [], rest))

abbrev pub add_complete : ℕ → ℕ → InternalKey → VersionEdit → Option (Locals × Bytes) → Round
add_complete level segments key e none = abort
add_complete level segments key e (some (l, rest)) =
    next l
      (record e {
        new_complete_guards =
            push_back_at level (guard_of l level segments key []) e.new_complete_guards;
      })
      rest

abbrev pub add_complete_entry :
    Locals → VersionEdit → Option ((ℕ × ℕ × InternalKey) × Bytes) → Round
add_complete_entry l e none = stop "VersionEdit: new-complete-guard entry"
add_complete_entry l e (some ((level, segments, key), rest)) =
    add_complete level segments key e (if ltb 0 segments then get_range l rest else some (l, rest))

-- A case whose reads change the edit by `change`, with its message.
abbrev pub case_of {ℓ} :
    {A : Type ℓ} → Locals → String → (A → VersionEdit) → Option (A × Bytes) → Round
case_of l msg change none = stop msg
case_of l msg change (some (a, rest)) = next l (change a) rest

-- The tag with a code.
unfoldable pub find_tag : ℕ → Option Tag
find_tag code =
    if code == 1
    then some comparator_tag
    else if code == 2
    then some log_number_tag
    else if code == 3
    then some next_file_number_tag
    else if code == 4
    then some last_sequence_tag
    else if code == 5
    then some compact_pointer_tag
    else if code == 6
    then some deleted_file_tag
    else if code == 7
    then some new_file_tag
    else if code == 9
    then some prev_log_number_tag
    else if code == 10
    then some deleted_guard_tag
    else if code == 11
    then some new_guard_tag
    else if code == 12
    then some file_inside_guard_tag
    else if code == 13
    then some new_sentinel_file_tag
    else if code == 14
    then some deleted_sentinel_file_tag
    else if code == 15
    then some new_complete_guard_tag
    else if code == 16
    then some new_sentinel_file_no_tag
    else none

module _ (key_before : InternalKey → InternalKey → Bool) where
  -- The cases of the switch; no round starts with a file inside a guard.
  abbrev pub decode_case : Tag → Locals → VersionEdit → Bytes → Round
  decode_case comparator_tag l e input =
      case_of l "VersionEdit: comparator name"
        (λ str. record e { comparator = str; has_comparator = true })
        (get_length_prefixed_slice input)
  decode_case log_number_tag l e input =
      case_of l "VersionEdit: log number" (λ n. record e { log_number = n; has_log_number = true })
        (get_varint64 input)
  decode_case prev_log_number_tag l e input =
      case_of l "VersionEdit: previous log number"
        (λ n. record e { prev_log_number = n; has_prev_log_number = true }) (get_varint64 input)
  decode_case next_file_number_tag l e input =
      case_of l "VersionEdit: next file number"
        (λ n. record e { next_file_number = n; has_next_file_number = true }) (get_varint64 input)
  decode_case last_sequence_tag l e input =
      case_of l "VersionEdit: last sequence number"
        (λ n. record e { last_sequence = n; has_last_sequence = true }) (get_varint64 input)
  decode_case compact_pointer_tag l e input =
      case_of l "VersionEdit: compaction pointer"
        (λ p. record e { compact_pointers = e.compact_pointers ++ p ∷ [] })
        (get_level_and_key input)
  decode_case deleted_file_tag l e input =
      case_of l "VersionEdit: deleted file"
        (λ p. record e { deleted_files = set_insert pair_before p e.deleted_files })
        (get_level_and_number input)
  decode_case deleted_guard_tag l e input =
      case_of l "VersionEdit: deleted guard"
        (λ p. record e {
          deleted_guards = set_insert (by_smallest_pair key_before) p e.deleted_guards;
        })
        (get_level_and_key input)
  decode_case deleted_sentinel_file_tag l e input =
      case_of l "VersionEdit: deleted sentinel file"
        (λ p. record e {
          deleted_sentinel_files = set_insert pair_before p e.deleted_sentinel_files;
        })
        (get_level_and_number input)
  decode_case new_file_tag l e input =
      case_of l "VersionEdit: new-file entry" (λ p. record e { new_files = e.new_files ++ p ∷ [] })
        (get_new_file input)
  decode_case new_sentinel_file_tag l e input =
      case_of l "VersionEdit: new-sentinel-file entry"
        (λ p. record e { sentinel_file_nos = push_back_at p.0 p.1 e.sentinel_file_nos })
        (get_level_and_number input)
  decode_case new_sentinel_file_no_tag l e input =
      case_of l "VersionEdit: new-sentinel-file entry"
        (λ p. record e { new_files = e.new_files ++ p ∷ [] }) (get_new_file input)
  decode_case new_guard_tag l e input = add_guard_entry l e (get_guard input)
  decode_case new_complete_guard_tag l e input = add_complete_entry l e (get_guard input)
  decode_case file_inside_guard_tag l e input = stop "VersionEdit: unknown tag"

  abbrev pub decode_found : Option Tag → Locals → VersionEdit → Bytes → Round
  decode_found none l e input = stop "VersionEdit: unknown tag"
  decode_found (some t) l e input = decode_case t l e input

  unfoldable pub decode_round : Locals → VersionEdit → ℕ → Bytes → Round
  decode_round l e tag input = decode_found (find_tag tag) l e input

-- What DecodeFrom ends with; `failed` is the failed assertion. `stuck` is no result of the source: the
-- fuel ran out.
pub data Outcome : Type 0 where
  done : Status → VersionEdit → Outcome
  failed : Outcome
  stuck : Outcome

module _ (key_before : InternalKey → InternalKey → Bool) where
  -- `while (msg == NULL && GetVarint32(&input, &tag))`, and the test for bytes that are no tag.
  unfoldable pub decode_loop : ℕ → Locals → VersionEdit → Bytes → Outcome
  decode_loop fuel l e [] = done ok e
  decode_loop zero l e (b ∷ bs) = stuck
  decode_loop (suc fuel) l e (b ∷ bs) = elim (get_varint32 (b ∷ bs)) [
    | none ↦ done (corruption "VersionEdit: invalid tag") e
    | some (tag, rest) ↦ elim (decode_round key_before l e tag rest) [
      | next l' e' rest' ↦ decode_loop fuel l' e' rest'
      | stop msg ↦ done (corruption msg) e
      | abort ↦ failed
    ]
  ]

  -- Every round takes a byte at least.
  unfoldable pub decode_from : VersionEdit → Bytes → Outcome
  decode_from e src = decode_loop (length src) no_locals (clear e) src
