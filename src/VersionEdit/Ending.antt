-- ===== src/VersionEdit/Ending.antt =====
-- The end of DecodeFrom, on any bytes (db/version_edit.cc).
mod Reads
use Prim.Native.String.{String}
use pebblesdb.Common.{
  ℕ, zero, suc, ◌+◌, ◌<◌, ◌≤◌, ◌≡◌, ◌≢◌, refl, sym, subst, ◌∙◌, Bool, true, false, Option, none,
  some, List, [], ◌∷◌, ◌++◌, Bytes, arith, length, if◌then◌else◌, ◌>>=◌, ltb, ◌==◌, Option-cases,
  inl, inr, ◌⊎◌,
}
use pebblesdb.Coding.{get_varint32, get_varint64, get_length_prefixed_slice}
use pebblesdb.Coding.Varint.{get_varint32_shorter, get_varint64_takes}
use pebblesdb.Coding.Slices.{get_length_prefixed_slice_shorter}
use pebblesdb.VersionEdit.{VersionEdit, FileMetaData, InternalKey, clear}
use pebblesdb.VersionEdit.Encode.{
  Tag, tag_code, comparator_tag, log_number_tag, next_file_number_tag, last_sequence_tag,
  compact_pointer_tag, deleted_file_tag, new_file_tag, prev_log_number_tag, deleted_guard_tag,
  new_guard_tag, file_inside_guard_tag, new_sentinel_file_tag, deleted_sentinel_file_tag,
  new_complete_guard_tag, new_sentinel_file_no_tag,
}
use pebblesdb.VersionEdit.Decode.{
  get_internal_key, get_level, get_level_and_key, get_level_and_number, get_new_file, get_guard,
  Locals, no_locals, read_or, guard_files, get_range, Round, next, stop, abort, add_files,
  add_segments, add_complete, add_guard_entry, add_complete_entry, case_of, find_tag, decode_case,
  decode_found, decode_round, decode_loop, decode_from, stuck, Outcome,
}
use pebblesdb.VersionEdit.RoundTrip.{loop_next}
use Reads.{
  Within, Within-chain, Within-get_varint32, Within-get_varint64, Within-get_internal_key,
  Within-get_level_and_key, Within-get_level_and_number, Within-get_new_file, Within-get_guard,
  Within-get_range, read_or-Within,
}

-- A round that goes on leaves at most `n` bytes.
abbrev Leaves : ℕ → Round → Type 0
Leaves n (next l e rest) = length rest ≤ n
Leaves n (stop msg) = Unit
Leaves n abort = Unit

Leaves-if :
    (n : ℕ) (b : Bool) (x y : Round) → Leaves n x → Leaves n y → Leaves n (if b then x else y)
Leaves-if n true x y hx hy = hx
Leaves-if n false x y hx hy = hy

module _ (n : ℕ) where
  Leaves-case_of {ℓ} :
      {A : Type ℓ} (l : Locals) (msg : String) (change : A → VersionEdit) (r : Option (A × Bytes))
      → Within n r
      → Leaves n (case_of l msg change r)
  Leaves-case_of l msg change none h = tt
  Leaves-case_of l msg change (some (a, rest)) h = h

  guard_files-Leaves :
      (segments : ℕ) (l : Locals) (files : List ℕ) (input : Bytes)
      → length input ≤ n
      → (level count : ℕ) (key : InternalKey) (e : VersionEdit)
      → Leaves n (add_files level count key e (guard_files segments l files input))
  unfolding guard_files
  guard_files-Leaves zero l files input h level count key e = h
  guard_files-Leaves (suc segments) l files input h level count key e =
      let tag = read_or (get_varint32 input) l.tag2 input in
      let tag_within =
        read_or-Within n (get_varint32 input) l.tag2 input h (Within-get_varint32 n input h) in
      let number = read_or (get_varint64 tag.1) l.fnumber tag.1 in
      let number_within =
        read_or-Within n (get_varint64 tag.1) l.fnumber tag.1 tag_within
          (Within-get_varint64 n tag.1 tag_within) in
      split (tag.0 == tag_code file_inside_guard_tag) _ (
        guard_files-Leaves segments (record l { tag2 = tag.0; fnumber = number.0 })
          (files ++ number.0 ∷ []) number.1 number_within level count key e)
    where
      split :
          (b : Bool) (r : Option (Locals × List ℕ × Bytes))
          → Leaves n (add_files level count key e r)
          → Leaves n (add_files level count key e (if b then r else none))
      split true r k = k
      split false r k = tt

  Leaves-add_segments :
      (level segments : ℕ) (key : InternalKey) (e : VersionEdit) (r : Option (Locals × Bytes))
      → Within n r
      → Leaves n (add_segments level segments key e r)
  Leaves-add_segments level segments key e none h = tt
  Leaves-add_segments level segments key e (some (l, rest)) h =
      guard_files-Leaves segments l [] rest h level segments key e

  Leaves-add_guard_entry :
      (l : Locals) (e : VersionEdit) (r : Option ((ℕ × ℕ × InternalKey) × Bytes))
      → Within n r
      → Leaves n (add_guard_entry l e r)
  Leaves-add_guard_entry l e none h = tt
  Leaves-add_guard_entry l e (some ((level, segments, key), rest)) h =
      Leaves-if n (ltb 0 segments) _ _
        (Leaves-add_segments level segments key e (get_range l rest) (Within-get_range n l rest h))
        h

  Leaves-add_complete_entry :
      (l : Locals) (e : VersionEdit) (r : Option ((ℕ × ℕ × InternalKey) × Bytes))
      → Within n r
      → Leaves n (add_complete_entry l e r)
  Leaves-add_complete_entry l e none h = tt
  Leaves-add_complete_entry l e (some ((level, segments, key), rest)) h =
      split (ltb 0 segments) (get_range l rest) (Within-get_range n l rest h)
    where
      split :
          (b : Bool) (r : Option (Locals × Bytes))
          → Within n r
          → Leaves n (add_complete level segments key e (if b then r else some (l, rest)))
      split true none k = tt
      split true (some q) k = k
      split false r k = h

module _ (key_before : InternalKey → InternalKey → Bool) where
  case-Leaves :
      (t : Tag) (n : ℕ) (l : Locals) (e : VersionEdit) (input : Bytes)
      → length input ≤ n
      → Leaves n (decode_case key_before t l e input)
  case-Leaves comparator_tag n l e input h =
      Leaves-case_of n _ _ _ _ (Within-get_internal_key n input h)
  case-Leaves log_number_tag n l e input h =
      Leaves-case_of n _ _ _ _ (Within-get_varint64 n input h)
  case-Leaves next_file_number_tag n l e input h =
      Leaves-case_of n _ _ _ _ (Within-get_varint64 n input h)
  case-Leaves last_sequence_tag n l e input h =
      Leaves-case_of n _ _ _ _ (Within-get_varint64 n input h)
  case-Leaves compact_pointer_tag n l e input h =
      Leaves-case_of n _ _ _ _ (Within-get_level_and_key n input h)
  case-Leaves deleted_file_tag n l e input h =
      Leaves-case_of n _ _ _ _ (Within-get_level_and_number n input h)
  case-Leaves new_file_tag n l e input h = Leaves-case_of n _ _ _ _ (Within-get_new_file n input h)
  case-Leaves prev_log_number_tag n l e input h =
      Leaves-case_of n _ _ _ _ (Within-get_varint64 n input h)
  case-Leaves deleted_guard_tag n l e input h =
      Leaves-case_of n _ _ _ _ (Within-get_level_and_key n input h)
  case-Leaves new_guard_tag n l e input h =
      Leaves-add_guard_entry n l e (get_guard input) (Within-get_guard n input h)
  case-Leaves file_inside_guard_tag n l e input h = tt
  case-Leaves new_sentinel_file_tag n l e input h =
      Leaves-case_of n _ _ _ _ (Within-get_level_and_number n input h)
  case-Leaves deleted_sentinel_file_tag n l e input h =
      Leaves-case_of n _ _ _ _ (Within-get_level_and_number n input h)
  case-Leaves new_complete_guard_tag n l e input h =
      Leaves-add_complete_entry n l e (get_guard input) (Within-get_guard n input h)
  case-Leaves new_sentinel_file_no_tag n l e input h =
      Leaves-case_of n _ _ _ _ (Within-get_new_file n input h)

  found-Leaves :
      (t : Option Tag) (n : ℕ) (l : Locals) (e : VersionEdit) (input : Bytes)
      → length input ≤ n
      → Leaves n (decode_found key_before t l e input)
  found-Leaves none n l e input h = tt
  found-Leaves (some t) n l e input h = case-Leaves t n l e input h

  round-Leaves :
      (n : ℕ) (l : Locals) (e : VersionEdit) (tag : ℕ) (input : Bytes)
      → length input ≤ n
      → Leaves n (decode_round key_before l e tag input)
  unfolding decode_round
  round-Leaves n l e tag input h = found-Leaves (find_tag tag) n l e input h

  after_round :
      (fuel : ℕ) (l : Locals) (e : VersionEdit) (b : ℕ) (bs : Bytes) (tag : ℕ) (rest : Bytes)
      (r : Round)
      → get_varint32 (b ∷ bs) ≡ some (tag, rest)
      → decode_round key_before l e tag rest ≡ r
      → ((l' : Locals) (e' : VersionEdit) (rest' : Bytes)
          → r ≡ next l' e' rest'
          → decode_loop key_before fuel l' e' rest' ≢ stuck)
      → decode_loop key_before (suc fuel) l e (b ∷ bs) ≢ stuck
  after_round fuel l e b bs tag rest (next l' e' rest') h h' later k =
      later l' e' rest' refl
        (sym (loop_next key_before fuel l e b bs tag rest l' e' rest' h h') ∙ k)
  after_round fuel l e b bs tag rest (stop msg) h h' later k =
      unfold decode_loop in ground (arith, h, h', k)
  after_round fuel l e b bs tag rest abort h h' later k =
      unfold decode_loop in ground (arith, h, h', k)

  loop-ne-stuck :
      (fuel : ℕ) (l : Locals) (e : VersionEdit) (input : Bytes)
      → length input ≤ fuel
      → decode_loop key_before fuel l e input ≢ stuck
  unfolding decode_loop
  loop-ne-stuck zero l e [] enough k = ground (arith, k)
  loop-ne-stuck (suc fuel) l e [] enough k = ground (arith, k)
  loop-ne-stuck zero l e (b ∷ bs) enough k = absurd (omega arith)
  loop-ne-stuck (suc fuel) l e (b ∷ bs) enough k = elim (Option-cases (get_varint32 (b ∷ bs))) [
    | inl h ↦ ground (arith, h, k)
    | inr ((tag, rest), h) ↦
        after_round fuel l e b bs tag rest (decode_round key_before l e tag rest) h refl
          (λ l' e' rest' r. loop-ne-stuck fuel l' e' rest' (
            omega (
              arith,
              get_varint32_shorter (b ∷ bs) tag rest h,
              subst (Leaves (length rest)) r
                  (round-Leaves (length rest) l e tag rest (omega arith)),
            )))
          k
  ]

  -- DecodeFrom ends on every input, well formed or not.
  pub decode_from-ne-stuck : (e : VersionEdit) (src : Bytes) → decode_from key_before e src ≢ stuck
  unfolding decode_from
  decode_from-ne-stuck e src = loop-ne-stuck (length src) no_locals (clear e) src (omega arith)
