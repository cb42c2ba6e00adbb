-- ===== src/Log/ReadRecord.antt =====
-- db/log_reader.cc: Reader::ReadRecord.
use Prim.Native.String.{String}
use pebblesdb.Common.{
  ℕ, zero, suc, ◌+◌, ◌-◌, ◌%◌, ◌^◌, Bool, true, false, Option, none, some, [], ◌∷◌, Bytes, ◌++◌,
  ltb, ◌==◌, if◌then◌else◌, length,
}
use pebblesdb.Status.{Status, is_ok}
use pebblesdb.Log.{
  full_type, first_type, middle_type, last_type, record_type_code, k_block_size, SequentialFile,
}
use pebblesdb.Log.Reader.{
  Reader, Options, k_eof, k_bad_record, sub_word, report_drop, report_corruption,
  read_physical_record,
}

module _ (extend : ℕ → Bytes → ℕ) {F : Type 0} (sequential : SequentialFile F)
    (options : Options) where
  -- The report of a partial record, when a new record starts.
  abbrev pub report_partial : Bool → Bytes → String → Reader F → Reader F
  report_partial false scratch reason r = r
  report_partial true [] reason r = r
  report_partial true (b ∷ bs) reason r =
      report_corruption extend sequential options (length (b ∷ bs)) reason r

  -- A return of ReadRecord: the record, or none for false.
  abbrev pub Returned : Type 0
  Returned = Option Bytes × Reader F

  -- The switch on the type of a physical record; `next` is the loop with its locals
  -- in_fragmented_record, prospective_record_offset and scratch.
  unfoldable pub on_record :
      (Bool → ℕ → Bytes → Reader F → Option Returned)
      → Bool
      → ℕ
      → Bytes
      → ℕ
      → ℕ × Bytes × Reader F
      → Option Returned
  on_record next fragmented prospective scratch offset (type, fragment, r) =
      if type == record_type_code full_type
      then some (
        some fragment,
        record (report_partial fragmented scratch "partial record without end(1)" r) {
          last_record_offset = offset;
        },
      )
      else if type == record_type_code first_type
      then next true offset fragment
          (report_partial fragmented scratch "partial record without end(2)" r)
      else if type == record_type_code middle_type
      then if fragmented
        then next true prospective (scratch ++ fragment) r
        else next false prospective scratch (
            report_corruption extend sequential options (length fragment)
              "missing start of fragmented record(1)" r)
      else if type == record_type_code last_type
      then if fragmented
        then some (some (scratch ++ fragment), record r { last_record_offset = prospective })
        else next false prospective scratch (
            report_corruption extend sequential options (length fragment)
              "missing start of fragmented record(2)" r)
      else if type == k_eof
      then some (none, r)
      else if type == k_bad_record
      then if fragmented
        then next false prospective [] (
            report_corruption extend sequential options (length scratch) "error in middle of record"
              r)
        else next false prospective scratch r
      else next false prospective [] (
          report_corruption extend sequential options
            (length fragment + (if fragmented then length scratch else 0))
            (options.unknown_type type) r)

  -- The loop of ReadRecord. It has no result when the fuel runs out.
  unfoldable pub read_loop : ℕ → Bool → ℕ → Bytes → Reader F → Option Returned
  read_loop zero fragmented prospective scratch r = none
  read_loop (suc fuel) fragmented prospective scratch r =
      on_record (read_loop fuel) fragmented prospective scratch
        (sub_word r.end_of_buffer_offset (length r.buffer))
        (read_physical_record extend sequential options r)

  -- The file after Skip, with whether SkipToInitialBlock succeeds.
  abbrev pub after_skip : ℕ → Reader F → Status × F → Bool × Reader F
  after_skip location r (s, f) =
      let r' = record r { file = f } in
      if is_ok s then (true, r') else (false, report_drop extend sequential options location s r')

  -- SkipToInitialBlock
  unfoldable pub skip_to_initial_block : Reader F → Bool × Reader F
  skip_to_initial_block r =
      let offset_in_block = options.initial_offset % k_block_size in
      let start = options.initial_offset - offset_in_block in
      let location =
        if ltb (k_block_size - 6) offset_in_block then (start + k_block_size) % 2 ^ 64 else start in
      let r' = record r { end_of_buffer_offset = location } in
      if ltb 0 location
      then after_skip location r' (sequential.skip location r'.file)
      else (true, r')

  abbrev pub if_skipped : ℕ → Bool × Reader F → Option Returned
  if_skipped fuel (true, r) = read_loop fuel false 0 [] r
  if_skipped fuel (false, r) = some (none, r)

  -- ReadRecord
  unfoldable pub read_record : ℕ → Reader F → Option Returned
  read_record fuel r = if_skipped fuel (
      if ltb r.last_record_offset options.initial_offset
      then skip_to_initial_block r
      else (true, r))
