-- ===== src/Log/History.antt =====
-- A log file from its first record to its last: a client that adds records, and one that reads them
-- until ReadRecord returns false (db/log_writer.cc, db/log_reader.cc).
use pebblesdb.Common.{
  ℕ, zero, suc, ◌+◌, ◌^◌, ◌<◌, ◌≤◌, ◌≡◌, refl, sym, ap, ◌∙◌, false, Option, none, some, List, [],
  ◌∷◌, ◌++◌, Bytes, arith, length, ◌>>=◌, append-nil, append_assoc, length-append, if◌then◌else◌,
}
use pebblesdb.Crc32c.{IsExtend}
use pebblesdb.Status.{Status}
use pebblesdb.Log.{k_header_size, ConcurrentWritableFile, IsWritable, SequentialFile, IsReadable}
use pebblesdb.Log.Writer.{add_record}
use pebblesdb.Log.Layout.{record_bytes}
use pebblesdb.Log.Extent.{fills_block, length-record_bytes}
use pebblesdb.Log.Append.{add_record-appends}
use pebblesdb.Log.Position.{At}
use pebblesdb.Log.RoundTrip.{read_record-record_bytes, read_record-nil}
use pebblesdb.Log.Reader.{Reader, Options, new_reader}
use pebblesdb.Log.ReadRecord.{Returned, read_record}

module _ (extend : ℕ → Bytes → ℕ) where
  -- The bytes of a record at an offset.
  abbrev pub bytes_at : ℕ → Bytes → Bytes
  bytes_at o slice = record_bytes extend (suc (length slice)) o slice

  -- The bytes of records one behind the other.
  abbrev pub log_bytes : ℕ → List Bytes → Bytes
  log_bytes o [] = []
  log_bytes o (slice ∷ slices) =
      bytes_at o slice ++ log_bytes (o + length (bytes_at o slice)) slices

  -- No record fills its last block, and each is shorter than 4 GiB.
  abbrev pub LeaveRoom : ℕ → List Bytes → Type 0
  LeaveRoom o [] = Unit
  LeaveRoom o (slice ∷ slices) =
      (fills_block o (length slice) ≡ false)
      × (length slice < 2 ^ 32)
      × LeaveRoom (o + length (bytes_at o slice)) slices

  module _ {F : Type 0} (dest : ConcurrentWritableFile F) where
    -- One AddRecord after the other.
    abbrev pub add_records : List Bytes → ℕ × F → Option (ℕ × F)
    add_records [] state = some state
    add_records (slice ∷ slices) state =
        add_record extend dest (suc (suc (length slice))) slice state
        >>= (λ (added : ℕ × Status × F). add_records slices (added.0, added.2))

  module _ {F : Type 0} (sequential : SequentialFile F) (options : Options) where
    abbrev pub collected :
        (Reader F → Option (List Bytes × Reader F))
        → Returned extend sequential options
        → Option (List Bytes × Reader F)
    collected more (none, r) = some ([], r)
    collected more (some slice, r) =
        more r >>= (λ (rest : List Bytes × Reader F). some (slice ∷ rest.0, rest.1))

    -- ReadRecord until it returns false, at most `calls` times, each with its fuel.
    abbrev pub read_records : ℕ → ℕ → Reader F → Option (List Bytes × Reader F)
    read_records zero fuel r = none
    read_records (suc calls) fuel r =
        read_record extend sequential options fuel r >>= collected (read_records calls fuel)

  length-bytes_at :
      (o : ℕ) (slice : Bytes) → length slice + k_header_size ≤ length (bytes_at o slice)
  length-bytes_at o slice =
      ground (arith, length-record_bytes extend (suc (length slice)) o slice (ground arith))

  module _ {F : Type 0} (dest : ConcurrentWritableFile F) (contents : F → Bytes)
      (writable : IsWritable dest contents) where
    -- A file with the bytes of the records behind the contents, and offset_ at its end.
    abbrev pub Added : ℕ → List Bytes → F → Option (ℕ × F) → Type 0
    Added o slices f added =
        (f' : F) × (added ≡ some (length (contents f'), f'))
        × (contents f' ≡ contents f ++ log_bytes o slices)

    add_records-log_bytes :
        (slices : List Bytes) (o : ℕ) (f : F)
        → length (contents f) ≡ o
        → LeaveRoom o slices
        → o + length (log_bytes o slices) + k_header_size < 2 ^ 32
        → Added o slices f (add_records dest slices (o, f))
    add_records-log_bytes [] o f h room small =
        (f, ap (λ n. some (n, f)) (sym h), sym (append-nil (contents f)))
    add_records-log_bytes (slice ∷ slices) o f h (snug, short, room) small =
        let bytes = bytes_at o slice in
        let rest = log_bytes (o + length bytes) slices in
        let size = length-append bytes rest in
        let (o', f1, e, holds, end) =
          add_record-appends extend dest contents writable slice f
            (small_before (length (bytes ++ rest)) h small) short in
        let behind = holds ∙ ap (λ n. contents f ++ bytes_at n slice) h in
        let there : length (contents f1) ≡ o + length bytes =
          ap length behind ∙ length-append (contents f) bytes ∙ ap (λ n. n + length bytes) h in
        let here : o' ≡ o + length bytes =
          end
          ∙ ap
              (λ n.
                length (contents f1) + (if fills_block n (length slice) then k_header_size else 0))
              h
          ∙ ap (λ b. length (contents f1) + (if b then k_header_size else 0)) snug
          ∙ omega (arith, there) in
        let (f2, e2, holds2) =
          add_records-log_bytes slices (o + length bytes) f1 there room (omega (arith, size)) in
        (
          f2,
          ap (λ n. add_record extend dest (suc (suc (length slice))) slice (n, f) >>= more) (sym h)
              ∙ ap (λ r. r >>= more) e
              ∙ ap (λ n. add_records dest slices (n, f1)) here
              ∙ e2,
          holds2 ∙ ap (λ c. c ++ rest) behind ∙ append_assoc (contents f) bytes rest,
        )
      where
        more : ℕ × Status × F → Option (ℕ × F)
        more added = add_records dest slices (added.0, added.2)

        small_before :
            (t : ℕ) {n : ℕ} → n ≡ o → o + t + k_header_size < 2 ^ 32 → n + k_header_size < 2 ^ 32
        small_before t e lt = omega arith

  module _ {F : Type 0} (sequential : SequentialFile F) (options : Options) (contents : F → Bytes)
      (readable : IsReadable sequential contents) (good : IsExtend extend)
      (from_start : options.initial_offset ≡ 0) where
    -- The records of the rest of a file, with nothing new told to the reporter.
    abbrev pub Reads : Reader F → List Bytes → Option (List Bytes × Reader F) → Type 0
    Reads r slices read = (r' : Reader F) × (read ≡ some (slices, r')) × (r'.reports ≡ r.reports)

    read_records-log_bytes :
        (slices : List Bytes) (o fuel : ℕ) (r : Reader F)
        → At contents r o (log_bytes o slices)
        → length (log_bytes o slices) < fuel
        → Reads r slices (read_records sequential options (suc (length slices)) fuel r)
    read_records-log_bytes slices o zero r at enough = absurd (omega arith)
    read_records-log_bytes [] o (suc fuel) r at enough =
        let (r', e, quiet) =
          read_record-nil extend sequential options contents readable good from_start fuel o r at in
        (
          r',
          ap
              (λ m.
                m >>= collected sequential options (read_records sequential options 0 (suc fuel)))
              e,
          quiet,
        )
    read_records-log_bytes (slice ∷ slices) o (suc fuel) r at enough =
        let bytes = bytes_at o slice in
        let rest = log_bytes (o + length bytes) slices in
        let size = length-append bytes rest in
        let (r1, e, at1, quiet1) =
          read_record-record_bytes extend sequential options contents readable good from_start
            (suc fuel) o slice rest r (omega (arith, size, length-bytes_at o slice)) at in
        let (r2, e2, quiet2) =
          read_records-log_bytes slices (o + length bytes) (suc fuel) r1 at1
            (omega (arith, size)) in
        let more = read_records sequential options (suc (length slices)) (suc fuel) in
        (
          r2,
          ap (λ m. m >>= collected sequential options more) e
              ∙ ap
                  (λ (m : Option (List Bytes × Reader F)).
                    m >>= (λ (rest : List Bytes × Reader F). some (slice ∷ rest.0, rest.1)))
                  e2,
          quiet2 ∙ quiet1,
        )

  module _ {F G : Type 0} (dest : ConcurrentWritableFile F) (contents : F → Bytes)
      (writable : IsWritable dest contents) (sequential : SequentialFile G) (options : Options)
      (stored : G → Bytes) (readable : IsReadable sequential stored) (good : IsExtend extend)
      (from_start : options.initial_offset ≡ 0) where
    -- Records that AddRecord writes into an empty file are read back by ReadRecord, all of them
    -- and in their order, and nothing is told to the reporter, with or without checksums: where no
    -- operation on the files fails, the file stays below 4 GiB, and no record fills its last
    -- block.
    pub read_records-add_records :
        (slices : List Bytes) (f : F)
        → contents f ≡ []
        → LeaveRoom 0 slices
        → length (log_bytes 0 slices) + k_header_size < 2 ^ 32
        → (f' : F) × (add_records dest slices (0, f) ≡ some (length (contents f'), f'))
          × ((g : G)
              → stored g ≡ contents f'
              → (r : Reader G) × (read_records sequential options
                    (suc (length slices))
                    (suc (length (contents f')))
                    (new_reader g)
                  ≡ some (slices, r))
                × (r.reports ≡ []))
    read_records-add_records slices f empty room small =
        let (f', e, holds) =
          add_records-log_bytes dest contents writable slices 0 f (ap length empty) room
            (omega arith) in
        let full : contents f' ≡ log_bytes 0 slices =
          holds ∙ ap (λ c. c ++ log_bytes 0 slices) empty in
        (
          f',
          e,
          λ g same.
              read_records-log_bytes sequential options stored readable good from_start slices 0
                (suc (length (contents f'))) (new_reader g)
                (record {
                  all = same ∙ full;
                  place = omega arith;
                  fits = omega arith;
                  short = omega arith;
                  at_end = λ b. cc;
                  at_edge = λ b. refl;
                })
                (omega (arith, ap length full)),
        )
