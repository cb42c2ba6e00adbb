-- ===== src/Log/RoundTrip.antt =====
-- ReadRecord on what AddRecord wrote (db/log_reader.cc, db/log_writer.cc).
use pebblesdb.Common.{
  ℕ, zero, suc, ◌+◌, ◌<◌, ◌≤◌, ◌≡◌, ◌≢◌, refl, sym, ap, ◌∙◌, Bool, true, false, Option, none, some,
  [], ◌∷◌, ◌++◌, Bytes, arith, ◌==◌, length, take, drop, append_assoc, append-nil, take-append-drop,
  subst, drop_short, drop-cons,
}
use pebblesdb.Crc32c.{IsExtend}
use pebblesdb.Log.{record_type_code, k_header_size, SequentialFile, IsReadable}
use pebblesdb.Log.Writer.{fragment_type}
use pebblesdb.Log.Layout.{aligned, share, fragments, fragments-nil, record_bytes, Lasts, Lasts-rest}
use pebblesdb.Log.Extent.{length-turn}
use pebblesdb.Log.Position.{At}
use pebblesdb.Log.NextPhysical.{read_physical_record-nil}
use pebblesdb.Log.Reader.{Reader, Options}
use pebblesdb.Log.ReadRecord.{Returned, on_record, read_loop, read_record}
use pebblesdb.Log.Fragments.{At-last, next_fragment, from_loop}

module _ (extend : ℕ → Bytes → ℕ) {F : Type 0} (sequential : SequentialFile F) (options : Options)
    (contents : F → Bytes) (readable : IsReadable sequential contents) (good : IsExtend extend)
    (from_start : options.initial_offset ≡ 0) where
  -- What a call returns: the record, with the reader behind its bytes, and nothing new told.
  abbrev pub Gives :
      Reader F → ℕ → Bytes → Bytes → Option (Returned extend sequential options) → Type 0
  Gives r end slice rest o =
      (r' : Reader F) × (o ≡ some (some slice, r'))
      × At contents r' end rest
      × (r'.reports ≡ r.reports)

  -- What is behind the last fragment of a payload is nothing of this record.
  At-rest :
      (r : Reader F) (o m : ℕ) (ptr rest : Bytes) (next : Bytes → Bytes)
      → next [] ≡ []
      → (length ptr == m) ≡ true
      → At contents r o (next (drop m ptr) ++ rest)
      → At contents r (o + length (next (drop m ptr))) rest × (take m ptr ≡ ptr)
  At-rest r o m ptr rest next none_ e at =
      let gone : drop m ptr ≡ [] = drop_short m ptr (ground (arith, e)) in
      let behind : next (drop m ptr) ≡ [] = ap next gone ∙ none_ in
      (
        rw behind (
            subst (λ p. At contents r p rest) (omega arith)
              (subst (λ b. At contents r o (b ++ rest)) behind at)),
        sym (append-nil (take m ptr))
            ∙ ap (λ d. take m ptr ++ d) (sym gone)
            ∙ take-append-drop m ptr,
      )

  -- The switch on a fragment that is not the first.
  after_fragment :
      (n pros off o m : ℕ) (scratch ptr rest : Bytes) (next : Bytes → Bytes) (r : Reader F)
      → next [] ≡ []
      → m ≤ length ptr
      → At contents r o (next (drop m ptr) ++ rest)
      → (m < length ptr
          → Gives r
              (o + length (next (drop m ptr)))
              ((scratch ++ take m ptr) ++ drop m ptr)
              rest
              (read_loop extend sequential options n true pros (scratch ++ take m ptr) r))
      → (end : Bool) → (length ptr == m) ≡ end
      → Gives r (o + length (next (drop m ptr))) (scratch ++ ptr) rest (
          on_record extend sequential options
            (read_loop extend sequential options n)
            true
            pros
            scratch
            off
            (record_type_code (fragment_type false end), take m ptr, r))
  unfolding on_record
  after_fragment n pros off o m scratch ptr rest next r none_ le at more true e =
      let (there, all) = At-rest r o m ptr rest next none_ e at in
      (
        record r { last_record_offset = pros },
        ap (λ b. some (some (scratch ++ b), record r { last_record_offset = pros })) all,
        At-last extend sequential options contents readable good from_start r
            (o + length (next (drop m ptr))) pros rest there,
        refl,
      )
  after_fragment n pros off o m scratch ptr rest next r none_ le at more false e =
      subst
        (λ b.
          Gives r (o + length (next (drop m ptr))) b rest
            (read_loop extend sequential options n true pros (scratch ++ take m ptr) r))
        (append_assoc scratch (take m ptr) (drop m ptr)
          ∙ ap (λ b. scratch ++ b) (take-append-drop m ptr))
        (more (ground (arith, e)))

  -- The switch on the first fragment.
  after_first :
      (n off o m : ℕ) (ptr rest : Bytes) (next : Bytes → Bytes) (r : Reader F)
      → next [] ≡ []
      → m ≤ length ptr
      → At contents r o (next (drop m ptr) ++ rest)
      → (m < length ptr
          → Gives r
              (o + length (next (drop m ptr)))
              (take m ptr ++ drop m ptr)
              rest
              (read_loop extend sequential options n true off (take m ptr) r))
      → (end : Bool) → (length ptr == m) ≡ end
      → Gives r (o + length (next (drop m ptr))) ptr rest (
          on_record extend sequential options
            (read_loop extend sequential options n)
            false
            0
            []
            off
            (record_type_code (fragment_type true end), take m ptr, r))
  unfolding on_record
  after_first n off o m ptr rest next r none_ le at more true e =
      let (there, all) = At-rest r o m ptr rest next none_ e at in
      (
        record r { last_record_offset = off },
        ap (λ b. some (some b, record r { last_record_offset = off })) all,
        At-last extend sequential options contents readable good from_start r
            (o + length (next (drop m ptr))) off rest there,
        refl,
      )
  after_first n off o m ptr rest next r none_ le at more false e =
      subst
        (λ b.
          Gives r (o + length (next (drop m ptr))) b rest
            (read_loop extend sequential options n true off (take m ptr) r))
        (take-append-drop m ptr) (more (ground (arith, e)))

  Gives-told :
      (r r' : Reader F) (end end' : ℕ) (slice rest : Bytes)
      (o : Option (Returned extend sequential options))
      → r'.reports ≡ r.reports
      → end' ≡ end
      → Gives r' end' slice rest o
      → Gives r end slice rest o
  Gives-told r r' end end' slice rest o told same (r'', e, at, quiet) =
      (r'', e, subst (λ p. At contents r'' p rest) same at, quiet ∙ told)

  -- The rest of a record, once its first fragment was read.
  continue_lem :
      (k n o pros : ℕ) (scratch ptr rest : Bytes) (r : Reader F)
      → k ≤ n
      → ptr ≢ []
      → Lasts k o ptr
      → At contents r o (fragments extend k o ptr ++ rest)
      → Gives r
          (o + length (fragments extend k o ptr))
          (scratch ++ ptr)
          rest
          (read_loop extend sequential options n true pros scratch r)
  unfolding read_loop
  continue_lem k n o pros scratch [] rest r more some_ lasts at = absurd (some_ refl)
  continue_lem zero n o pros scratch (b ∷ bs) rest r more some_ lasts at = absurd (omega arith)
  continue_lem (suc k) zero o pros scratch (b ∷ bs) rest r more some_ lasts at =
      absurd (omega arith)
  continue_lem (suc k) (suc n) o pros scratch (b ∷ bs) rest r more some_ lasts at =
      let m = share (aligned o) (b ∷ bs) in
      let o' = aligned o + k_header_size + m in
      let (r', e, at', quiet) =
        next_fragment extend sequential options contents readable good from_start
          (fragments extend k) false o (b ∷ bs) rest r at in
      rw e (
        Gives-told r r' _ _ (scratch ++ b ∷ bs) rest _ quiet
          (sym (length-turn extend (fragments extend k) false o (b ∷ bs)))
          (after_fragment n pros _ o' m scratch (b ∷ bs) rest (fragments extend k o') r'
            (fragments-nil extend k o') (ground arith) at'
            (λ lt.
              continue_lem k n o' pros (scratch ++ take m (b ∷ bs)) (drop m (b ∷ bs)) rest r'
                (omega arith) (drop-cons m (b ∷ bs) lt) (Lasts-rest k o (b ∷ bs) lasts lt) at')
            (length (b ∷ bs) == m) refl))

  -- ReadRecord returns the record that AddRecord wrote at the reader's place and stands behind it,
  -- nothing is told to the reporter, and length + 2 rounds are enough.
  pub read_record-record_bytes :
      (n o : ℕ) (slice rest : Bytes) (r : Reader F)
      → suc (suc (length slice)) ≤ n
      → At contents r o (record_bytes extend (suc (length slice)) o slice ++ rest)
      → Gives r
          (o + length (record_bytes extend (suc (length slice)) o slice))
          slice
          rest
          (read_record extend sequential options n r)
  unfolding read_loop
  read_record-record_bytes zero o slice rest r more at = absurd (omega arith)
  read_record-record_bytes (suc n) o slice rest r more at =
      let k = suc (length slice) in
      let m = share (aligned o) slice in
      let o' = aligned o + k_header_size + m in
      let (r', e, at', quiet) =
        next_fragment extend sequential options contents readable good from_start
          (fragments extend k) true o slice rest r at in
      rw (from_loop extend sequential options contents readable good from_start (suc n) r, e)
        (Gives-told r r' _ _ slice rest _ quiet
          (sym (length-turn extend (fragments extend k) true o slice))
          (after_first n _ o' m slice rest (fragments extend k o') r' (fragments-nil extend k o')
            (ground arith) at'
            (λ lt.
              continue_lem k n o' _ (take m slice) (drop m slice) rest r' (omega arith)
                (drop-cons m slice lt) (Lasts-rest k o slice (ground arith) lt) at')
            (length slice == m) refl))

  -- At the end of the file ReadRecord returns false, and nothing is told.
  pub read_record-nil :
      (n o : ℕ) (r : Reader F)
      → At contents r o []
      → (r' : Reader F) × (read_record extend sequential options (suc n) r ≡ some (none, r'))
        × (r'.reports ≡ r.reports)
  unfolding read_loop on_record
  read_record-nil n o r at =
      let (r', e, quiet) =
        read_physical_record-nil extend sequential options contents readable good from_start r o
          at in
      (
        r',
        from_loop extend sequential options contents readable good from_start (suc n) r ∙ rw e refl,
        quiet,
      )
