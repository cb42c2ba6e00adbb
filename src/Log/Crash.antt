-- ===== src/Log/Crash.antt =====
-- ReadRecord at a record whose last bytes are missing (db/log_reader.cc).
use pebblesdb.Common.{
  ℕ, zero, suc, ◌+◌, ◌-◌, ◌<◌, ◌≤◌, ◌≡◌, refl, sym, ap, ◌∙◌, ◌⊎◌, inl, inr, Bool, true, false,
  Option, none, some, [], ◌∷◌, ◌++◌, Bytes, arith, ltb, ◌==◌, if◌then◌else◌, length, take, drop,
  append_assoc, append-split, length-append, length-take, length-drop, subst, dec_lt, append-nil,
  drop_short,
}
use pebblesdb.Crc32c.{IsExtend}
use pebblesdb.Log.{RecordType, record_type_code, k_header_size, SequentialFile, IsReadable}
use pebblesdb.Log.Writer.{fragment_type}
use pebblesdb.Log.Layout.{
  physical, leftover_at, trailer, aligned, share, fragment_at, fragments, fragments-nil,
  record_bytes,
}
use pebblesdb.Log.Position.{At}
use pebblesdb.Log.Truncated.{cut_physical}
use pebblesdb.Log.Fragments.{next_fragment, from_loop}
use pebblesdb.Log.Reader.{Reader, Options, read_physical_record, k_eof}
use pebblesdb.Log.ReadRecord.{Returned, read_loop, read_record, on_record}

module _ (extend : ℕ → Bytes → ℕ) {F : Type 0} (sequential : SequentialFile F) (options : Options)
    (contents : F → Bytes) (readable : IsReadable sequential contents) (good : IsExtend extend)
    (from_start : options.initial_offset ≡ 0) where
  -- The next fragment is cut, or it is read and what is behind it is cut.
  abbrev pub CutHere : Reader F → ℕ × Bytes × Reader F → Type 0
  CutHere r got = (r' : Reader F) × (got ≡ (k_eof, [], r')) × (r'.reports ≡ r.reports)

  abbrev pub CutBehind :
      RecordType → Bytes → ℕ → Bytes → Bytes → Reader F → ℕ × Bytes × Reader F → Type 0
  CutBehind t ptr o lost next r got =
      (p : Bytes) × (r' : Reader F) × (got ≡ (record_type_code t, ptr, r'))
      × At contents r' o p
      × (p ++ lost ≡ next)
      × (r'.reports ≡ r.reports)

  cut_turn :
      (next : ℕ → Bytes → Bytes) (begin : Bool) (o : ℕ) (ptr p lost : Bytes) (r : Reader F)
      → At contents r o p
      → p ++ lost ≡ trailer o ++ fragment_at extend next begin (aligned o) ptr
      → 0 < length lost
      → let n = share (aligned o) ptr in
        let o' = aligned o + k_header_size + n in
        CutHere r (read_physical_record extend sequential options r)
        ⊎ CutBehind
            (fragment_type begin (length ptr == n))
            (take n ptr)
            o'
            lost
            (next o' (drop n ptr))
            r
            (read_physical_record extend sequential options r)
  cut_turn next begin o ptr p lost r at e cut =
      let n = share (aligned o) ptr in
      let o' = aligned o + k_header_size + n in
      let type = fragment_type begin (length ptr == n) in
      let here = trailer o ++ physical extend type (take n ptr) in
      let behind = next o' (drop n ptr) in
      let whole : p ++ lost ≡ here ++ behind =
        e ∙ sym (append_assoc (trailer o) (physical extend type (take n ptr)) behind) in
      let size : length (take n ptr) ≡ n = length-take n ptr (ground arith) in
      elim (dec_lt (length p) (length here)) [
        | yes inside ↦
            let (head, tail) = append-split here behind p lost (sym whole) (lt→le inside) in
            inl (
              cut_physical extend sequential options contents readable good from_start type
                (take n ptr) p (drop (length p) here) o r at (sym head)
                (left_positive (length-drop (length p) here) inside) (fits_lem (length ptr) size))
        | no covered ↦
            let (head, tail) = append-split p lost here behind whole (not-lt covered) in
            let p' = drop (length here) p in
            let (r', got, at', quiet) =
              next_fragment extend sequential options contents readable good from_start (λ x y. p')
                begin o ptr [] r
                (subst (At contents r o)
                  (head
                    ∙ append_assoc (trailer o) (physical extend type (take n ptr)) p'
                    ∙ sym (append-nil (trailer o ++ (physical extend type (take n ptr) ++ p'))))
                  at) in
            inr (p', r', got, subst (At contents r' o') (append-nil p') at', tail, quiet)
      ]
    where
      lt→le : {a b : ℕ} → a < b → a ≤ b
      lt→le h = omega arith

      not-lt : {a b : ℕ} → ¬ (a < b) → b ≤ a
      not-lt h = omega arith

      left_positive : {a b c : ℕ} → c ≡ b - a → a < b → 0 < c
      left_positive e h = omega arith

      fits_lem :
          (l : ℕ) {m : ℕ}
          → m ≡ (
              let avail = leftover_at (aligned o) - k_header_size in
              if ltb l avail then l else avail)
          → k_header_size + m ≤ leftover_at (aligned o)
      fits_lem l h = ground arith

  -- ReadRecord returns false, and nothing new is told to the reporter.
  abbrev pub ReadsNone : Reader F → Option (Returned extend sequential options) → Type 0
  ReadsNone r o = (r' : Reader F) × (o ≡ some (none, r')) × (r'.reports ≡ r.reports)

  empty_cut :
      (p lost : Bytes) (next : Bytes → Bytes) (n : ℕ) (ptr : Bytes)
      → next [] ≡ []
      → (length ptr == n) ≡ true
      → p ++ lost ≡ next (drop n ptr)
      → 0 < length lost
      → ⊥
  empty_cut p lost next n ptr none_ e cut lt =
      let gone = cut ∙ ap next (drop_short n ptr (ground (arith, e))) ∙ none_ in
      omega (arith, lt, ap length gone, length-append p lost)

  cut_rest :
      (k n o pros : ℕ) (scratch ptr p lost : Bytes) (r : Reader F)
      → k ≤ n
      → At contents r o p
      → p ++ lost ≡ fragments extend k o ptr
      → 0 < length lost
      → ReadsNone r (read_loop extend sequential options n true pros scratch r)
  unfolding read_loop on_record
  cut_rest zero n o pros scratch ptr p lost r le at e lt =
      absurd (omega (arith, ap length e, length-append p lost))
  cut_rest (suc k) n o pros scratch [] p lost r le at e lt =
      absurd (omega (arith, ap length e, length-append p lost))
  cut_rest (suc k) zero o pros scratch (b ∷ bs) p lost r le at e lt = absurd (omega arith)
  cut_rest (suc k) (suc n) o pros scratch (b ∷ bs) p lost r le at e lt =
      elim (cut_turn (fragments extend k) false o (b ∷ bs) p lost r at e lt) [
        | inl (r', got, quiet) ↦ (r', rw got refl, quiet)
        | inr (p', r', got, at', tail, quiet) ↦
            let m = share (aligned o) (b ∷ bs) in
            rw got (
              by_case _ m p' r' quiet tail
                (cut_rest k n (aligned o + k_header_size + m) pros (scratch ++ take m (b ∷ bs))
                  (drop m (b ∷ bs)) p' lost r' (omega arith) at' tail lt)
                (length (b ∷ bs) == m) refl)
      ]
    where
      by_case :
          (off m : ℕ) (p' : Bytes) (r' : Reader F)
          → r'.reports ≡ r.reports
          → p' ++ lost ≡ fragments extend k (aligned o + k_header_size + m) (drop m (b ∷ bs))
          → ReadsNone r'
              (read_loop extend sequential options n true pros (scratch ++ take m (b ∷ bs)) r')
          → (end : Bool) → (length (b ∷ bs) == m) ≡ end
          → ReadsNone r (
              on_record extend sequential options
                (read_loop extend sequential options n)
                true
                pros
                scratch
                off
                (record_type_code (fragment_type false end), take m (b ∷ bs), r'))
      by_case off m p' r' quiet tail later true e' = absurd (
          empty_cut p' lost (fragments extend k (aligned o + k_header_size + m)) m (b ∷ bs)
            (fragments-nil extend k _) e' tail lt)
      by_case off m p' r' quiet tail (r'', e'', quiet') false e' = (r'', e'', quiet' ∙ quiet)

  -- A file that ends in the middle of a record, as it is when its writer dies, ends there for
  -- ReadRecord too: it returns false, without a report, wherever the record is cut, and length + 2
  -- rounds are enough.
  pub read_record-cut :
      (n o : ℕ) (slice p lost : Bytes) (r : Reader F)
      → suc (suc (length slice)) ≤ n
      → At contents r o p
      → p ++ lost ≡ record_bytes extend (suc (length slice)) o slice
      → 0 < length lost
      → ReadsNone r (read_record extend sequential options n r)
  unfolding read_loop on_record
  read_record-cut zero o slice p lost r enough at e lt = absurd (omega arith)
  read_record-cut (suc n) o slice p lost r enough at e lt =
      let k = suc (length slice) in
      rw (from_loop extend sequential options contents readable good from_start (suc n) r)
        (elim (cut_turn (fragments extend k) true o slice p lost r at e lt) [
          | inl (r', got, quiet) ↦ (r', rw got refl, quiet)
          | inr (p', r', got, at', tail, quiet) ↦
              let m = share (aligned o) slice in
              let o' = aligned o + k_header_size + m in
              rw got (
                by_case k _ m p' r' quiet tail
                  (λ off.
                    cut_rest k n o' off (take m slice) (drop m slice) p' lost r' (omega arith) at'
                      tail lt)
                  (length slice == m) refl)
        ])
    where
      by_case :
          (k off m : ℕ) (p' : Bytes) (r' : Reader F)
          → r'.reports ≡ r.reports
          → p' ++ lost ≡ fragments extend k (aligned o + k_header_size + m) (drop m slice)
          → ((off' : ℕ)
              → ReadsNone r' (read_loop extend sequential options n true off' (take m slice) r'))
          → (end : Bool) → (length slice == m) ≡ end
          → ReadsNone r (
              on_record extend sequential options
                (read_loop extend sequential options n)
                false
                0
                []
                off
                (record_type_code (fragment_type true end), take m slice, r'))
      by_case k off m p' r' quiet tail later true e' = absurd (
          empty_cut p' lost (fragments extend k (aligned o + k_header_size + m)) m slice
            (fragments-nil extend k _) e' tail lt)
      by_case k off m p' r' quiet tail later false e' =
          let (r'', e'', quiet') = later off in (r'', e'', quiet' ∙ quiet)
