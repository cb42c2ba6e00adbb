-- ===== src/Log/Fragments.antt =====
-- One fragment of a record (db/log_reader.cc).
use pebblesdb.Common.{
  ℕ, ◌+◌, ◌<◌, ◌≡◌, ap, ◌∙◌, Bool, true, false, [], ◌++◌, Bytes, arith, ◌==◌, length, take, drop,
  append_assoc, length-take, subst,
}
use pebblesdb.Crc32c.{IsExtend}
use pebblesdb.Log.{record_type_code, k_header_size, SequentialFile, IsReadable}
use pebblesdb.Log.Writer.{fragment_type}
use pebblesdb.Log.Layout.{physical, trailer, aligned, share, fragment_at}
use pebblesdb.Log.Position.{At}
use pebblesdb.Log.NextPhysical.{next_physical}
use pebblesdb.Log.Reader.{Reader, Options, read_physical_record}
use pebblesdb.Log.ReadRecord.{read_loop, read_record}

module _ (extend : ℕ → Bytes → ℕ) {F : Type 0} (sequential : SequentialFile F) (options : Options)
    (contents : F → Bytes) (readable : IsReadable sequential contents) (good : IsExtend extend)
    (from_start : options.initial_offset ≡ 0) where
  pub At-last :
      (r : Reader F) (o last : ℕ) (p : Bytes)
      → At contents r o p
      → At contents (record r { last_record_offset = last }) o p
  At-last r o last p at = record {
    all = at.all;
    place = at.place;
    fits = at.fits;
    short = at.short;
    at_end = at.at_end;
    at_edge = at.at_edge;
  }

  pub fragment_type-used : (begin end : Bool) → 0 < record_type_code (fragment_type begin end)
  fragment_type-used true true = omega arith
  fragment_type-used true false = omega arith
  fragment_type-used false true = omega arith
  fragment_type-used false false = omega arith

  -- The next fragment is read, and the rest of the record is still to come.
  pub next_fragment :
      (next : ℕ → Bytes → Bytes) (begin : Bool) (o : ℕ) (ptr rest : Bytes) (r : Reader F)
      → At contents r o ((trailer o ++ fragment_at extend next begin (aligned o) ptr) ++ rest)
      → let n = share (aligned o) ptr in
        let o' = aligned o + k_header_size + n in
        (r' : Reader F) × (read_physical_record extend sequential options r
          ≡ (record_type_code (fragment_type begin (length ptr == n)), take n ptr, r'))
        × At contents r' o' (next o' (drop n ptr) ++ rest)
        × (r'.reports ≡ r.reports)
  next_fragment next begin o ptr rest r at =
      let n = share (aligned o) ptr in
      let o' = aligned o + k_header_size + n in
      let behind = next o' (drop n ptr) in
      let type = fragment_type begin (length ptr == n) in
      let record_ = physical extend type (take n ptr) in
      let size : length (take n ptr) ≡ n = length-take n ptr (ground arith) in
      let (r', e, at', quiet) =
        next_physical extend sequential options contents readable good from_start type (take n ptr)
          (behind ++ rest) o r
          (subst (At contents r o)
            (append_assoc (trailer o) (record_ ++ behind) rest
              ∙ ap (λ b. trailer o ++ b) (append_assoc record_ behind rest))
            at)
          (ground (arith, size)) (fragment_type-used begin (length ptr == n)) in
      (
        r',
        e,
        subst (λ m. At contents r' (aligned o + k_header_size + m) (behind ++ rest)) size at',
        quiet,
      )

  -- From the start of the file on there is nothing to skip.
  pub from_loop :
      (n : ℕ) (r : Reader F)
      → read_record extend sequential options n r
        ≡ read_loop extend sequential options n false 0 [] r
  unfolding read_record
  from_loop n r = simp from_start (ground arith)
