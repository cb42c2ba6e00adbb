-- ===== src/Compaction/Sees.antt =====
-- What a reader sees of an entry and of those behind it (db/db_impl.cc).
use pebblesdb.Common.{
  ℕ, ◌<◌, ◌≤◌, ◌≡◌, refl, ap, ◌∙◌, false, ◌&&◌, not, Option, none, some, List, [], ◌∷◌, Bytes,
  arith, leb, if◌then◌else◌, le→leb,
}
use pebblesdb.Comparator.{Comparator, IsOrder}
use pebblesdb.Dbformat.{ValueType, ParsedInternalKey, parse_internal_key}
use pebblesdb.DbIter.{Entry}
use pebblesdb.DbIter.Newest.{user_key_of, is_value, type_parsed, type_at, newest}
use pebblesdb.Compaction.Future.{sequence_parsed, sequence_of}
use pebblesdb.Compaction.KeyOrder.{same}

module _ (user : Comparator) (order : IsOrder user.compare) (sequence : ℕ) where
  -- What a reader sees of an entry and those behind it.
  unfoldable pub sees : Option Bytes → List Entry → List Entry
  sees = newest user sequence

  pub sees-skip :
      (p : Option Bytes) (e : Entry) (es : List Entry) (t : ValueType)
      → type_at user sequence e ≡ some t
      → (is_value t && not (same user order sequence p (user_key_of e))) ≡ false
      → sees p (e ∷ es) ≡ sees (some (user_key_of e)) es
  unfolding sees same newest
  sees-skip p e es t read skip = rw (read, skip) refl

  pub sees-unread :
      (p : Option Bytes) (e : Entry) (es : List Entry)
      → type_at user sequence e ≡ none
      → sees p (e ∷ es) ≡ sees p es
  unfolding sees newest
  sees-unread p e es unread = rw unread refl

  pub sees-read :
      (p p' : Option Bytes) (e : Entry) (es ks : List Entry) (t : ValueType)
      → type_at user sequence e ≡ some t
      → same user order sequence p (user_key_of e) ≡ same user order sequence p' (user_key_of e)
      → sees (some (user_key_of e)) ks ≡ sees (some (user_key_of e)) es
      → sees p' (e ∷ ks) ≡ sees p (e ∷ es)
  unfolding sees same newest
  sees-read p p' e es ks t read agree rest = rw (read, agree, rest) refl

  pub type_at-readable :
      (e : Entry) (ikey : ParsedInternalKey)
      → parse_internal_key e.key ≡ some ikey
      → sequence_of e ≤ sequence
      → type_at user sequence e ≡ some ikey.type
  type_at-readable e ikey parsed low =
      ap (type_parsed user sequence) parsed
      ∙ ap (λ b. if b then some ikey.type else none)
          (le→leb ikey.sequence sequence (omega (arith, low, ap sequence_parsed parsed)))

  pub type_at-unreadable :
      (e : Entry) (ikey : ParsedInternalKey)
      → parse_internal_key e.key ≡ some ikey
      → sequence < sequence_of e
      → type_at user sequence e ≡ none
  type_at-unreadable e ikey parsed high =
      ap (type_parsed user sequence) parsed
      ∙ ap (λ b. if b then some ikey.type else none)
          (above (omega (arith, high, ap sequence_parsed parsed)))
    where
      above : sequence < ikey.sequence → leb ikey.sequence sequence ≡ false
      above h = ground (arith, h)

  pub sees-nil : (p p' : Option Bytes) → sees p' [] ≡ sees p []
  unfolding sees newest
  sees-nil p p' = refl
