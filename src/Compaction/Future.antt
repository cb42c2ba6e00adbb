-- ===== src/Compaction/Future.antt =====
-- What the rules of a compaction say of the entries to come (db/db_impl.cc).
use pebblesdb.Common.{
  ℕ, ◌<◌, ◌≤◌, ◌≡◌, refl, sym, ◌∙◌, subst, Bool, true, false, ◌&&◌, not, Option, none, some, List,
  [], ◌∷◌, All, arith, leb, ◌==◌, leb→le,
}
use pebblesdb.Comparator.{Comparator}
use pebblesdb.Dbformat.{ParsedInternalKey, parse_internal_key, max_sequence_number}
use pebblesdb.DbIter.{Entry}
use pebblesdb.DbIter.Newest.{user_key_of, same_key, NotBelow}
use pebblesdb.Compaction.{Levels, is_deletion, drop_by, drop_parsed, is_base_level_for_key}

abbrev pub sequence_parsed : Option ParsedInternalKey → ℕ
sequence_parsed none = 0
sequence_parsed (some ikey) = ikey.sequence

abbrev pub sequence_of : Entry → ℕ
sequence_of e = sequence_parsed (parse_internal_key e.key)

-- Every key is well formed.
abbrev pub IsParsed : Entry → Type 0
IsParsed e = (ikey : ParsedInternalKey) × (parse_internal_key e.key ≡ some ikey)

module _ (user : Comparator) (sequence : ℕ) where
  -- Entries in the order of their internal keys: user keys do not decrease, and the sequence numbers
  -- of one user key do not increase.
  abbrev pub IsInternal : List Entry → Type 0
  IsInternal [] = Unit
  IsInternal (e ∷ es) =
      NotBelow user sequence (user_key_of e) es
      × All
          (λ y.
            same_key user sequence (some (user_key_of e)) (user_key_of y) ≡ true
            → sequence_of y ≤ sequence_of e)
          es
      × IsInternal es

-- What is known of an entry to come: `c` says whether its user key is the current one, `h` whether
-- the current one is hidden from all snapshots, and `p` and `p'` whether it was the last one to be read
-- among all entries and among those kept.
module _ (smallest : ℕ) where
  abbrev pub Future : Bool → Bool → Bool → Bool → ℕ → Type 0
  Future false h p p' q = (p ≡ false) × (p' ≡ false)
  Future true true p p' q = (p ≡ true) × (q ≤ smallest)
  Future true false p p' q = p ≡ p'

  pub Future-other :
      (c h p p' : Bool) (q : ℕ) → Future c h p p' q → c ≡ false → (p ≡ false) × (p' ≡ false)
  Future-other false h p p' q f e = f
  Future-other true h p p' q f e = cc

  pub Future-same : (c h p p' : Bool) (q : ℕ) → Future c h p p' q → (c ≡ true → h ≡ false) → p ≡ p'
  Future-same false h p p' q f e = f.0 ∙ sym f.1
  Future-same true true p p' q f e = let bad : true ≡ false = e refl in cc
  Future-same true false p p' q f e = f

  pub Future-hidden :
      (c h p p' : Bool) (q : ℕ)
      → Future c h p p' q
      → c ≡ true
      → h ≡ true
      → (p ≡ true) × (q ≤ smallest)
  Future-hidden true true p p' q f e e' = f
  Future-hidden true false p p' q f e e' = cc
  Future-hidden false h p p' q f e e' = cc

  -- The entry was dropped: its user key is hidden from now on.
  pub dropped-Future :
      (c p' : Bool) (q : ℕ)
      → (c ≡ false → p' ≡ false)
      → (c ≡ true → q ≤ smallest)
      → Future c true c p' q
  dropped-Future false p' q other same = (refl, other refl)
  dropped-Future true p' q other same = (refl, same refl)

  -- The entry was kept and can be read.
  pub read-Future : (c h : Bool) (q : ℕ) → (c ≡ true → h ≡ true → q ≤ smallest) → Future c h c c q
  read-Future false h q same = (refl, refl)
  read-Future true true q same = (refl, same refl refl)
  read-Future true false q same = refl

  -- The entry was kept and cannot be read.
  pub unread-Future :
      (c p p' : Bool) (q : ℕ)
      → (c ≡ false → (p ≡ false) × (p' ≡ false))
      → p ≡ p'
      → Future c false p p' q
  unread-Future false p p' q other same = other refl
  unread-Future true p p' q other same = same

  -- What the rules decide.
  module _ (user : Comparator) (cutoff : ℕ) (below : smallest < max_sequence_number) where
    pub hidden_drop :
        (ikey : ParsedInternalKey) (last : ℕ) (levels : Levels)
        → leb last smallest ≡ true
        → (drop_parsed user smallest cutoff ikey last levels).0 ≡ true
    unfolding drop_parsed
    hidden_drop ikey last levels h = rw (h, not_first last h) refl
      where
        not_first : (last : ℕ) → leb last smallest ≡ true → (last == max_sequence_number) ≡ false
        not_first last h = ground (arith, h)

    pub drop_reason :
        (ikey : ParsedInternalKey) (last : ℕ) (levels : Levels)
        → leb last smallest ≡ false
        → (drop_parsed user smallest cutoff ikey last levels).0 ≡ true
        → (is_deletion ikey.type ≡ true) × (ikey.sequence ≤ smallest)
    unfolding drop_parsed
    drop_reason ikey last levels h d =
        by_case (is_deletion ikey.type) (leb ikey.sequence smallest) refl (
          subst
            (λ b.
              ((drop_by user smallest cutoff b (is_deletion ikey.type && leb ikey.sequence smallest)
                  (is_base_level_for_key user ikey.user_key levels) levels).0
                && not ((last == max_sequence_number) && leb cutoff ikey.sequence))
              ≡ true)
            h d)
      where
        by_case :
            (del low : Bool)
            → leb ikey.sequence smallest ≡ low
            → ((drop_by user smallest cutoff false
                  (del && low)
                  (is_base_level_for_key user ikey.user_key levels)
                  levels).0
                && not ((last == max_sequence_number) && leb cutoff ikey.sequence))
              ≡ true
            → (del ≡ true) × (ikey.sequence ≤ smallest)
        by_case true true e d = (refl, leb→le ikey.sequence smallest e)
        by_case true false e d = cc
        by_case false low e d = cc
