-- ===== src/Compaction/Step.antt =====
-- One round of a compaction, and what readers see of it (db/db_impl.cc).
use pebblesdb.Common.{
  ℕ, ◌<◌, ◌≤◌, ◌≡◌, refl, sym, ap, ◌∙◌, Bool, true, false, ◌&&◌, not, Option, some, List, ◌∷◌,
  Bytes, All, All-zip, arith, leb, if◌then◌else◌, dec_lt,
}
use pebblesdb.Comparator.{Comparator, IsOrder}
use pebblesdb.Dbformat.{
  ValueType, deletion, value, guard, ParsedInternalKey, parse_internal_key, max_sequence_number,
}
use pebblesdb.Dbformat.Keys.{parse_internal_key-user_key}
use pebblesdb.DbIter.{Entry}
use pebblesdb.DbIter.Newest.{user_key_of, is_value}
use pebblesdb.Compaction.{Locals, is_deletion, drop_parsed, round, keep_if, kept}
use pebblesdb.Compaction.Future.{
  sequence_parsed, sequence_of, Future-same, Future-hidden, hidden_drop, drop_reason,
}
use pebblesdb.Compaction.KeyOrder.{same, is_current-same, NotAbove, next_key}
use pebblesdb.Compaction.Ahead.{FutureAt, Behind, dropped-at, read-at, unread-at}
use pebblesdb.Compaction.Sees.{
  sees, sees-skip, sees-unread, sees-read, type_at-readable, type_at-unreadable,
}

module _ (user : Comparator) (order : IsOrder user.compare) (sequence smallest cutoff : ℕ)
    (readable : smallest ≤ sequence) (below : smallest < max_sequence_number) where
  -- The last sequence number that the rules go by.
  abbrev last_before : Locals → Bytes → ℕ
  last_before l u =
      if same user order sequence l.current_key u
      then l.last_sequence_for_key
      else max_sequence_number

  abbrev pub after : Locals → Entry → ParsedInternalKey → Bool × Locals
  after l e ikey = (
    (drop_parsed user smallest cutoff ikey (last_before l (user_key_of e)) l.levels).0,
    record {
      current_key = next_key user order sequence l.current_key (user_key_of e);
      last_sequence_for_key = sequence_of e;
      levels = (drop_parsed user smallest cutoff ikey (last_before l (user_key_of e)) l.levels).1;
    },
  )

  pub round-eq-after :
      (l : Locals) (e : Entry) (ikey : ParsedInternalKey)
      → parse_internal_key e.key ≡ some ikey
      → round user smallest cutoff l (parse_internal_key e.key) ≡ after l e ikey
  unfolding same
  round-eq-after l e ikey parsed =
      let here : ikey.user_key ≡ user_key_of e =
        (parse_internal_key-user_key e.key ikey parsed).0 in
      let number : ikey.sequence ≡ sequence_of e = sym (ap sequence_parsed parsed) in
      ap (round user smallest cutoff l) parsed
      ∙ ap
          (λ b. (
            (drop_parsed user smallest cutoff ikey
                (if b then l.last_sequence_for_key else max_sequence_number) l.levels).0,
            record {
              current_key = if b then l.current_key else some ikey.user_key;
              last_sequence_for_key = ikey.sequence;
              levels =
                  (drop_parsed user smallest cutoff ikey
                    (if b then l.last_sequence_for_key else max_sequence_number) l.levels).1;
            },
          ))
          (is_current-same user order sequence smallest cutoff l.current_key ikey.user_key
            ∙ ap (same user order sequence l.current_key) here)
      ∙ ap
          (λ (k : Bytes). (
            (drop_parsed user smallest cutoff ikey (last_before l (user_key_of e)) l.levels).0,
            record {
              current_key =
                  if same user order sequence l.current_key (user_key_of e)
                  then l.current_key
                  else some k;
              last_sequence_for_key = ikey.sequence;
              levels =
                  (drop_parsed user smallest cutoff ikey (last_before l (user_key_of e))
                    l.levels).1;
            },
          ))
          here
      ∙ ap
          (λ (n : ℕ). (
            (drop_parsed user smallest cutoff ikey (last_before l (user_key_of e)) l.levels).0,
            record {
              current_key = next_key user order sequence l.current_key (user_key_of e);
              last_sequence_for_key = n;
              levels =
                  (drop_parsed user smallest cutoff ikey (last_before l (user_key_of e))
                    l.levels).1;
            },
          ))
          number

  module _ (l : Locals) (p p' : Option Bytes) (e : Entry) (es : List Entry)
      (ikey : ParsedInternalKey) (parsed : parse_internal_key e.key ≡ some ikey)
      (le : NotAbove user order sequence l.current_key (user_key_of e))
      (behind : All
        (Behind user order sequence smallest l.current_key l.last_sequence_for_key p p' e le)
        es)
      (here : FutureAt user order sequence smallest l.current_key l.last_sequence_for_key p p' e)
      (future : All
        (FutureAt user order sequence smallest l.current_key l.last_sequence_for_key p p')
        es)
      (later : (q q' : Option Bytes)
        → All
            (FutureAt user order sequence smallest
              (next_key user order sequence l.current_key (user_key_of e))
              (sequence_of e)
              q
              q')
            es
        → sees user order sequence q' (kept user smallest cutoff (after l e ikey).1 es)
          ≡ sees user order sequence q es) where
    -- A dropped entry that no reader sees.
    step-dropped :
        sequence_of e ≤ smallest
        → (is_value ikey.type && not (same user order sequence p (user_key_of e))) ≡ false
        → sees user order sequence p' (kept user smallest cutoff (after l e ikey).1 es)
          ≡ sees user order sequence p (e ∷ es)
    step-dropped low skip =
        later (some (user_key_of e)) p' (
          All-zip _ _ _
            (dropped-at user order sequence smallest l.current_key l.last_sequence_for_key p p' e le
              low)
            es behind future)
        ∙ sym (
            sees-skip user order sequence p e es ikey.type
              (type_at-readable user order sequence e ikey parsed (omega arith)) skip)

    step-kept :
        (same user order sequence l.current_key (user_key_of e) ≡ true
          → leb l.last_sequence_for_key smallest ≡ false)
        → sees user order sequence p' (e ∷ kept user smallest cutoff (after l e ikey).1 es)
          ≡ sees user order sequence p (e ∷ es)
    step-kept shown = elim (dec_lt sequence (sequence_of e)) [
      | yes high ↦
          let unread = type_at-unreadable user order sequence e ikey parsed high in
          sees-unread user order sequence p' e (kept user smallest cutoff (after l e ikey).1 es)
            unread
          ∙ later p p' (
              All-zip _ _ _
                (unread-at user order sequence smallest l.current_key l.last_sequence_for_key p p' e
                  le (omega (arith, high, readable)) shown)
                es behind future)
          ∙ sym (sees-unread user order sequence p e es unread)
      | no low ↦
          sees-read user order sequence p p' e es (kept user smallest cutoff (after l e ikey).1 es)
            ikey.type (type_at-readable user order sequence e ikey parsed (omega (arith, low)))
            (Future-same smallest _ _ _ _ _ here shown)
            (later (some (user_key_of e)) (some (user_key_of e)) (
              All-zip _ _ _
                (λ y b f.
                  read-at user order sequence smallest l.current_key l.last_sequence_for_key p p' e
                    le y b)
                es behind future))
    ]

    pub step :
        sees user order sequence p'
          (keep_if user smallest cutoff (λ l'. kept user smallest cutoff l' es) e (after l e ikey))
        ≡ sees user order sequence p (e ∷ es)
    step =
        by_case (same user order sequence l.current_key (user_key_of e)) refl
          (leb (last_before l (user_key_of e)) smallest) refl (after l e ikey).0 refl
      where
        not_shown :
            (t : ValueType) (b : Bool) → is_deletion t ≡ true → (is_value t && not b) ≡ false
        not_shown deletion b e = refl
        not_shown value b e = cc
        not_shown guard b e = refl

        no_value : (b : Bool) → (b && false) ≡ false
        no_value true = refl
        no_value false = refl

        never : smallest < max_sequence_number → leb max_sequence_number smallest ≡ false
        never h = ground arith

        by_case :
            (c : Bool)
            → same user order sequence l.current_key (user_key_of e) ≡ c
            → (h : Bool) → leb (last_before l (user_key_of e)) smallest ≡ h
            → (d : Bool) → (after l e ikey).0 ≡ d
            → sees user order sequence p' (
                keep_if user smallest cutoff
                  (λ l'. kept user smallest cutoff l' es)
                  e
                  (d, (after l e ikey).1))
              ≡ sees user order sequence p (e ∷ es)
        by_case c ce true he false de =
            let bad : false ≡ true =
              sym de
              ∙ hidden_drop smallest user cutoff below ikey (last_before l (user_key_of e)) l.levels
                  he in
            cc
        by_case false ce true he true de =
            let bad : true ≡ false =
              sym he
              ∙ ap (λ b. leb (if b then l.last_sequence_for_key else max_sequence_number) smallest)
                  ce
              ∙ never below in
            cc
        by_case true ce true he true de =
            let old =
              sym (
                ap (λ b. leb (if b then l.last_sequence_for_key else max_sequence_number) smallest)
                  ce)
              ∙ he in
            let (seen, low) = Future-hidden smallest _ _ _ _ _ here ce old in
            step-dropped low (rw seen (no_value (is_value ikey.type)))
        by_case c ce false he true de =
            let (deleted, low) =
              drop_reason smallest user cutoff below ikey (last_before l (user_key_of e)) l.levels
                he de in
            step-dropped (omega (arith, low, ap sequence_parsed parsed))
              (not_shown ikey.type (same user order sequence p (user_key_of e)) deleted)
        by_case c ce false he false de = step-kept (λ now.
            sym (
              ap (λ b. leb (if b then l.last_sequence_for_key else max_sequence_number) smallest)
                now)
            ∙ he)
