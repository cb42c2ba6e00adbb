-- ===== src/Dbformat/KeyOrder.antt =====
-- The order of internal keys.
use Prim.Native.Nat.{compare, Ordering}
use pebblesdb.Common.{
  ℕ, ◌+◌, ◌*◌, ◌^◌, ◌<◌, ◌≤◌, ◌≡◌, ap, ◌∙◌, [], Bytes, arith, ltb, if◌then◌else◌,
}
use pebblesdb.Comparator.{Comparator, IsOrder, or_else, reverse_order}
use pebblesdb.Dbformat.{
  type_code, ValueType, deletion, value, guard, ParsedInternalKey, append_internal_key,
  max_sequence_number, extract_user_key, internal_compare,
}
use pebblesdb.Dbformat.Keys.{
  tagged, extract_user_key-tagged, extract_tag-tagged, append_internal_key-eq-tagged, pack-eq-sum,
  tag_bound,
}

-- The comparison of tags, in decreasing order.
abbrev by_tag : ℕ → ℕ → Ordering
by_tag anum bnum =
    if ltb bnum anum then Ordering.lt else if ltb anum bnum then Ordering.gt else Ordering.eq

type_code_bound : (t : ValueType) → type_code t < 3
type_code_bound deletion = omega arith
type_code_bound value = omega arith
type_code_bound guard = omega arith

-- A tag orders by sequence number first, then by type.
by_tag_fields :
    (s s' : ℕ) (t t' : ValueType)
    → by_tag (s * 256 + type_code t) (s' * 256 + type_code t')
      ≡ or_else (compare s' s) (compare (type_code t') (type_code t))
by_tag_fields s s' t t' = ground (arith, type_code_bound t, type_code_bound t')

module _ (user : Comparator) where
  internal_compare-tagged :
      (u u' : Bytes) (tag tag' : ℕ)
      → tag < 2 ^ 64
      → tag' < 2 ^ 64
      → internal_compare user (tagged u tag) (tagged u' tag')
        ≡ or_else (user.compare u u') (by_tag tag tag')
  unfolding internal_compare
  internal_compare-tagged u u' tag tag' h h' = rw (
    extract_user_key-tagged u tag,
    extract_user_key-tagged u' tag',
    extract_tag-tagged u tag h,
    extract_tag-tagged u' tag' h',
  )

  -- On the keys that AppendInternalKey writes: increasing user keys, then decreasing sequence
  -- numbers, then decreasing types.
  pub internal_compare-append :
      (a b : ParsedInternalKey)
      → a.sequence ≤ max_sequence_number
      → b.sequence ≤ max_sequence_number
      → internal_compare user (append_internal_key [] a) (append_internal_key [] b)
        ≡ or_else (user.compare a.user_key b.user_key) (
            or_else (compare b.sequence a.sequence) (compare (type_code b.type) (type_code a.type)))
  internal_compare-append a b ha hb =
      rw
        (
          append_internal_key-eq-tagged a,
          append_internal_key-eq-tagged b,
          pack-eq-sum a.sequence a.type ha,
          pack-eq-sum b.sequence b.type hb,
        )
        (internal_compare-tagged a.user_key b.user_key (a.sequence * 256 + type_code a.type)
            (b.sequence * 256 + type_code b.type) (tag_bound a.sequence a.type ha)
            (tag_bound b.sequence b.type hb)
          ∙ ap (or_else (user.compare a.user_key b.user_key))
              (by_tag_fields a.sequence b.sequence a.type b.type))

  module _ (order : IsOrder user.compare) where
    internal_flip :
        (a b : Bytes) → internal_compare user b a ≡ reverse_order (internal_compare user a b)
    unfolding internal_compare
    internal_flip a b = ground (arith, order.flip (extract_user_key a) (extract_user_key b))

    internal_eq_left :
        (a b c : Bytes)
        → internal_compare user a b ≡ Ordering.eq
        → internal_compare user a c ≡ internal_compare user b c
    unfolding internal_compare
    internal_eq_left a b c h =
        ground (arith, order.eq_left (extract_user_key a) (extract_user_key b) (extract_user_key c))

    internal_trans :
        (a b c : Bytes)
        → internal_compare user a b ≡ Ordering.lt
        → internal_compare user b c ≡ Ordering.lt
        → internal_compare user a c ≡ Ordering.lt
    unfolding internal_compare
    internal_trans a b c h k = ground (
      arith,
      order.eq_left (extract_user_key a) (extract_user_key b) (extract_user_key c),
      order.eq_left (extract_user_key c) (extract_user_key b) (extract_user_key a),
      order.flip (extract_user_key b) (extract_user_key c),
      order.flip (extract_user_key a) (extract_user_key b),
      order.flip (extract_user_key a) (extract_user_key c),
      order.trans (extract_user_key a) (extract_user_key b) (extract_user_key c),
    )

    -- InternalKeyComparator is a total order whenever the user's comparator is one.
    pub internal_compare-IsOrder : IsOrder (internal_compare user)
    internal_compare-IsOrder = record {
      flip = internal_flip;
      eq_left = internal_eq_left;
      trans = internal_trans;
    }
