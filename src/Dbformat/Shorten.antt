-- ===== src/Dbformat/Shorten.antt =====
-- Shortening internal keys, which the index blocks of a table rely on.
use Prim.Native.Nat.{Ordering}
use pebblesdb.Common.{ℕ, ◌≡◌, ◌≢◌, Bytes, arith, Bool-cases, inl, inr, ◌⊎◌}
use pebblesdb.Coding.{put_fixed64}
use pebblesdb.Comparator.{Comparator, IsOrder, IsShortener, is_lt, bytewise, slice_compare}
use pebblesdb.Comparator.Bytewise.{slice_compare-IsOrder}
use pebblesdb.Comparator.Shorten.{bytewise-IsShortener, separator_unchanged}
use pebblesdb.Dbformat.{
  pack_sequence_and_type, max_sequence_number, value_type_for_seek, extract_user_key,
  internal_compare, shortened, internal_shortest_separator, internal_short_successor,
}
use pebblesdb.Dbformat.Keys.{tagged, extract_user_key-tagged}
use pebblesdb.Dbformat.KeyOrder.{internal_compare-IsOrder}

abbrev seek_tag : ℕ
seek_tag = pack_sequence_and_type max_sequence_number value_type_for_seek

irrefl : (cmp : Bytes → Bytes → Ordering) → IsOrder cmp → (a : Bytes) → cmp a a ≢ Ordering.lt
irrefl cmp order a h = ground (arith, order.flip a a)

module _ (user : Comparator) where
  -- The shortened key is the old one, or a larger user key with the seek tag.
  shortened_cases :
      (key tmp : Bytes)
      → (shortened user key tmp ≡ key)
        ⊎ ((shortened user key tmp ≡ tagged tmp seek_tag)
            × (user.compare (extract_user_key key) tmp ≡ Ordering.lt))
  unfolding shortened put_fixed64
  shortened_cases key tmp = ground arith

  internal_user_lt :
      (a b : Bytes)
      → user.compare (extract_user_key a) (extract_user_key b) ≡ Ordering.lt
      → internal_compare user a b ≡ Ordering.lt
  unfolding internal_compare
  internal_user_lt a b h = ground arith

  module _ (order : IsOrder user.compare) where
    shortened_low :
        (key tmp : Bytes) → internal_compare user (shortened user key tmp) key ≢ Ordering.lt
    shortened_low key tmp h = elim (shortened_cases key tmp) [
      | inl same ↦ irrefl (internal_compare user) internal key (rw same at h)
      | inr (new, above) ↦ ground (
        arith,
        new,
        internal.flip key (shortened user key tmp),
        internal_user_lt key (tagged tmp seek_tag),
        extract_user_key-tagged tmp seek_tag,
      )
    ]
      where
        internal : IsOrder (internal_compare user)
        internal = internal_compare-IsOrder user order

    module _ (short : IsShortener user) where
      separator_lt_limit :
          (start limit : Bytes)
          → user.compare (extract_user_key start) (extract_user_key limit) ≡ Ordering.lt
          → internal_compare user (internal_shortest_separator user start limit) limit ≡ Ordering.lt
      unfolding internal_shortest_separator
      separator_lt_limit start limit h =
          let u = extract_user_key start in
          let l = extract_user_key limit in
          elim (shortened_cases start (user.find_shortest_separator u l)) [
            | inl same ↦ rw same (internal_user_lt start limit h)
            | inr (new, above) ↦ ground (
              arith,
              new,
              internal_user_lt (tagged (user.find_shortest_separator u l) seek_tag) limit,
              extract_user_key-tagged (user.find_shortest_separator u l) seek_tag,
              short.separator_high u l h,
            )
          ]

      -- Between keys with different user keys the separator of two internal keys lies in
      -- [start, limit), for every user comparator that keeps the promises of comparator.h.
      pub internal_separator :
          (start limit : Bytes)
          → user.compare (extract_user_key start) (extract_user_key limit) ≡ Ordering.lt
          → (internal_compare user (internal_shortest_separator user start limit) start
              ≢ Ordering.lt)
            × (internal_compare user (internal_shortest_separator user start limit) limit
                ≡ Ordering.lt)
      unfolding internal_shortest_separator
      internal_separator start limit h = (
        shortened_low start
            (user.find_shortest_separator (extract_user_key start) (extract_user_key limit)),
        separator_lt_limit start limit h,
      )

    -- The successor of an internal key is not below it.
    pub internal_successor :
        (key : Bytes) → internal_compare user (internal_short_successor user key) key ≢ Ordering.lt
    unfolding internal_short_successor
    internal_successor key = shortened_low key (user.find_short_successor (extract_user_key key))

shortened_self : (user : Comparator) (key : Bytes) → shortened user key (extract_user_key key) ≡ key
unfolding shortened
shortened_self user key = ground arith

separator_same_user :
    (start limit : Bytes)
    → slice_compare (extract_user_key start) (extract_user_key limit) ≢ Ordering.lt
    → internal_shortest_separator bytewise start limit ≡ start
unfolding internal_shortest_separator
separator_same_user start limit h =
    rw (separator_unchanged (extract_user_key start) (extract_user_key limit) h)
      (shortened_self bytewise start)

-- With the bytewise comparator, the separator of any two internal keys start < limit lies in
-- [start, limit), also where they share their user key.
pub bytewise_separator :
    (start limit : Bytes)
    → internal_compare bytewise start limit ≡ Ordering.lt
    → (internal_compare bytewise (internal_shortest_separator bytewise start limit) start
        ≢ Ordering.lt)
      × (internal_compare bytewise (internal_shortest_separator bytewise start limit) limit
          ≡ Ordering.lt)
bytewise_separator start limit h =
    elim (Bool-cases (is_lt (slice_compare (extract_user_key start) (extract_user_key limit)))) [
      | inl below ↦
          internal_separator bytewise slice_compare-IsOrder bytewise-IsShortener start limit
            (ground (arith, below))
      | inr other ↦ rw (separator_same_user start limit (λ e. ground (arith, e, other))) (
        irrefl (internal_compare bytewise) (internal_compare-IsOrder bytewise slice_compare-IsOrder)
            start,
        h,
      )
    ]
