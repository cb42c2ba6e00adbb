-- ===== src/Comparator.antt =====
-- util/comparator.cc, include/pebblesdb/comparator.h and the comparison of include/pebblesdb/slice.h.
-- A three-way comparison returns an `Ordering`, the sign of the source's int.
pub mod Bytewise
pub mod Shorten
pub mod Number
mod Runs
use Prim.Native.Nat.{compare, Ordering}
use pebblesdb.Common.{
  ℕ, zero, suc, ◌+◌, ◌*◌, ◌/◌, ◌%◌, ◌^◌, ◌<◌, ◌≤◌, ◌≡◌, ◌≢◌, bit_or, min, Bool, true, false, ◌&&◌,
  Option, none, some, List, [], ◌∷◌, ◌++◌, Bytes, arith, ltb, leb, ◌==◌, if◌then◌else◌, length,
  get_or, take, drop,
}

abbrev pub reverse_order : Ordering → Ordering
reverse_order Ordering.lt = Ordering.gt
reverse_order Ordering.eq = Ordering.eq
reverse_order Ordering.gt = Ordering.lt

-- `if (r == 0) r = next;`
abbrev pub or_else : Ordering → Ordering → Ordering
or_else Ordering.eq next = next
or_else Ordering.lt next = Ordering.lt
or_else Ordering.gt next = Ordering.gt

abbrev pub is_lt : Ordering → Bool
is_lt Ordering.lt = true
is_lt _ = false

-- What a `Comparator` object provides.
pub record Comparator : Type 0 where
  pub compare : Bytes → Bytes → Ordering
  pub find_shortest_separator : Bytes → Bytes → Bytes
  pub find_short_successor : Bytes → Bytes

-- `Compare` is a total order up to keys that compare equal.
pub record IsOrder (cmp : Bytes → Bytes → Ordering) : Type 0 where
  pub flip : (a b : Bytes) → cmp b a ≡ reverse_order (cmp a b)
  pub eq_left : (a b c : Bytes) → cmp a b ≡ Ordering.eq → cmp a c ≡ cmp b c
  pub trans :
      (a b c : Bytes) → cmp a b ≡ Ordering.lt → cmp b c ≡ Ordering.lt → cmp a c ≡ Ordering.lt

-- What comparator.h documents of the two shortening operations: the separator lies in
-- [start, limit), and the successor is not below the key.
pub record IsShortener (c : Comparator) : Type 0 where
  pub separator_low :
      (start limit : Bytes)
      → c.compare start limit ≡ Ordering.lt
      → c.compare (c.find_shortest_separator start limit) start ≢ Ordering.lt
  pub separator_high :
      (start limit : Bytes)
      → c.compare start limit ≡ Ordering.lt
      → c.compare (c.find_shortest_separator start limit) limit ≡ Ordering.lt
  pub successor_low : (key : Bytes) → c.compare (c.find_short_successor key) key ≢ Ordering.lt

-- The C library's memcmp on the first `n` bytes, by its sign.
unfoldable pub memcmp : ℕ → Bytes → Bytes → Ordering
memcmp (suc n) (a ∷ xs) (b ∷ ys) = or_else (compare a b) (memcmp n xs ys)
memcmp _ _ _ = Ordering.eq

-- Slice::compare
unfoldable pub slice_compare : Bytes → Bytes → Ordering
slice_compare a b =
    let min_len = if ltb (length a) (length b) then length a else length b in
    or_else (memcmp min_len a b) (
      if ltb (length a) (length b)
      then Ordering.lt
      else if ltb (length b) (length a)
      then Ordering.gt
      else Ordering.eq)

-- The loop that finds the length of the common prefix; its bound `min_length` is reached when one
-- string ends.
unfoldable pub common_prefix : Bytes → Bytes → ℕ
common_prefix (a ∷ xs) (b ∷ ys) = if a == b then suc (common_prefix xs ys) else 0
common_prefix _ _ = 0

-- BytewiseComparatorImpl::FindShortestSeparator
unfoldable pub find_shortest_separator : Bytes → Bytes → Bytes
unfolding common_prefix
find_shortest_separator start limit =
    let min_length = min (length start) (length limit) in
    let diff_index = common_prefix start limit in
    if leb min_length diff_index
    then start
    else (let diff_byte = get_or start diff_index 0 in
        if ltb diff_byte 0xff && ltb (diff_byte + 1) (get_or limit diff_index 0)
        then take diff_index start ++ (diff_byte + 1) ∷ []
        else start)

-- BytewiseComparatorImpl::FindShortSuccessor: the first byte that is not 0xff is incremented and the
-- rest cut off.
unfoldable pub find_short_successor : Bytes → Bytes
find_short_successor [] = []
find_short_successor (byte ∷ rest) =
    if byte == 0xff then byte ∷ find_short_successor rest else (byte + 1) ∷ []

-- A byte of the zero-filled buffer of KeyNum, shifted into its place.
abbrev key_byte : Bytes → ℕ → ℕ → ℕ
key_byte key i shift = get_or key i 0 * 2 ^ shift % 2 ^ 64

-- BytewiseComparatorImpl::KeyNum: the first eight bytes xs a big-endian number.
unfoldable pub key_num : Bytes → ℕ
key_num key =
    bit_or
      (bit_or
        (bit_or
          (bit_or
            (bit_or (bit_or (bit_or (key_byte key 0 56) (key_byte key 1 48)) (key_byte key 2 40))
              (key_byte key 3 32))
            (key_byte key 4 24))
          (key_byte key 5 16))
        (key_byte key 6 8))
      (get_or key 7 0)

abbrev pub bytewise : Comparator
bytewise = record {
  compare = slice_compare;
  find_shortest_separator = find_shortest_separator;
  find_short_successor = find_short_successor;
}
