-- ===== src/Block/Forward.antt =====
-- Reading a block from its first entry on (table/block.cc).
use pebblesdb.Common.{
  ℕ, zero, suc, ◌+◌, ◌-◌, ◌^◌, ◌<◌, ◌≤◌, ◌≡◌, refl, sym, ap, ◌∙◌, Bool, true, false, some, List, [],
  ◌∷◌, ◌++◌, Bytes, arith, leb, if◌then◌else◌, length, take, drop, length-append, take-append-drop,
  subst, All, length-drop, take-append, take-append_of, drop-append_of, lt→ltb, ltb-false,
}
use pebblesdb.Block.Iter.{
  Iter, decode_entry, advance_restarts, take_entry, parse_next_key, next_entry_offset, to_end,
  value, valid, next,
}
use pebblesdb.Coding.{encode_varint32}
use pebblesdb.Block.Entries.{
  encode_varint32_positive, length-lengths, decode_entry-lengths, lengths,
}
use pebblesdb.Block.Built.{IsShort}
use pebblesdb.Block.Layout.{Encodes, entry_with, entry_with-lengths, header_bytes}
use pebblesdb.Block.Pending.{
  Before, advance_restarts_lem, middle, regroup_value, regroup_rest, length-three,
}

-- Reading an iterator out with Next, at most `fuel` entries.
unfoldable pub read_entries : ℕ → Iter → List (Bytes × Bytes)
read_entries zero it = []
read_entries (suc fuel) it =
    let rest = read_entries fuel (next it) in if valid it then (it.key, value it) ∷ rest else []

module _ (it : Iter) (last : Bytes) where
  no_wrap :
      (entries : List (Bytes × Bytes))
      → Before it last entries
      → next_entry_offset it ≡ it.value_start + it.value_size
  no_wrap entries b = omega (arith, b.offset, b.limit, b.small)

  at_offset : Iter
  at_offset = record it { current = next_entry_offset it }

  pending : Bytes
  pending = drop (next_entry_offset it) (take it.restarts it.block_data)

  next_lem :
      (b : Bool)
      → leb it.restarts (next_entry_offset it) ≡ b
      → next it
        ≡ (if b then (false, to_end at_offset) else take_entry at_offset (decode_entry pending)).1
  unfolding next parse_next_key at_offset pending
  next_lem b e =
      ap
        (λ c.
          (if c then (false, to_end at_offset) else take_entry at_offset (decode_entry pending)).1)
        e

  -- Behind the last entry.
  next-nil : Before it last [] → valid (next it) ≡ false
  unfolding at_offset
  next-nil b =
      ap valid (next_lem true (reached (ap length b.encoded)))
      ∙ ltb-false it.restarts it.restarts (omega arith)
    where
      reached : length b.bytes ≡ 0 → leb it.restarts (next_entry_offset it) ≡ true
      reached e = ground (arith, e, no_wrap [] b, b.offset, b.limit)

  -- What Next makes of the iterator at an entry, but for the restart index.
  after_entry : ℕ → Bytes → Bytes → Bytes → Iter
  after_entry shared key v rest = record it {
    current = next_entry_offset it;
    key = take shared it.key ++ drop shared key;
    value_start = it.restarts - length (drop shared key ++ (v ++ rest)) + (length key - shared);
    value_size = length v;
  }

  take_entry_lem :
      (shared : ℕ) (key v rest : Bytes)
      → shared ≤ length it.key
      → shared ≤ length key
      → (take_entry at_offset
          (some (shared, length key - shared, length v, drop shared key ++ (v ++ rest)))).1
        ≡ advance_restarts it.num_restarts (after_entry shared key v rest)
  unfolding at_offset after_entry
  take_entry_lem shared key v rest le le' =
      rw
        (
          ltb-false (length it.key) shared le,
          take-append_of (length key - shared) (drop shared key) (v ++ rest)
              (length-drop shared key),
        )
        refl

  -- What a round leaves at an entry: it shows the entry, and the rest is to come.
  abbrev pub Shows : Bytes → Bytes → List (Bytes × Bytes) → Iter → Type 0
  Shows key v entries it' =
      (valid it' ≡ true) × (it'.key ≡ key) × (value it' ≡ v) × Before it' key entries

  after_entry-Shows :
      (shared : ℕ) (key v rest : Bytes) (entries : List (Bytes × Bytes)) (index : ℕ)
      → (bytes front behind : Bytes) → it.block_data ≡ front ++ (bytes ++ behind)
      → next_entry_offset it ≡ length front
      → it.restarts ≡ length front + length bytes
      → it.restarts < 2 ^ 32
      → it.key ≡ last
      → shared ≤ length key
      → take shared last ≡ take shared key
      → bytes ≡ entry_with shared key v rest
      → Encodes key entries rest
      → Shows key v entries (record (after_entry shared key v rest) { restart_index = index })
  unfolding after_entry
  after_entry-Shows shared key v rest entries index bytes front behind split offset limit small
        same_key le same e tail =
      (
        lt→ltb (next_entry_offset it) it.restarts
            (omega (arith, offset, limit, sizes, some_header)),
        ap (λ k. take shared k ++ drop shared key) same_key
            ∙ ap (λ t. t ++ drop shared key) same
            ∙ take-append-drop shared key,
        ap (λ d. take (length v) (drop start d)) whole
            ∙ ap (take (length v))
                (drop-append_of start (front ++ (header ++ delta)) (v ++ (rest ++ behind)) reach)
            ∙ take-append v (rest ++ behind),
        record {
          front = front ++ (header ++ (delta ++ v));
          bytes = rest;
          behind = behind;
          split =
              split
              ∙ ap (λ t. front ++ (t ++ behind)) e
              ∙ regroup_rest front header delta v rest behind;
          offset = omega (arith, ends, limit, sizes, body, length-drop shared key);
          limit = omega (arith, ends, limit, sizes);
          small = small;
          same_key =
              ap (λ k. take shared k ++ drop shared key) same_key
              ∙ ap (λ t. t ++ drop shared key) same
              ∙ take-append-drop shared key;
          encoded = tail;
        },
      )
    where
      header : Bytes
      header = header_bytes shared key v

      delta : Bytes
      delta = drop shared key

      start : ℕ
      start = it.restarts - length (delta ++ (v ++ rest)) + (length key - shared)

      sizes : length bytes ≡ length header + length delta + length v + length rest
      sizes =
          omega (arith, ap length e, length-three header delta (v ++ rest), length-append v rest)

      whole : it.block_data ≡ (front ++ (header ++ delta)) ++ (v ++ (rest ++ behind))
      whole =
          split
          ∙ ap (λ t. front ++ (t ++ behind)) e
          ∙ regroup_value front header delta v rest behind

      body : length (delta ++ (v ++ rest)) ≡ length delta + length v + length rest
      body = length-three delta v rest

      ends :
          length (front ++ (header ++ (delta ++ v)))
          ≡ length front + length header + length delta + length v
      ends = omega (arith, length-three front header (delta ++ v), length-append delta v)

      reach : length (front ++ (header ++ delta)) ≡ start
      reach =
          omega (arith, length-three front header delta, limit, sizes, body, length-drop shared key)

      some_header : 1 ≤ length header
      some_header = omega (
        arith,
        encode_varint32_positive shared,
        length-append (encode_varint32 shared)
            (encode_varint32 (length key - shared) ++ encode_varint32 (length v)),
      )

  -- Next at an entry shows it.
  next-cons :
      (key v : Bytes) (entries : List (Bytes × Bytes))
      → length key < 2 ^ 32
      → Before it last ((key, v) ∷ entries)
      → Shows key v entries (next it)
  unfolding pending
  next-cons key v entries short b =
      let (shared, rest, le, le', same, e, tail) = b.encoded in
      let body = drop shared key ++ (v ++ rest) in
      let offset = no_wrap ((key, v) ∷ entries) b ∙ b.offset in
      let sizes = ap length (e ∙ entry_with-lengths shared key v rest) in
      let long = length-lengths shared (length key - shared) (length v) body in
      let body_size = length-three (drop shared key) v rest in
      let found : pending ≡ lengths shared (length key - shared) (length v) body =
        middle b.front b.bytes b.behind it.block_data (next_entry_offset it) it.restarts b.split
          offset b.limit
        ∙ e
        ∙ entry_with-lengths shared key v rest in
      let decoded : decode_entry pending ≡ some (shared, length key - shared, length v, body) =
        ap decode_entry found
        ∙ decode_entry-lengths shared (length key - shared) (length v) body (omega (arith, le))
            (omega (arith, body_size, length-drop shared key))
            (omega (arith, b.limit, b.small, sizes, long)) in
      let there : next it ≡ record (after_entry shared key v rest) {
        restart_index =
            (advance_restarts it.num_restarts (after_entry shared key v rest)).restart_index;
      } =
        next_lem false (in_front b.limit offset (omega (arith, sizes, long)))
        ∙ ap (λ o. (take_entry at_offset o).1) decoded
        ∙ take_entry_lem shared key v rest (subst (λ k. shared ≤ length k) (sym b.same_key) le') le
        ∙ advance_restarts_lem it.num_restarts (after_entry shared key v rest) in
      subst (Shows key v entries) (sym there) (
        after_entry-Shows shared key v rest entries _ b.bytes b.front b.behind b.split offset
          b.limit b.small b.same_key le same e tail)
    where
      in_front : {f n c : ℕ} → it.restarts ≡ f + n → c ≡ f → 0 < n → leb it.restarts c ≡ false
      in_front l o h = ground arith

-- Next reads the entries one after the other.
pub read_entries-Before :
    (entries : List (Bytes × Bytes)) (fuel : ℕ) (it : Iter) (last : Bytes)
    → Before it last entries
    → All IsShort entries
    → length entries < fuel
    → read_entries fuel (next it) ≡ entries
unfolding read_entries next
read_entries-Before entries zero it last b short enough = absurd (omega arith)
read_entries-Before [] (suc fuel) it last b short enough = rw (next-nil it last b) refl
read_entries-Before ((key, v) ∷ entries) (suc fuel) it last b short enough =
    let (is_valid, shown, v_shown, b') = next-cons it last key v entries short.0.0 b in
    rw (is_valid, shown, v_shown)
      (ap (λ t. (key, v) ∷ t)
        (read_entries-Before entries fuel (next it) key b' short.1 (omega arith)))
