-- ===== src/Block/RoundTrip.antt =====
-- From the entries that BlockBuilder was given to those that the block's iterator shows
-- (table/block_builder.cc, table/block.cc).
use native.Mathlib.Nat.{mod-eq_of_lt}
use pebblesdb.Common.{
  ℕ, suc, ◌+◌, ◌-◌, ◌*◌, ◌/◌, ◌%◌, ◌^◌, ◌<◌, ◌≡◌, refl, sym, ap, ◌∙◌, false, List, [], ◌∷◌, ◌++◌,
  Bytes, arith, ◌==◌, length, drop, append_assoc, append-nil, length-append, subst, All, ltb-false,
  drop-append_of,
}
use pebblesdb.Coding.{encode_fixed32, decode_fixed32}
use pebblesdb.Coding.Fixed.{decode_fixed32-encode_fixed32, length-encode_fixed32}
use pebblesdb.Block.{new_block, num_restarts_of}
use pebblesdb.Block.Builder.{BlockBuilder, new_builder, finish}
use pebblesdb.Block.Built.{
  IsShort, add_all, built-Holds, restart_bytes, length-restart_bytes, finish_bytes,
}
use pebblesdb.Block.Iter.{
  Iter, on_entries, new_iterator, new_iter, seek_to_first, seek_to_restart_point, get_restart_point,
  next,
}
use pebblesdb.Block.Layout.{Encodes}
use pebblesdb.Block.Pending.{Before}
use pebblesdb.Block.Forward.{read_entries, read_entries-Before}

-- A finished block: the entries, the restart array and its length.
module _ (buffer : Bytes) (restarts : List ℕ) where
  abbrev pub contents : Bytes
  contents = buffer ++ (restart_bytes restarts ++ encode_fixed32 (length restarts))

  length-contents : length contents ≡ length buffer + 4 * length restarts + 4
  length-contents = omega (
    arith,
    length-append buffer (restart_bytes restarts ++ encode_fixed32 (length restarts)),
    length-append (restart_bytes restarts) (encode_fixed32 (length restarts)),
    length-restart_bytes restarts,
    length-encode_fixed32 (length restarts),
  )

  num_restarts_of-contents :
      length contents < 2 ^ 32 → num_restarts_of contents (length contents) ≡ length restarts
  unfolding num_restarts_of
  num_restarts_of-contents small =
      ap (λ c. decode_fixed32 (drop (length contents - 4) c))
        (sym (append_assoc buffer (restart_bytes restarts) (encode_fixed32 (length restarts))))
      ∙ ap decode_fixed32 (
          drop-append_of (length contents - 4) (buffer ++ restart_bytes restarts)
            (encode_fixed32 (length restarts))
            (omega (
              arith,
              length-contents,
              length-append buffer (restart_bytes restarts),
              length-restart_bytes restarts,
            )))
      ∙ ap decode_fixed32 (sym (append-nil (encode_fixed32 (length restarts))))
      ∙ decode_fixed32-encode_fixed32 (length restarts) [] (omega (arith, length-contents, small))

  new_block-contents :
      length contents < 2 ^ 32
      → new_block contents
        ≡ record { block_data = contents; size = length contents; restart_offset = length buffer }
  unfolding new_block
  new_block-contents small =
      rw
        (
          ltb-false (length contents) 4 (omega (arith, length-contents)),
          num_restarts_of-contents small,
          ltb-false ((length contents - 4) / 4) (length restarts) (omega (arith, length-contents)),
          offset_lem (length restarts) length-contents small,
        )
        refl
    where
      offset_lem :
          (n : ℕ) {l b : ℕ} → l ≡ b + 4 * n + 4 → l < 2 ^ 32 → (l - (1 + n) * 4) % 2 ^ 32 ≡ b
      offset_lem n e h = omega arith

  abbrev pub opened : Iter
  opened = new_iter contents (length buffer) (length restarts)

  new_iterator-contents :
      length contents < 2 ^ 32
      → 0 < length restarts
      → new_iterator (new_block contents) ≡ on_entries opened
  unfolding new_iterator
  new_iterator-contents small some_ =
      rw
        (
          new_block-contents small,
          ltb-false (length contents) 4 (omega (arith, length-contents)),
          num_restarts_of-contents small,
          positive some_,
        )
        refl
    where
      positive : {n : ℕ} → 0 < n → (n == 0) ≡ false
      positive h = ground arith

  -- The first restart point is the start of the block.
  first_restart : (rs : List ℕ) → restarts ≡ 0 ∷ rs → get_restart_point opened 0 ≡ 0
  unfolding get_restart_point
  first_restart rs e =
      ap (λ n. decode_fixed32 (drop n contents)) (here (length buffer))
      ∙ ap decode_fixed32 (
          drop-append_of (length buffer) buffer
            (restart_bytes restarts ++ encode_fixed32 (length restarts)) refl)
      ∙ ap (λ r. decode_fixed32 (restart_bytes r ++ encode_fixed32 (length restarts))) e
      ∙ ap decode_fixed32
          (append_assoc (encode_fixed32 0) (restart_bytes rs) (encode_fixed32 (length restarts)))
      ∙ decode_fixed32-encode_fixed32 0 (restart_bytes rs ++ encode_fixed32 (length restarts))
          (omega arith)
    where
      here : (n : ℕ) → n + 0 * 4 ≡ n
      here n = omega arith

  first-Before :
      (rs : List ℕ) (entries : List (Bytes × Bytes))
      → restarts ≡ 0 ∷ rs
      → length contents < 2 ^ 32
      → Encodes [] entries buffer
      → Before (seek_to_restart_point 0 opened) [] entries
  unfolding seek_to_restart_point
  first-Before rs entries e small encoded = record {
    front = [];
    bytes = buffer;
    behind = restart_bytes restarts ++ encode_fixed32 (length restarts);
    split = refl;
    offset = omega (arith, first_restart rs e);
    limit = omega arith;
    small = omega (arith, small, length-contents);
    same_key = refl;
    encoded = encoded;
  }

  read_entries-contents :
      (rs : List ℕ) (entries : List (Bytes × Bytes))
      → restarts ≡ 0 ∷ rs
      → length contents < 2 ^ 32
      → Encodes [] entries buffer
      → All IsShort entries
      → read_entries (suc (length entries)) (seek_to_first opened) ≡ entries
  unfolding seek_to_first next
  read_entries-contents rs entries e small encoded short =
      read_entries-Before entries (suc (length entries)) (seek_to_restart_point 0 opened) []
        (first-Before rs entries e small encoded) short (omega arith)

-- A block that BlockBuilder made of any entries, with any restart interval, opens, and SeekToFirst
-- with Next shows exactly these entries in their order: keys and values shorter than 4 GiB, and so
-- the whole block.
pub read_entries-add_all :
    (interval : ℕ) (entries : List (Bytes × Bytes))
    → All IsShort entries
    → length (finish (add_all interval entries new_builder)).buffer < 2 ^ 32
    → (it : Iter) × (new_iterator (new_block (finish (add_all interval entries new_builder)).buffer)
        ≡ on_entries it)
      × (read_entries (suc (length entries)) (seek_to_first it) ≡ entries)
read_entries-add_all interval entries short small =
    let b = add_all interval entries new_builder in
    let h = built-Holds interval entries short in
    let whole = finished b small in
    let room : length (contents b.buffer b.restarts) < 2 ^ 32 =
      subst (λ c. length c < 2 ^ 32) whole small in
    (
      opened b.buffer b.restarts,
      ap (λ c. new_iterator (new_block c)) whole
          ∙ new_iterator-contents b.buffer b.restarts room
              (omega (arith, ap length h.holds_first.1)),
      read_entries-contents b.buffer b.restarts h.holds_first.0 entries h.holds_first.1 room
          h.holds_bytes short,
    )
  where
    few : {n : ℕ} → 4 * n < 2 ^ 32 → n < 2 ^ 32
    few h = omega arith

    finished :
        (b : BlockBuilder)
        → length (finish b).buffer < 2 ^ 32
        → (finish b).buffer ≡ contents b.buffer b.restarts
    finished b small =
        finish_bytes b
        ∙ ap (λ n. b.buffer ++ (restart_bytes b.restarts ++ encode_fixed32 n))
            (mod-eq_of_lt (
              few (
                omega (
                  arith,
                  small,
                  ap length (finish_bytes b),
                  length-append b.buffer
                      (restart_bytes b.restarts ++ encode_fixed32 (length b.restarts % 2 ^ 32)),
                  length-append (restart_bytes b.restarts)
                      (encode_fixed32 (length b.restarts % 2 ^ 32)),
                  length-restart_bytes b.restarts,
                ))))
