-- ===== src/Block/Built.antt =====
-- What BlockBuilder has written after some Adds (table/block_builder.cc).
use native.Mathlib.Nat.{mod-eq_of_lt}
use pebblesdb.Common.{
  ℕ, ◌-◌, ◌*◌, ◌%◌, ◌^◌, ◌<◌, ◌≤◌, ◌≡◌, refl, sym, ap, ◌∙◌, Bool, true, false, List, [], ◌∷◌, ◌++◌,
  Bytes, arith, ltb, if◌then◌else◌, length, take, drop, append_assoc, append-nil, length-append,
  take-append-drop, subst, All,
}
use pebblesdb.Coding.{encode_varint32, put_varint32, put_fixed32, encode_fixed32}
use pebblesdb.Coding.Fixed.{length-encode_fixed32}
use pebblesdb.Comparator.{common_prefix}
use pebblesdb.Block.Builder.{BlockBuilder, new_builder, add_shared, add_entry, put_restarts, finish}
use pebblesdb.Block.Layout.{
  entry_with, header_bytes, Encodes, Encodes-append, final_key, common_prefix_shared,
}

-- Keys and values of less than 4 GiB.
abbrev pub IsShort : Bytes × Bytes → Type 0
IsShort (key, value) = (length key < 2 ^ 32) × (length value < 2 ^ 32)

-- A builder to which `entries` were added since it was new.
pub record Holds (b : BlockBuilder) (entries : List (Bytes × Bytes)) : Type 0 where
  pub holds_bytes : Encodes [] entries b.buffer
  pub holds_last : b.last_key ≡ final_key [] entries
  pub holds_first : (rs : List ℕ) × (b.restarts ≡ 0 ∷ rs)

-- Adding one entry after the other.
abbrev pub add_all : ℕ → List (Bytes × Bytes) → BlockBuilder → BlockBuilder
add_all interval [] b = b
add_all interval ((key, value) ∷ entries) b =
    add_all interval entries (add_entry interval key value b)

add_shared-buffer :
    (shared : ℕ) (key value : Bytes) (b : BlockBuilder)
    → shared ≤ length key
    → IsShort (key, value)
    → (add_shared shared key value b).buffer ≡ b.buffer ++ entry_with shared key value []
unfolding add_shared put_varint32
add_shared-buffer shared key value b le (short, short') =
    rw (mod-eq_of_lt small, mod-eq_of_lt small', mod-eq_of_lt short')
      (append_assoc
          (((b.buffer ++ encode_varint32 shared) ++ encode_varint32 (length key - shared))
            ++ encode_varint32 (length value))
          (drop shared key) value
        ∙ ap (λ t. t ++ (drop shared key ++ value))
            (append_assoc (b.buffer ++ encode_varint32 shared)
                (encode_varint32 (length key - shared)) (encode_varint32 (length value))
              ∙ append_assoc b.buffer (encode_varint32 shared)
                  (encode_varint32 (length key - shared) ++ encode_varint32 (length value)))
        ∙ append_assoc b.buffer (header_bytes shared key value) (drop shared key ++ value)
        ∙ ap (λ t. b.buffer ++ (header_bytes shared key value ++ (drop shared key ++ t)))
            (sym (append-nil value)))
  where
    small : shared < 2 ^ 32
    small = omega arith

    small' : length key - shared < 2 ^ 32
    small' = omega arith

final_key-append :
    (entries : List (Bytes × Bytes)) (last key value : Bytes)
    → final_key last (entries ++ (key, value) ∷ []) ≡ key
final_key-append [] last key value = refl
final_key-append ((k, v) ∷ entries) last key value = final_key-append entries k key value

last_key-add_shared :
    (shared : ℕ) (key value : Bytes) (b : BlockBuilder)
    → take shared b.last_key ≡ take shared key
    → (add_shared shared key value b).last_key ≡ key
unfolding add_shared
last_key-add_shared shared key value b same =
    ap (λ t. t ++ drop shared key) same ∙ take-append-drop shared key

restarts-add_shared :
    (shared : ℕ) (key value : Bytes) (b : BlockBuilder)
    → (add_shared shared key value b).restarts ≡ b.restarts
unfolding add_shared
restarts-add_shared shared key value b = refl

add_shared-Holds :
    (shared : ℕ) (key value : Bytes) (b : BlockBuilder) (entries : List (Bytes × Bytes))
    → Holds b entries
    → IsShort (key, value)
    → shared ≤ length b.last_key
    → shared ≤ length key
    → take shared b.last_key ≡ take shared key
    → Holds (add_shared shared key value b) (entries ++ (key, value) ∷ [])
add_shared-Holds shared key value b entries h short le le' same = record {
  holds_bytes =
      subst (Encodes [] (entries ++ (key, value) ∷ []))
        (sym (add_shared-buffer shared key value b le' short))
        (Encodes-append entries [] b.buffer key value shared h.holds_bytes le'
          (subst (λ k. shared ≤ length k) h.holds_last le)
          (ap (take shared) (sym h.holds_last) ∙ same));
  holds_last =
      last_key-add_shared shared key value b same ∙ sym (final_key-append entries [] key value);
  holds_first = (h.holds_first.0, restarts-add_shared shared key value b ∙ h.holds_first.1);
}

-- Add keeps the layout, whatever the restart interval.
add_entry-Holds :
    (interval : ℕ) (key value : Bytes) (b : BlockBuilder) (entries : List (Bytes × Bytes))
    → Holds b entries
    → IsShort (key, value)
    → Holds (add_entry interval key value b) (entries ++ (key, value) ∷ [])
unfolding add_entry
add_entry-Holds interval key value b entries h short = by_case (ltb b.counter interval)
  where
    restarted : BlockBuilder
    restarted = record b { restarts = b.restarts ++ length b.buffer % 2 ^ 32 ∷ []; counter = 0 }

    restarted-Holds : Holds restarted entries
    restarted-Holds = record {
      holds_bytes = h.holds_bytes;
      holds_last = h.holds_last;
      holds_first = (
        h.holds_first.0 ++ length b.buffer % 2 ^ 32 ∷ [],
        ap (λ rs. rs ++ length b.buffer % 2 ^ 32 ∷ []) h.holds_first.1,
      );
    }

    by_case :
        (c : Bool)
        → Holds
            (if c
              then add_shared (common_prefix b.last_key key) key value b
              else add_shared 0 key value restarted)
            (entries ++ (key, value) ∷ [])
    by_case true =
        let (le, le', same) = common_prefix_shared b.last_key key in
        add_shared-Holds (common_prefix b.last_key key) key value b entries h short le le' same
    by_case false =
        add_shared-Holds 0 key value restarted entries restarted-Holds short (omega arith)
          (omega arith) refl

add_all-Holds :
    (interval : ℕ) (more entries : List (Bytes × Bytes)) (b : BlockBuilder)
    → Holds b entries
    → All IsShort more
    → Holds (add_all interval more b) (entries ++ more)
add_all-Holds interval [] entries b h short = subst (Holds b) (sym (append-nil entries)) h
add_all-Holds interval ((key, value) ∷ more) entries b h short =
    subst (Holds (add_all interval more (add_entry interval key value b)))
      (append_assoc entries ((key, value) ∷ []) more)
      (add_all-Holds interval more (entries ++ (key, value) ∷ []) (add_entry interval key value b)
        (add_entry-Holds interval key value b entries h short.0) short.1)

pub built-Holds :
    (interval : ℕ) (entries : List (Bytes × Bytes))
    → All IsShort entries
    → Holds (add_all interval entries new_builder) entries
built-Holds interval entries short =
    add_all-Holds interval entries [] new_builder
      (record { holds_bytes = refl; holds_last = refl; holds_first = ([], refl) }) short

-- The bytes of the restart array and of its length.
abbrev pub restart_bytes : List ℕ → Bytes
restart_bytes [] = []
restart_bytes (r ∷ rs) = encode_fixed32 r ++ restart_bytes rs

put_restarts-append :
    (rs : List ℕ) (buffer : Bytes) → put_restarts buffer rs ≡ buffer ++ restart_bytes rs
unfolding put_fixed32
put_restarts-append [] buffer = sym (append-nil buffer)
put_restarts-append (r ∷ rs) buffer =
    put_restarts-append rs (buffer ++ encode_fixed32 r)
    ∙ append_assoc buffer (encode_fixed32 r) (restart_bytes rs)

pub length-restart_bytes : (rs : List ℕ) → length (restart_bytes rs) ≡ 4 * length rs
length-restart_bytes [] = omega arith
length-restart_bytes (r ∷ rs) = omega (
  arith,
  length-append (encode_fixed32 r) (restart_bytes rs),
  length-encode_fixed32 r,
  length-restart_bytes rs,
)

pub finish_bytes :
    (b : BlockBuilder)
    → (finish b).buffer
      ≡ b.buffer ++ (restart_bytes b.restarts ++ encode_fixed32 (length b.restarts % 2 ^ 32))
unfolding finish put_fixed32
finish_bytes b =
    ap (λ t. t ++ encode_fixed32 (length b.restarts % 2 ^ 32))
      (put_restarts-append b.restarts b.buffer)
    ∙ append_assoc b.buffer (restart_bytes b.restarts) (encode_fixed32 (length b.restarts % 2 ^ 32))
