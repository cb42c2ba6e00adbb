-- ===== src/Block/Layout.antt =====
-- The entries of a block as BlockBuilder lays them out (table/block_builder.cc).
use pebblesdb.Common.{
  ℕ, suc, ◌-◌, ◌≤◌, ◌≡◌, refl, ap, ◌∙◌, Bool, true, false, List, [], ◌∷◌, ◌++◌, Bytes, arith, ◌==◌,
  if◌then◌else◌, length, take, drop, append_assoc,
}
use pebblesdb.Coding.{encode_varint32}
use pebblesdb.Comparator.{common_prefix}
use pebblesdb.Block.Entries.{lengths}

abbrev pub header_bytes : ℕ → Bytes → Bytes → Bytes
header_bytes shared key value =
    encode_varint32 shared
    ++ (encode_varint32 (length key - shared) ++ encode_varint32 (length value))

-- An entry of which `shared` key bytes are left out, and what follows it.
abbrev pub entry_with : ℕ → Bytes → Bytes → Bytes → Bytes
entry_with shared key value rest =
    header_bytes shared key value ++ (drop shared key ++ (value ++ rest))

pub entry_with-lengths :
    (shared : ℕ) (key value rest : Bytes)
    → entry_with shared key value rest
      ≡ lengths shared (length key - shared) (length value) (drop shared key ++ (value ++ rest))
entry_with-lengths shared key value rest =
    append_assoc (encode_varint32 shared)
      (encode_varint32 (length key - shared) ++ encode_varint32 (length value))
      (drop shared key ++ (value ++ rest))
    ∙ ap (λ t. encode_varint32 shared ++ t)
        (append_assoc (encode_varint32 (length key - shared)) (encode_varint32 (length value))
          (drop shared key ++ (value ++ rest)))

-- Bytes that hold entries behind the key `last`: each leaves out bytes that it shares with the key in
-- front of it.
abbrev pub Encodes : Bytes → List (Bytes × Bytes) → Bytes → Type 0
Encodes last [] bytes = bytes ≡ []
Encodes last ((key, value) ∷ entries) bytes =
    (shared : ℕ) × (rest : Bytes) × (shared ≤ length key)
    × (shared ≤ length last)
    × (take shared last ≡ take shared key)
    × (bytes ≡ entry_with shared key value rest)
    × Encodes key entries rest

abbrev pub final_key : Bytes → List (Bytes × Bytes) → Bytes
final_key last [] = last
final_key last ((key, value) ∷ entries) = final_key key entries

entry_with-append :
    (shared : ℕ) (key value rest more : Bytes)
    → entry_with shared key value rest ++ more ≡ entry_with shared key value (rest ++ more)
entry_with-append shared key value rest more =
    append_assoc (header_bytes shared key value) (drop shared key ++ (value ++ rest)) more
    ∙ ap (λ t. header_bytes shared key value ++ t)
        (append_assoc (drop shared key) (value ++ rest) more
          ∙ ap (λ t. drop shared key ++ t) (append_assoc value rest more))

-- One more entry behind the others.
pub Encodes-append :
    (entries : List (Bytes × Bytes)) (last bytes key value : Bytes) (shared : ℕ)
    → Encodes last entries bytes
    → shared ≤ length key
    → shared ≤ length (final_key last entries)
    → take shared (final_key last entries) ≡ take shared key
    → Encodes last (entries ++ (key, value) ∷ []) (bytes ++ entry_with shared key value [])
Encodes-append [] last bytes key value shared holds le le' same =
    (shared, [], le, le', same, ap (λ b. b ++ entry_with shared key value []) holds, refl)
Encodes-append ((k, v) ∷ entries) last bytes key value shared (s, rest, a, b, c, e, tail) le le'
      same =
    (
      s,
      rest ++ entry_with shared key value [],
      a,
      b,
      c,
      ap (λ t. t ++ entry_with shared key value []) e
          ∙ entry_with-append s k v rest (entry_with shared key value []),
      Encodes-append entries k rest key value shared tail le le' same,
    )

pub common_prefix_shared :
    (a b : Bytes)
    → (common_prefix a b ≤ length a)
      × (common_prefix a b ≤ length b)
      × (take (common_prefix a b) a ≡ take (common_prefix a b) b)
unfolding common_prefix
common_prefix_shared [] [] = (omega arith, omega arith, refl)
common_prefix_shared [] (y ∷ b) = (omega arith, omega arith, refl)
common_prefix_shared (x ∷ a) [] = (omega arith, omega arith, refl)
common_prefix_shared (x ∷ a) (y ∷ b) = by_case (x == y) refl (common_prefix_shared a b)
  where
    Shares : ℕ → Type 0
    Shares n = (n ≤ suc (length a)) × (n ≤ suc (length b)) × (take n (x ∷ a) ≡ take n (y ∷ b))

    by_case :
        (e : Bool)
        → (x == y) ≡ e
        → (common_prefix a b ≤ length a)
          × (common_prefix a b ≤ length b)
          × (take (common_prefix a b) a ≡ take (common_prefix a b) b)
        → Shares (if e then suc (common_prefix a b) else 0)
    by_case true e (le, le', same) =
        let head : x ≡ y = ground (arith, e) in
        (
          omega arith,
          omega arith,
          ap (λ t. x ∷ t) same ∙ ap (λ z. z ∷ take (common_prefix a b) b) head,
        )
    by_case false e later = (omega arith, omega arith, refl)
