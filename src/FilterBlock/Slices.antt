-- ===== src/FilterBlock/Slices.antt =====
-- The keys that the builder hands to the filter policy (table/filter_block.cc).
use mathlib.Core.List.{foldl}
use mathlib.Core.Path.{ap₂}
use pebblesdb.Common.{
  ℕ, suc, ◌+◌, ◌-◌, ◌*◌, ◌^◌, ◌<◌, ◌≤◌, ◌≡◌, refl, sym, subst, ap, ◌∙◌, Option, none, some, List,
  [], ◌∷◌, ◌++◌, append_assoc, append-nil, Bytes, arith, length, length-append, take, drop,
  take-append, drop-append, true, false, ◌==◌, if◌then◌else◌,
}
use pebblesdb.Bloom.{FilterPolicy, BloomFilterPolicy, bloom_filter, key_may_match}
use pebblesdb.Bloom.Match.{IsIn, key_may_match-create_filter}
use pebblesdb.FilterBlock.{
  FileLevelFilterBuilder, cleared, slices_at, add_filter_key, generate_filter,
}

-- The offsets of keys that stand one after the other, from an offset on.
abbrev offsets_from : ℕ → List Bytes → List ℕ
offsets_from n [] = []
offsets_from n (k ∷ ks) = n ∷ offsets_from (n + length k) ks

abbrev joined : List Bytes → Bytes
joined [] = []
joined (k ∷ ks) = k ++ joined ks

-- The slice at a key's offset is the key.
slice-append :
    (before k rest : Bytes) (n limit : ℕ)
    → n ≡ length before
    → limit ≡ n + length k
    → take (limit - n) (drop n (before ++ (k ++ rest))) ≡ k
slice-append before k rest n limit hn hl =
    ap (λ (p : ℕ × ℕ). take p.0 (drop p.1 (before ++ (k ++ rest))))
      (ap₂ (λ (a b : ℕ). (a, b)) {x = limit - n} {y = length k} (omega arith) hn)
    ∙ ap (take (length k)) (drop-append before (k ++ rest))
    ∙ take-append k rest

slices_at-joined :
    (before : Bytes) (ks : List Bytes) (n end : ℕ)
    → n ≡ length before
    → end ≡ n + length (joined ks)
    → slices_at (before ++ joined ks) (offsets_from n ks ++ end ∷ []) ≡ ks
unfolding slices_at
slices_at-joined before [] n end hn he = refl
slices_at-joined before (k ∷ []) n end hn he =
    ap (λ t. t ∷ []) (slice-append before k [] n end hn (omega (arith, length-append k [])))
slices_at-joined before (k ∷ k' ∷ ks) n end hn he =
    ap₂ (λ t ts. t ∷ ts) (slice-append before k (joined (k' ∷ ks)) n (n + length k) hn refl)
      (ap (λ s. slices_at s (offsets_from (n + length k) (k' ∷ ks) ++ end ∷ []))
          (sym (append_assoc before k (joined (k' ∷ ks))))
        ∙ slices_at-joined (before ++ k) (k' ∷ ks) (n + length k) end
            (omega (arith, length-append before k))
            (omega (arith, length-append k (joined (k' ∷ ks)))))

-- What the builder holds after some keys.
abbrev builder_of : List Bytes → FileLevelFilterBuilder
builder_of ks = record { keys = joined ks; key_offsets = offsets_from 0 ks }

offsets_from-append :
    (n : ℕ) (ks : List Bytes) (k : Bytes)
    → offsets_from n (ks ++ k ∷ []) ≡ offsets_from n ks ++ (n + length (joined ks)) ∷ []
offsets_from-append n [] k = ap (λ (m : ℕ). m ∷ []) (omega arith)
offsets_from-append n (x ∷ ks) k =
    ap (λ t. n ∷ t)
      (offsets_from-append (n + length x) ks k
        ∙ ap (λ (m : ℕ). offsets_from (n + length x) ks ++ m ∷ [])
            (omega (arith, length-append x (joined ks))))

joined-append : (ks : List Bytes) (k : Bytes) → joined (ks ++ k ∷ []) ≡ joined ks ++ k
joined-append [] k = append-nil k
joined-append (x ∷ ks) k =
    ap (λ t. x ++ t) (joined-append ks k) ∙ sym (append_assoc x (joined ks) k)

not_empty : (n : ℕ) → (suc n == 0) ≡ false
not_empty n = ground arith

module _ {ℓ} {S : Type ℓ} (p : FilterPolicy S) where
  add_filter_key-builder_of :
      (before : List Bytes) (k : Bytes)
      → add_filter_key (some p) (builder_of before) k ≡ builder_of (before ++ k ∷ [])
  unfolding add_filter_key
  add_filter_key-builder_of before k =
      ap₂ (λ (a : Bytes) (b : List ℕ). record { keys = a; key_offsets = b })
        (sym (joined-append before k))
        (ap (λ (m : ℕ). offsets_from 0 before ++ m ∷ []) (omega arith)
          ∙ sym (offsets_from-append 0 before k))

  foldl-add_filter_key :
      (before ks : List Bytes)
      → foldl (add_filter_key (some p)) (builder_of before) ks ≡ builder_of (before ++ ks)
  foldl-add_filter_key before [] = ap builder_of (sym (append-nil before))
  foldl-add_filter_key before (k ∷ ks) =
      ap (λ b. foldl (add_filter_key (some p)) b ks) (add_filter_key-builder_of before k)
      ∙ foldl-add_filter_key (before ++ k ∷ []) ks
      ∙ ap builder_of (append_assoc before (k ∷ []) ks)

  -- GenerateFilter after any keys were added, at least one, makes the filter of exactly those keys in
  -- their order, for any policy, and leaves the builder cleared.
  pub generate_filter-add_filter_key :
      (s : S) (k : Bytes) (ks : List Bytes)
      → generate_filter (some p) s (foldl (add_filter_key (some p)) cleared (k ∷ ks))
        ≡ ((p.create_filter s (k ∷ ks) []).0, some (p.create_filter s (k ∷ ks) []).1, cleared)
  unfolding generate_filter
  generate_filter-add_filter_key s k ks =
      let result =
        p.create_filter s
          (slices_at (joined (k ∷ ks)) (offsets_from 0 (k ∷ ks) ++ length (joined (k ∷ ks)) ∷ []))
          [] in
      ap (generate_filter (some p) s) (foldl-add_filter_key [] (k ∷ ks))
      ∙ ap (λ empty. if empty then (s, none, cleared) else (result.0, some result.1, cleared))
          (not_empty (length (offsets_from (0 + length k) ks)))
      ∙ ap (λ keys. ((p.create_filter s keys []).0, some (p.create_filter s keys []).1, cleared))
          (slices_at-joined [] (k ∷ ks) 0 (length (joined (k ∷ ks))) refl (omega arith))

some_inj : {a b : Bytes} → Path (Option Bytes) (some a) (some b) → a ≡ b
some_inj h = cc

-- With the Bloom filter, a key that was added matches the filter that GenerateFilter returns: at most
-- 30 probes, and a number of bits that does not overflow 64 bits.
pub key_may_match-generate_filter :
    (p q : BloomFilterPolicy) (k : Bytes) (ks : List Bytes) (key filter : Bytes)
    → p.k ≤ 30
    → length (k ∷ ks) * p.bits_per_key < 2 ^ 64 - 7
    → IsIn key (k ∷ ks)
    → (generate_filter
        (some bloom_filter)
        p
        (foldl (add_filter_key (some bloom_filter)) cleared (k ∷ ks))).1
      ≡ some filter
    → key_may_match q key filter ≡ true
key_may_match-generate_filter p q k ks key filter probes few member made =
    subst (λ f. key_may_match q key f ≡ true)
      (some_inj (ap (λ r. r.1) (sym (generate_filter-add_filter_key bloom_filter p k ks)) ∙ made))
      (key_may_match-create_filter p q (k ∷ ks) [] key probes few member)
