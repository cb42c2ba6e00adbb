-- ===== src/Dbformat/Lookup.antt =====
-- The parts of a LookupKey (db/dbformat.cc).
use mathlib.Core.Path.{◌≡⟨◌⟩◌, ◌∎}
use pebblesdb.Common.{
  ℕ, ◌+◌, ◌-◌, ◌%◌, ◌^◌, ◌<◌, ◌≡◌, refl, sym, ap, some, [], ◌++◌, append-nil, Bytes, arith, length,
  length-append, take-append, drop-append,
}
use pebblesdb.Coding.{encode_varint32, encode_fixed64, get_length_prefixed_slice}
use pebblesdb.Coding.Slices.{prefixed, get_length_prefixed_slice-prefixed}
use pebblesdb.Dbformat.{
  pack_sequence_and_type, value_type_for_seek, value, lookup_key, memtable_key, internal_key,
  user_key, append_internal_key,
}
use pebblesdb.Dbformat.Keys.{tagged, length-tagged, append_internal_key-eq-tagged}

module _ (ukey : Bytes) (s : ℕ) where
  abbrev tag : ℕ
  tag = pack_sequence_and_type s value_type_for_seek

  -- The internal key of a lookup is what AppendInternalKey writes for the seek type.
  pub internal_key-lookup_key :
      internal_key (lookup_key ukey s)
      ≡ append_internal_key [] (record { user_key = ukey; sequence = s; type = value })
  unfolding internal_key lookup_key
  internal_key-lookup_key =
      rw (append_internal_key-eq-tagged (record { user_key = ukey; sequence = s; type = value }))
        (drop-append (encode_varint32 ((length ukey + 8) % 2 ^ 32)) (tagged ukey tag))

  pub user_key-lookup_key : user_key (lookup_key ukey s) ≡ ukey
  unfolding user_key lookup_key
  user_key-lookup_key =
      let head : Bytes = encode_varint32 ((length ukey + 8) % 2 ^ 32) in
      let size : length (head ++ tagged ukey tag) - length head - 8 ≡ length ukey =
        omega (arith, length-append head (tagged ukey tag), length-tagged ukey tag) in
      rw (size, drop-append head (tagged ukey tag)) (take-append ukey (encode_fixed64 tag))

  -- The memtable key is the internal key as a length-prefixed slice.
  pub get_length_prefixed_slice-memtable_key :
      length ukey + 8 < 2 ^ 32
      → get_length_prefixed_slice (memtable_key (lookup_key ukey s))
        ≡ some (internal_key (lookup_key ukey s), [])
  get_length_prefixed_slice-memtable_key h =
      get_length_prefixed_slice (memtable_key (lookup_key ukey s))
      ≡⟨ ap get_length_prefixed_slice layout ⟩
        get_length_prefixed_slice (prefixed (tagged ukey tag) ++ [])
      ≡⟨ get_length_prefixed_slice-prefixed (tagged ukey tag) []
          (omega (arith, length-tagged ukey tag)) ⟩
        some (tagged ukey tag, [])
      ≡⟨ ap (λ k. some (k, [])) (sym inner) ⟩ some (internal_key (lookup_key ukey s), []) ∎
    where
      layout : memtable_key (lookup_key ukey s) ≡ prefixed (tagged ukey tag) ++ []
      layout =
          unfold memtable_key lookup_key in
          rw (append-nil (prefixed (tagged ukey tag)), length-tagged ukey tag) refl

      inner : internal_key (lookup_key ukey s) ≡ tagged ukey tag
      inner =
          unfold internal_key lookup_key in
          drop-append (encode_varint32 ((length ukey + 8) % 2 ^ 32)) (tagged ukey tag)
