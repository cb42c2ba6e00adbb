-- ===== src/FilterBlock.antt =====
-- table/filter_block.h and table/filter_block.cc: FileLevelFilterBuilder, which collects the keys of a
-- table for one filter. The keys are kept in one string with the offset of each.
pub mod Slices
mod Runs
use pebblesdb.Common.{
  ℕ, zero, suc, ◌+◌, ◌-◌, ◌≡◌, Bool, Option, none, some, List, [], ◌∷◌, ◌++◌, Bytes, length, take,
  drop, if◌then◌else◌, ◌==◌,
}
use pebblesdb.Bloom.{FilterPolicy}

pub record FileLevelFilterBuilder : Type 0 where
  pub keys : Bytes
  pub key_offsets : List ℕ

-- Clear, and the state after the constructor.
abbrev pub cleared : FileLevelFilterBuilder
cleared = record { keys = []; key_offsets = [] }

-- The slices between the offsets: `base = keys + offsets[i]`, `length = offsets[i + 1] - offsets[i]`.
unfoldable pub slices_at : Bytes → List ℕ → List Bytes
slices_at keys [] = []
slices_at keys (offset ∷ []) = []
slices_at keys (offset ∷ limit ∷ offsets) =
    take (limit - offset) (drop offset keys) ∷ slices_at keys (limit ∷ offsets)

-- A policy that is NULL is `none`.
module _ {ℓ} {S : Type ℓ} (policy : Option (FilterPolicy S)) where
  unfoldable pub add_filter_key : FileLevelFilterBuilder → Bytes → FileLevelFilterBuilder
  add_filter_key b key = elim policy [
    | none ↦ b
    | some p ↦ record { keys = b.keys ++ key; key_offsets = b.key_offsets ++ length b.keys ∷ [] }
  ]

  -- GenerateFilter on the state of the policy: the filter, or `none` for NULL, and the builder.
  unfoldable pub generate_filter :
      S → FileLevelFilterBuilder → S × Option Bytes × FileLevelFilterBuilder
  generate_filter s b = elim policy [
    | none ↦ (s, none, cleared)
    | some p ↦
        let offsets = b.key_offsets ++ length b.keys ∷ [] in
        let (s', result) = p.create_filter s (slices_at b.keys offsets) [] in
        if length b.key_offsets == 0 then (s, none, cleared) else (s', some result, cleared)
  ]
