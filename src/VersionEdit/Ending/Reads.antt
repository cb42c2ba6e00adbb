-- ===== src/VersionEdit/Ending/Reads.antt =====
-- How many bytes the reads of DecodeFrom leave (db/version_edit.cc).
use pebblesdb.Common.{
  ℕ, ◌≤◌, Bool, true, false, Option, none, some, Bytes, arith, length, if◌then◌else◌, ◌>>=◌, ltb,
  Option-cases, inl, inr,
}
use pebblesdb.Coding.{get_varint32, get_varint64, get_length_prefixed_slice}
use pebblesdb.Coding.Varint.{get_varint32_shorter, get_varint64_takes}
use pebblesdb.Coding.Slices.{get_length_prefixed_slice_shorter}
use pebblesdb.VersionEdit.Decode.{
  get_internal_key, get_level, get_level_and_key, get_level_and_number, get_new_file, get_guard,
  Locals, read_or, get_range,
}

-- A read leaves at most `n` bytes.
abbrev pub Within {ℓ} : {A : Type ℓ} → ℕ → Option (A × Bytes) → Type 0
Within n none = Unit
Within n (some (a, rest)) = length rest ≤ n

module _ {ℓ κ} {A : Type ℓ} {B : Type κ} (n : ℕ) where
  pub Within-chain :
      (m : Option (A × Bytes)) (f : A × Bytes → Option (B × Bytes))
      → Within n m
      → ((a : A) (rest : Bytes) → length rest ≤ n → Within n (f (a, rest)))
      → Within n (m >>= f)
  Within-chain none f h k = tt
  Within-chain (some (a, rest)) f h k = k a rest h

pub Within-get_varint32 : (n : ℕ) (input : Bytes) → length input ≤ n → Within n (get_varint32 input)
Within-get_varint32 n input h = elim (Option-cases (get_varint32 input)) [
  | inl e ↦ rw e tt
  | inr ((v, rest), e) ↦ rw e (omega (arith, get_varint32_shorter input v rest e))
]

pub Within-get_varint64 : (n : ℕ) (input : Bytes) → length input ≤ n → Within n (get_varint64 input)
Within-get_varint64 n input h = elim (Option-cases (get_varint64 input)) [
  | inl e ↦ rw e tt
  | inr ((v, rest), e) ↦ rw e (omega (arith, get_varint64_takes input v rest e))
]

pub Within-get_internal_key :
    (n : ℕ) (input : Bytes) → length input ≤ n → Within n (get_internal_key input)
Within-get_internal_key n input h = elim (Option-cases (get_length_prefixed_slice input)) [
  | inl e ↦ rw e tt
  | inr ((v, rest), e) ↦ rw e (omega (arith, get_length_prefixed_slice_shorter input v rest e))
]

module _ (n : ℕ) where
  pub Within-get_level : (input : Bytes) → length input ≤ n → Within n (get_level input)
  unfolding get_level
  Within-get_level input h =
      Within-chain n (get_varint32 input) _ (Within-get_varint32 n input h)
        (λ v rest k. within_if (ltb v 7) v rest k)
    where
      within_if :
          (b : Bool) (v : ℕ) (rest : Bytes)
          → length rest ≤ n
          → Within n (if b then some (v, rest) else none)
      within_if true v rest k = k
      within_if false v rest k = tt

  pub Within-get_level_and_key :
      (input : Bytes) → length input ≤ n → Within n (get_level_and_key input)
  Within-get_level_and_key input h =
      Within-chain n (get_level input) _ (Within-get_level input h) (λ level rest k.
        Within-chain n (get_internal_key rest) _ (Within-get_internal_key n rest k)
          (λ key rest' k'. k'))

  pub Within-get_level_and_number :
      (input : Bytes) → length input ≤ n → Within n (get_level_and_number input)
  Within-get_level_and_number input h =
      Within-chain n (get_level input) _ (Within-get_level input h) (λ level rest k.
        Within-chain n (get_varint64 rest) _ (Within-get_varint64 n rest k) (λ number rest' k'. k'))

  pub Within-get_new_file : (input : Bytes) → length input ≤ n → Within n (get_new_file input)
  Within-get_new_file input h =
      Within-chain n (get_level_and_number input) _ (Within-get_level_and_number input h)
        (λ p rest k.
          Within-chain n (get_varint64 rest) _ (Within-get_varint64 n rest k) (λ size rest' k'.
            Within-chain n (get_internal_key rest') _ (Within-get_internal_key n rest' k')
              (λ smallest rest'' k''.
                Within-chain n (get_internal_key rest'') _ (Within-get_internal_key n rest'' k'')
                  (λ largest rest''' k'''. k'''))))

  pub Within-get_guard : (input : Bytes) → length input ≤ n → Within n (get_guard input)
  Within-get_guard input h =
      Within-chain n (get_level_and_number input) _ (Within-get_level_and_number input h)
        (λ p rest k.
          Within-chain n (get_internal_key rest) _ (Within-get_internal_key n rest k)
            (λ key rest' k'. k'))

  pub Within-get_range :
      (l : Locals) (input : Bytes) → length input ≤ n → Within n (get_range l input)
  Within-get_range l input h =
      Within-chain n (get_internal_key input) _ (Within-get_internal_key n input h) (λ a rest k.
        Within-chain n (get_internal_key rest) _ (Within-get_internal_key n rest k)
          (λ b rest' k'. k'))

  pub read_or-Within :
      (r : Option (ℕ × Bytes)) (old : ℕ) (input : Bytes)
      → length input ≤ n
      → Within n r
      → length (read_or r old input).1 ≤ n
  read_or-Within none old input h k = h
  read_or-Within (some (v, rest)) old input h k = k
