-- ===== src/Batch/Ending.antt =====
-- The end of Iterate, on any bytes (db/write_batch.cc).
use pebblesdb.Common.{
  ℕ, zero, suc, ◌+◌, ◌<◌, ◌≤◌, ◌≡◌, ◌≢◌, ◌⊎◌, drop, refl, sym, ◌∙◌, none, some, [], ◌∷◌, Bytes,
  arith, length, Option, inl, inr, ◌>>=◌, >>=-eq-some,
}
use pebblesdb.Coding.{get_length_prefixed_slice, get_varint32}
use pebblesdb.Coding.Varint.{get_varint32_shorter}
use pebblesdb.Coding.Slices.{get_length_prefixed_slice_shorter}
use pebblesdb.Status.{Status}
use pebblesdb.Batch.{
  WriteBatch, Handler, Round, next, stop, stuck, after_put, after_delete, after_guard, read_put,
  read_guard, iterate_round, iterate_loop, iterate, count,
}
use pebblesdb.Batch.Iterate.{loop_next}

read_put_shorter :
    (input key v left : Bytes)
    → read_put input ≡ some (key, v, left)
    → length left < suc (length input)
read_put_shorter input key v left e =
    let ((k, one), e1, e') =
      >>=-eq-some (get_length_prefixed_slice input)
        (λ r. get_length_prefixed_slice r.1 >>= λ q. some (r.0, q.0, q.1)) e in
    let ((u, two), e2, e'') =
      >>=-eq-some (get_length_prefixed_slice one) (λ q. some (k, q.0, q.1)) e' in
    ground (
      arith,
      e'',
      get_length_prefixed_slice_shorter input k one e1,
      get_length_prefixed_slice_shorter one u two e2,
    )

read_guard_shorter :
    (input key : Bytes) (level : ℕ) (left : Bytes)
    → read_guard input ≡ some (key, level, left)
    → length left < suc (length input)
read_guard_shorter input key level left e =
    let ((k, one), e1, e') =
      >>=-eq-some (get_length_prefixed_slice input)
        (λ r. get_varint32 r.1 >>= λ q. some (r.0, q.0, q.1)) e in
    let ((u, two), e2, e'') = >>=-eq-some (get_varint32 one) (λ q. some (k, q.0, q.1)) e' in
    ground (
      arith,
      e'',
      get_length_prefixed_slice_shorter input k one e1,
      get_varint32_shorter one u two e2,
    )

Round-cases {ℓ} :
    {S : Type ℓ} (r : Round S)
    → ((s : S) × (rest : Bytes) × (r ≡ next s rest)) ⊎ ((e : Status) × (r ≡ stop e))
Round-cases (next s rest) = inl (s, rest, refl)
Round-cases (stop e) = inr (e, refl)

module _ {ℓ} {S : Type ℓ} (h : Handler S) where
  loop_end-ne-stuck : (fuel total found : ℕ) (s : S) → iterate_loop h fuel total [] found s ≢ stuck
  unfolding iterate_loop
  loop_end-ne-stuck zero total found s e = ground arith
  loop_end-ne-stuck (suc fuel) total found s e = ground arith

  put_shorter :
      (r : Option (Bytes × Bytes × Bytes)) (input : Bytes) (s s' : S) (rest : Bytes)
      → ((key v left : Bytes) → r ≡ some (key, v, left) → length left < suc (length input))
      → after_put h r s ≡ next s' rest
      → length rest < suc (length input)
  put_shorter none input s s' rest short e = cc
  put_shorter (some (key, v, left)) input s s' rest short e = ground (arith, short key v left refl)

  delete_shorter :
      (r : Option (Bytes × Bytes)) (input : Bytes) (s s' : S) (rest : Bytes)
      → ((key left : Bytes) → r ≡ some (key, left) → length left < suc (length input))
      → after_delete h r s ≡ next s' rest
      → length rest < suc (length input)
  delete_shorter none input s s' rest short e = cc
  delete_shorter (some (key, left)) input s s' rest short e = ground (arith, short key left refl)

  guard_shorter :
      (r : Option (Bytes × ℕ × Bytes)) (input : Bytes) (s s' : S) (rest : Bytes)
      → ((key : Bytes) (level : ℕ) (left : Bytes)
          → r ≡ some (key, level, left)
          → length left < suc (length input))
      → after_guard h r s ≡ next s' rest
      → length rest < suc (length input)
  guard_shorter none input s s' rest short e = cc
  guard_shorter (some (key, level, left)) input s s' rest short e =
      ground (arith, short key level left refl)

  -- A round that goes on has taken a byte at least.
  round_shorter :
      (tag : ℕ) (input : Bytes) (s s' : S) (rest : Bytes)
      → iterate_round h tag input s ≡ next s' rest
      → length rest < suc (length input)
  unfolding iterate_round
  round_shorter tag input s s' rest e = ground (
    arith,
    put_shorter (read_put input) input s s' rest (read_put_shorter input),
    delete_shorter (get_length_prefixed_slice input) input s s' rest
        (λ key left r. omega (arith, get_length_prefixed_slice_shorter input key left r)),
    guard_shorter (read_guard input) input s s' rest (read_guard_shorter input),
  )

  loop-ne-stuck :
      (fuel total : ℕ) (input : Bytes) (found : ℕ) (s : S)
      → length input ≤ fuel
      → iterate_loop h fuel total input found s ≢ stuck
  loop-ne-stuck fuel total [] found s enough e = loop_end-ne-stuck fuel total found s e
  loop-ne-stuck zero total (tag ∷ input) found s enough e = absurd (omega arith)
  loop-ne-stuck (suc fuel) total (tag ∷ input) found s enough e =
      elim (Round-cases (iterate_round h tag input s)) [
        | inl (s', rest, r) ↦
            loop-ne-stuck fuel total rest (found + 1) s'
              (omega (arith, round_shorter tag input s s' rest r))
              (sym (loop_next h fuel total tag input found s s' rest r) ∙ e)
        | inr (x, r) ↦ unfold iterate_loop in ground (arith, r, e)
      ]

  -- Iterate ends on every batch, well formed or not.
  pub iterate-ne-stuck : (b : WriteBatch) (s : S) → iterate h b s ≢ stuck
  unfolding iterate
  iterate-ne-stuck b s e =
      ground
        (arith, loop-ne-stuck (length (drop 12 b.rep)) (count b) (drop 12 b.rep) 0 s (omega arith))
