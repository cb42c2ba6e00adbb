-- ===== src/Batch/Runs.antt =====
-- Concrete runs, and the theorems at concrete inputs.
use pebblesdb.Common.{ℕ, ◌-◌, ◌^◌, ◌≡◌, ◌≢◌, refl, List, [], ◌∷◌, ◌++◌, Bytes, arith}
use pebblesdb.Status.{ok, corruption}
use pebblesdb.Batch.{
  WriteBatch, Handler, iterate, iterate_loop, iterate_round, done, stuck, append, sequence,
}
use pebblesdb.Batch.Layout.{Operation, put_op, delete_op, guard_op, build}
use pebblesdb.Batch.Iterate.{iterate-build, iterate-append}
use pebblesdb.Batch.Ending.{iterate-ne-stuck}
use pebblesdb.Batch.Guards.{GuardInserter, guard_levels}

-- A handler that records the calls.
abbrev recorder : Handler (List Operation)
recorder = record {
  put = λ key v s. s ++ put_op key v ∷ [];
  delete = λ key s. s ++ delete_op key ∷ [];
  handle_guard = λ key level s. s ++ guard_op key level ∷ [];
}

abbrev three : List Operation
three = put_op (1 ∷ 2 ∷ []) (3 ∷ []) ∷ delete_op (4 ∷ []) ∷ guard_op (5 ∷ []) 6 ∷ []

abbrev plain : List Operation
plain = put_op (1 ∷ 2 ∷ []) (3 ∷ []) ∷ delete_op (4 ∷ []) ∷ []

-- A batch with a tag that no record has.
abbrev broken : WriteBatch
broken = record { rep = 0 ∷ 0 ∷ 0 ∷ 0 ∷ 0 ∷ 0 ∷ 0 ∷ 0 ∷ 1 ∷ 0 ∷ 0 ∷ 0 ∷ 9 ∷ [] }

broken_fails : iterate recorder broken [] ≡ done (corruption "unknown WriteBatch tag") []
unfolding iterate iterate_loop iterate_round
broken_fails = refl

iterate-build_example : iterate recorder (build three) [] ≡ done ok three
iterate-build_example = iterate-build recorder three [] (omega arith) (omega arith)

iterate-append_example :
    iterate recorder (append (build three) (build plain)) [] ≡ done ok (three ++ plain)
iterate-append_example =
    iterate-append recorder three plain [] (omega arith) (omega arith) (omega arith)

iterate-ne-stuck_example : iterate recorder broken [] ≢ stuck
iterate-ne-stuck_example = iterate-ne-stuck recorder broken []

-- A hash whose low 21 bits are set makes the key a guard from level 3 down.
abbrev sample_hash : Bytes → ℕ
sample_hash key = 2 ^ 21 - 1

guard_levels_sample : guard_levels (2 ^ 21 - 1) ≡ 3 ∷ 4 ∷ 5 ∷ 6 ∷ []
unfolding guard_levels
guard_levels_sample = refl

abbrev idle : GuardInserter
idle = record { new_batch = build []; sequence = 0; num_guards = 0 ∷ 0 ∷ 0 ∷ 0 ∷ 0 ∷ 0 ∷ 0 ∷ [] }
