-- ===== src/Batch/Guards/Collect.antt =====
-- SetGuards on a whole batch.
use pebblesdb.Common.{ℕ, List, [], ◌∷◌, ◌++◌, map, Bytes}
use pebblesdb.Batch.Layout.{Operation, put_op, delete_op, guard_op}
use pebblesdb.Batch.Guards.{guard_levels}

-- A client's batch holds no guard records of its own: HandleGuard asserts that it sees none.
abbrev pub IsPlain : Operation → Type 0
IsPlain (put_op key v) = Unit {0}
IsPlain (delete_op key) = Unit {0}
IsPlain (guard_op key level) = ⊥

-- The guard records that the operations of a batch give rise to, in order.
abbrev pub guards_of : (Bytes → ℕ) → List Operation → List Operation
guards_of hash [] = []
guards_of hash (put_op key v ∷ ops) =
    map (guard_op key) (guard_levels (hash key)) ++ guards_of hash ops
guards_of hash (delete_op key ∷ ops) = guards_of hash ops
guards_of hash (guard_op key level ∷ ops) = guards_of hash ops
