-- ===== src/Batch/Guards/Levels.antt =====
-- The loop over the levels, which stops at the first hit, against a test of every level on its own.
use mathlib.Core.List.{foldl}
use pebblesdb.Common.{ℕ, zero, suc, ◌+◌, ◌≡◌, refl, List, [], ◌∷◌, map, Bytes}
use pebblesdb.Batch.{WriteBatch, put_guard}
use pebblesdb.Batch.Layout.{guard_op, add}
use pebblesdb.Batch.Guards.{GuardInserter, bump, insert_guards}

abbrev pub add_guards : Bytes → List ℕ → WriteBatch → WriteBatch
add_guards key levels b = foldl add b (map (guard_op key) levels)

abbrev upto : ℕ → ℕ → List ℕ
upto zero j = []
upto (suc rounds) j = j ∷ upto rounds (j + 1)

pub insert_guards-sequence :
    (rounds j : ℕ) (key : Bytes) (s : GuardInserter)
    → (insert_guards rounds j key s).sequence ≡ s.sequence
unfolding insert_guards
insert_guards-sequence zero j key s = refl
insert_guards-sequence (suc rounds) j key s =
    insert_guards-sequence rounds (j + 1) key
      (record s { new_batch = put_guard s.new_batch key j; num_guards = bump s.num_guards j })
