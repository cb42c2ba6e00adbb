-- ===== src/Batch/Guards.antt =====
-- GuardInserter and SetGuards of db/write_batch.cc: which keys of a batch become guards, and on which
-- levels. The hash of a key, MurmurHash3_x86_32 with the seed 42, is a parameter.
pub mod Levels
pub mod Collect
use mathlib.Core.List.{foldl, foldl-append}
use native.Mathlib.Nat.{div-add-mod', add-mul-mod_self_right, mod-eq_of_lt, one-le-pow}
use native.Mathlib.Numerals.{towards_suc}
use pebblesdb.Common.{
  ℕ, zero, suc, ◌+◌, ◌-◌, ◌*◌, ◌%◌, ◌^◌, ◌<◌, ◌≤◌, ◌≡◌, ◌≢◌, refl, sym, ap, ◌∙◌, none, some, List,
  [], ◌∷◌, ◌++◌, map, Bytes, arith, length, Option, if◌then◌else◌, ◌==◌, false, bit_and, subst, ◌/◌,
  ==_iff, Bool-cases, inl, inr, replicate, All,
}
use pebblesdb.Common.Bits.{bit_and_mask}
use pebblesdb.Dbformat.{num_levels}
use pebblesdb.Batch.{WriteBatch, Handler, Outcome, done, put_guard, iterate, sequence}
use pebblesdb.Status.{ok}
use pebblesdb.Batch.Layout.{Operation, put_op, delete_op, guard_op, add, build}
use pebblesdb.Batch.Iterate.{call, Fits, iterate-build}

abbrev pub top_level_bits : ℕ
top_level_bits = 27

abbrev pub bit_decrement : ℕ
bit_decrement = 2

pub record GuardInserter : Type 0 where
  pub new_batch : WriteBatch
  pub sequence : ℕ
  pub num_guards : List ℕ

-- set_mask
abbrev pub mask : ℕ → ℕ
mask num_bits = 2 ^ num_bits - 1

-- `num_guards[j]++`
unfoldable pub bump : List ℕ → ℕ → List ℕ
bump [] j = []
bump (n ∷ ns) zero = (n + 1) ∷ ns
bump (n ∷ ns) (suc j) = n ∷ bump ns j

-- The inner loop: a guard on level `j` and the `rounds` levels from there.
unfoldable pub insert_guards : ℕ → ℕ → Bytes → GuardInserter → GuardInserter
unfolding bump
insert_guards zero j key s = s
insert_guards (suc rounds) j key s =
    insert_guards rounds (j + 1) key
      (record s { new_batch = put_guard s.new_batch key j; num_guards = bump s.num_guards j })

-- The outer loop, which ends at the first level whose bits are all set.
unfoldable pub find_guard : ℕ → ℕ → ℕ → ℕ → Bytes → GuardInserter → GuardInserter
unfolding insert_guards
find_guard zero i num_bits hash key s = s
find_guard (suc rounds) i num_bits hash key s =
    let deeper = find_guard rounds (i + 1) (num_bits - bit_decrement) hash key s in
    if bit_and hash (mask num_bits) == mask num_bits
    then insert_guards (num_levels - i) i key s
    else deeper

-- The inserter as SetGuards starts it.
abbrev pub guard_start : WriteBatch → WriteBatch → GuardInserter
guard_start b new_b = record {
  new_batch = new_b;
  sequence = sequence b;
  num_guards = replicate num_levels 0;
}

module _ (hash : Bytes → ℕ) where
  unfoldable pub guard_put : Bytes → Bytes → GuardInserter → GuardInserter
  guard_put key v s =
      let s' = find_guard num_levels 0 top_level_bits (hash key) key s in
      record s' { sequence = s'.sequence + 1 }

  unfoldable pub guard_delete : Bytes → GuardInserter → GuardInserter
  guard_delete key s = record s { sequence = s.sequence + 1 }

  -- HandleGuard asserts that it is never called.
  abbrev pub guard_inserter : Handler GuardInserter
  guard_inserter = record {
    put = guard_put;
    delete = guard_delete;
    handle_guard = λ key level s. s;
  }

  -- SetGuards, with the batch that collects the guards.
  unfoldable pub set_guards : WriteBatch → WriteBatch → Outcome GuardInserter
  set_guards b new_b = iterate guard_inserter b (guard_start b new_b)

-- A key is a guard of level `j` if the low 27 - 2 * j bits of its hash are set.
abbrev pub level_bits : ℕ → ℕ
level_bits j = top_level_bits - 2 * j

abbrev pub levels_from : ℕ → ℕ → ℕ → List ℕ
levels_from zero j hash = []
levels_from (suc rounds) j hash =
    if hash % 2 ^ level_bits j == mask (level_bits j)
    then j ∷ levels_from rounds (j + 1) hash
    else levels_from rounds (j + 1) hash

-- Every level, tested on its own.
unfoldable pub guard_levels : ℕ → List ℕ
guard_levels hash = levels_from num_levels 0 hash
