-- ===== src/VersionSet/Search.antt =====
-- FindFile on files in the order of their largest keys (db/version_set.cc).
use Prim.Native.Nat.{Ordering}
use pebblesdb.Common.{ℕ, ◌<◌, ◌≤◌, ◌≡◌, ◌≢◌, true, false, List, [], ◌∷◌, Bytes, All}
use pebblesdb.Comparator.{Comparator, IsOrder}
use pebblesdb.Dbformat.{internal_compare}
use pebblesdb.VersionEdit.{FileMetaData}
use pebblesdb.VersionSet.{file_below}

-- The largest keys of the files do not decrease.
abbrev pub IsSortedByLargest : Comparator → List FileMetaData → Type 0
IsSortedByLargest user [] = Unit
IsSortedByLargest user (f ∷ fs) =
    All (λ g. internal_compare user f.largest g.largest ≢ Ordering.gt) fs
    × IsSortedByLargest user fs

module _ (user : Comparator) (order : IsOrder user.compare) (key : Bytes) where
  -- `r` splits the files into those below the key and those that are not.
  abbrev pub Splits : List FileMetaData → ℕ → Type 0
  Splits fs r =
      ((i : ℕ) → i < r → file_below user fs key i ≡ true)
      × ((i : ℕ) → r ≤ i → file_below user fs key i ≡ false)
