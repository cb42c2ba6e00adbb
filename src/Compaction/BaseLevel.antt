-- ===== src/Compaction/BaseLevel.antt =====
-- The search of the deeper levels for a user key (db/version_set.cc, IsBaseLevelForKey).
use Prim.Native.Nat.{Ordering}
use pebblesdb.Common.{
  ◌≡◌, ◌≢◌, refl, ap, ◌∙◌, Bool, true, false, ◌||◌, not, List, [], ◌∷◌, Bytes, All,
}
use pebblesdb.Comparator.{Comparator, IsOrder}
use pebblesdb.VersionEdit.{FileMetaData}
use pebblesdb.Compaction.{Levels, in_level, at_level, is_base_level_for_key}
use pebblesdb.Compaction.Ranges.{
  any_holds, found, IsBySmallest, in_level-any, in_level-later, in_level-IsBySmallest,
}

module _ (user : Comparator) where
  -- Keys that do not decrease.
  abbrev pub IsAscending : List Bytes → Type 0
  IsAscending [] = Unit
  IsAscending (k ∷ ks) = All (λ v. user.compare k v ≢ Ordering.gt) ks × IsAscending ks

  abbrev pub answer_then : (Levels → List Bool) → Bool × Levels → List Bool
  answer_then rest (base, levels) = base ∷ rest levels

  -- What IsBaseLevelForKey answers when it is asked for one key after the other.
  unfoldable pub answers : Levels → List Bytes → List Bool
  answers levels [] = []
  answers levels (k ∷ ks) =
      answer_then (λ levels'. answers levels' ks) (is_base_level_for_key user k levels)

  -- What a search of all files would answer.
  unfoldable pub searches : Levels → List Bytes → List Bool
  searches levels [] = []
  searches levels (k ∷ ks) = not (found user k levels) ∷ searches levels ks

module _ (user : Comparator) (order : IsOrder user.compare) where
  base-found :
      (k : Bytes) (levels : Levels)
      → All (IsBySmallest user) levels
      → (is_base_level_for_key user k levels).0 ≡ not (found user k levels)
  unfolding is_base_level_for_key
  base-found k [] sorted = refl
  base-found k (files ∷ levels) sorted =
      by_case (is_base_level_for_key user k levels) (in_level user k files) _ _
        (in_level-any user order k files sorted.0) (base-found k levels sorted.1)
    where
      by_case :
          (deeper : Bool × Levels) (here : Bool × List FileMetaData) (a b : Bool)
          → here.0 ≡ a
          → deeper.0 ≡ not b
          → (at_level user deeper levels here).0 ≡ not (a || b)
      by_case deeper (true, left) a b e e' = ap (λ x. not (x || b)) e
      by_case deeper (false, left) a b e e' = e' ∙ ap (λ x. not (x || b)) e

  base-later :
      (k v : Bytes) (levels : Levels)
      → user.compare k v ≢ Ordering.gt
      → found user v (is_base_level_for_key user k levels).1 ≡ found user v levels
  unfolding is_base_level_for_key
  base-later k v [] le = refl
  base-later k v (files ∷ levels) le =
      by_case (is_base_level_for_key user k levels) (in_level user k files)
        (in_level-later user order k v files le) (base-later k v levels le)
    where
      by_case :
          (deeper : Bool × Levels) (here : Bool × List FileMetaData)
          → any_holds user v here.1 ≡ any_holds user v files
          → found user v deeper.1 ≡ found user v levels
          → found user v (at_level user deeper levels here).1
            ≡ (any_holds user v files || found user v levels)
      by_case deeper (true, left) e e' = ap (λ x. x || found user v levels) e
      by_case deeper (false, left) e e' =
          ap (λ x. x || found user v deeper.1) e ∙ ap (λ x. any_holds user v files || x) e'

  base-IsBySmallest :
      (k : Bytes) (levels : Levels)
      → All (IsBySmallest user) levels
      → All (IsBySmallest user) (is_base_level_for_key user k levels).1
  unfolding is_base_level_for_key
  base-IsBySmallest k [] sorted = tt
  base-IsBySmallest k (files ∷ levels) sorted =
      by_case (is_base_level_for_key user k levels) (in_level user k files)
        (in_level-IsBySmallest user order k files sorted.0) (base-IsBySmallest k levels sorted.1)
    where
      by_case :
          (deeper : Bool × Levels) (here : Bool × List FileMetaData)
          → IsBySmallest user here.1
          → All (IsBySmallest user) deeper.1
          → All (IsBySmallest user) (at_level user deeper levels here).1
      by_case deeper (true, left) e e' = (e, sorted.1)
      by_case deeper (false, left) e e' = (e, e')

  searches-base :
      (k : Bytes) (levels : Levels) (ks : List Bytes)
      → All (λ v. user.compare k v ≢ Ordering.gt) ks
      → searches user (is_base_level_for_key user k levels).1 ks ≡ searches user levels ks
  unfolding searches
  searches-base k levels [] le = refl
  searches-base k levels (v ∷ ks) le =
      ap (λ b. not b ∷ searches user (is_base_level_for_key user k levels).1 ks)
        (base-later k v levels le.0)
      ∙ ap (λ bs. not (found user v levels) ∷ bs) (searches-base k levels ks le.1)

  -- Asked for keys that do not decrease, IsBaseLevelForKey, which goes on in each level where it stopped,
  -- answers for every key what a search of all files of the levels would: whether the key lies in the
  -- range of none. The files of a level are in the order of their smallest user keys, and the user
  -- comparator is a total order.
  pub answers-searches :
      (levels : Levels) (ks : List Bytes)
      → All (IsBySmallest user) levels
      → IsAscending user ks
      → answers user levels ks ≡ searches user levels ks
  unfolding answers searches
  answers-searches levels [] sorted ascending = refl
  answers-searches levels (k ∷ ks) sorted ascending =
      ap (λ b. b ∷ answers user (is_base_level_for_key user k levels).1 ks)
        (base-found k levels sorted)
      ∙ ap (λ bs. not (found user k levels) ∷ bs)
          (answers-searches (is_base_level_for_key user k levels).1 ks
              (base-IsBySmallest k levels sorted) ascending.1
            ∙ searches-base k levels ks ascending.0)
