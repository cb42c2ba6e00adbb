-- ===== src/Compaction/Ranges.antt =====
-- The files of a level over a user key (db/version_set.cc, IsBaseLevelForKey).
use Prim.Native.Nat.{Ordering}
use pebblesdb.Common.{
  ◌≡◌, ◌≢◌, refl, sym, ap, ◌∙◌, Bool, true, false, ◌&&◌, ◌||◌, not, List, [], ◌∷◌, Bytes, All,
  if◌then◌else◌,
}
use pebblesdb.Comparator.{Comparator, IsOrder, reverse_order, is_lt}
use pebblesdb.Dbformat.{extract_user_key}
use pebblesdb.VersionEdit.{FileMetaData}
use pebblesdb.Compaction.{Levels, is_gt, in_level}

abbrev pub smallest_of : FileMetaData → Bytes
smallest_of f = extract_user_key f.smallest

abbrev pub largest_of : FileMetaData → Bytes
largest_of f = extract_user_key f.largest

module _ (user : Comparator) where
  -- The key lies in the range of the file.
  abbrev pub holds : Bytes → FileMetaData → Bool
  holds k f =
      not (is_gt (user.compare k (largest_of f))) && not (is_lt (user.compare k (smallest_of f)))

  abbrev pub any_holds : Bytes → List FileMetaData → Bool
  any_holds k [] = false
  any_holds k (f ∷ files) = holds k f || any_holds k files

  -- The key lies in the range of some file of the levels.
  abbrev pub found : Bytes → Levels → Bool
  found k [] = false
  found k (files ∷ levels) = any_holds k files || found k levels

  -- The files of a level in the order of their smallest user keys.
  abbrev pub IsBySmallest : List FileMetaData → Type 0
  IsBySmallest [] = Unit
  IsBySmallest (f ∷ files) =
      All (λ g. user.compare (smallest_of f) (smallest_of g) ≢ Ordering.gt) files
      × IsBySmallest files

module _ (user : Comparator) (order : IsOrder user.compare) where
  lt-not_gt :
      (a b c : Bytes)
      → user.compare a b ≡ Ordering.lt
      → user.compare b c ≢ Ordering.gt
      → user.compare a c ≡ Ordering.lt
  lt-not_gt a b c lt le = by_case (user.compare b c) refl
    where
      by_case : (o : Ordering) → user.compare b c ≡ o → user.compare a c ≡ Ordering.lt
      by_case Ordering.lt e = order.trans a b c lt e
      by_case Ordering.eq e =
          order.flip c a
          ∙ ap reverse_order (sym (order.eq_left b c a e) ∙ order.flip a b ∙ ap reverse_order lt)
      by_case Ordering.gt e = absurd (le e)

  -- A key above another one that is above a file.
  gt-not_gt :
      (k v b : Bytes)
      → user.compare k b ≡ Ordering.gt
      → user.compare k v ≢ Ordering.gt
      → user.compare v b ≡ Ordering.gt
  gt-not_gt k v b gt le =
      order.flip b v ∙ ap reverse_order (lt-not_gt b k v (order.flip k b ∙ ap reverse_order gt) le)

  any_holds-below :
      (k s : Bytes) (files : List FileMetaData)
      → user.compare k s ≡ Ordering.lt
      → All (λ g. user.compare s (smallest_of g) ≢ Ordering.gt) files
      → any_holds user k files ≡ false
  any_holds-below k s [] lt all = refl
  any_holds-below k s (g ∷ files) lt all =
      ap
        (λ o.
          (not (is_gt (user.compare k (largest_of g))) && not (is_lt o)) || any_holds user k files)
        (lt-not_gt k s (smallest_of g) lt all.0)
      ∙ last (is_gt (user.compare k (largest_of g))) (any_holds-below k s files lt all.1)
    where
      last : (b : Bool) {c : Bool} → c ≡ false → ((not b && false) || c) ≡ false
      last true e = e
      last false e = e

  pub in_level-any :
      (k : Bytes) (files : List FileMetaData)
      → IsBySmallest user files
      → (in_level user k files).0 ≡ any_holds user k files
  unfolding in_level
  in_level-any k [] sorted = refl
  in_level-any k (f ∷ files) sorted =
      by_case (user.compare k (smallest_of f)) refl (is_gt (user.compare k (largest_of f)))
        (in_level user k files) (in_level-any k files sorted.1)
    where
      by_case :
          (o : Ordering)
          → user.compare k (smallest_of f) ≡ o
          → (above : Bool) (rest : Bool × List FileMetaData) → rest.0 ≡ any_holds user k files
          → (if above then rest else (not (is_lt o), f ∷ files)).0
            ≡ ((not above && not (is_lt o)) || any_holds user k files)
      by_case o e true rest h = h
      by_case Ordering.lt e false rest h = sym (any_holds-below k (smallest_of f) files e sorted.0)
      by_case Ordering.eq e false rest h = refl
      by_case Ordering.gt e false rest h = refl

  pub in_level-later :
      (k v : Bytes) (files : List FileMetaData)
      → user.compare k v ≢ Ordering.gt
      → any_holds user v (in_level user k files).1 ≡ any_holds user v files
  unfolding in_level
  in_level-later k v [] le = refl
  in_level-later k v (f ∷ files) le =
      by_case (user.compare k (largest_of f)) refl (in_level user k files)
        (in_level-later k v files le)
    where
      by_case :
          (o : Ordering)
          → user.compare k (largest_of f) ≡ o
          → (rest : Bool × List FileMetaData) → any_holds user v rest.1 ≡ any_holds user v files
          → any_holds user v
              (if is_gt o
                then rest
                else (not (is_lt (user.compare k (smallest_of f))), f ∷ files)).1
            ≡ (holds user v f || any_holds user v files)
      by_case Ordering.gt e rest h =
          h
          ∙ sym (
              ap
                (λ o.
                  (not (is_gt o) && not (is_lt (user.compare v (smallest_of f))))
                  || any_holds user v files)
                (gt-not_gt k v (largest_of f) e le))
      by_case Ordering.eq e rest h = refl
      by_case Ordering.lt e rest h = refl

  pub in_level-IsBySmallest :
      (k : Bytes) (files : List FileMetaData)
      → IsBySmallest user files
      → IsBySmallest user (in_level user k files).1
  unfolding in_level
  in_level-IsBySmallest k [] sorted = tt
  in_level-IsBySmallest k (f ∷ files) sorted =
      by_case (is_gt (user.compare k (largest_of f))) (in_level user k files)
        (in_level-IsBySmallest k files sorted.1)
    where
      by_case :
          (above : Bool) (rest : Bool × List FileMetaData)
          → IsBySmallest user rest.1
          → IsBySmallest user
              (if above then rest else (not (is_lt (user.compare k (smallest_of f))), f ∷ files)).1
      by_case true rest h = h
      by_case false rest h = sorted
