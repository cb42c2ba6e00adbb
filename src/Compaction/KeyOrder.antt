-- ===== src/Compaction/KeyOrder.antt =====
-- The current user key of a compaction against the keys behind it (db/db_impl.cc).
use Prim.Native.Nat.{Ordering}
use pebblesdb.Common.{
  ℕ, ◌≡◌, ◌≢◌, refl, sym, ap, ◌∙◌, Bool, true, false, Option, none, some, List, Bytes,
  if◌then◌else◌,
}
use pebblesdb.Comparator.{Comparator, IsOrder, reverse_order}
use pebblesdb.DbIter.{Entry}
use pebblesdb.DbIter.Newest.{is_eq, same_key, NotBelow}
use pebblesdb.Compaction.{is_current}

module _ (user : Comparator) (order : IsOrder user.compare) (sequence : ℕ) where
  unfoldable pub same : Option Bytes → Bytes → Bool
  same = same_key user sequence

  -- Equal keys are equal to the same keys.
  pub same-eq : (k u v : Bytes) → same (some k) u ≡ true → same (some k) v ≡ same (some u) v
  unfolding same
  same-eq k u v e = ap is_eq (order.eq_left k u v (is_eq→eq (user.compare k u) e))
    where
      is_eq→eq : (o : Ordering) → is_eq o ≡ true → o ≡ Ordering.eq
      is_eq→eq Ordering.eq e = refl
      is_eq→eq Ordering.lt e = cc
      is_eq→eq Ordering.gt e = cc

  -- Behind a greater key no key is equal.
  pub same-greater :
      (k u v : Bytes)
      → user.compare k u ≢ Ordering.gt
      → user.compare u v ≢ Ordering.gt
      → same (some k) u ≡ false
      → same (some k) v ≡ false
  unfolding same
  same-greater k u v le le' differs = by_case (user.compare k u) refl (user.compare u v) refl
    where
      by_case :
          (o : Ordering)
          → user.compare k u ≡ o
          → (o' : Ordering) → user.compare u v ≡ o'
          → is_eq (user.compare k v) ≡ false
      by_case Ordering.gt e o' e' = absurd (le e)
      by_case Ordering.eq e o' e' = let bad : true ≡ false = sym (ap is_eq e) ∙ differs in cc
      by_case Ordering.lt e Ordering.gt e' = absurd (le' e')
      by_case Ordering.lt e Ordering.lt e' = ap is_eq (order.trans k u v e e')
      by_case Ordering.lt e Ordering.eq e' = ap is_eq (
          order.flip v k
          ∙ ap reverse_order (sym (order.eq_left u v k e') ∙ order.flip k u ∙ ap reverse_order e))

  pub is_current-same :
      (smallest cutoff : ℕ) (o : Option Bytes) (u : Bytes)
      → is_current user smallest cutoff o u ≡ same o u
  unfolding same
  is_current-same smallest cutoff none u = refl
  is_current-same smallest cutoff (some k) u =
      ap is_eq (order.flip k u) ∙ flipped (user.compare k u)
    where
      flipped : (o : Ordering) → is_eq (reverse_order o) ≡ is_eq o
      flipped Ordering.lt = refl
      flipped Ordering.eq = refl
      flipped Ordering.gt = refl

  -- The current key does not lie behind the entries to come.
  abbrev pub Reached : Option Bytes → List Entry → Type 0
  Reached none es = Unit
  Reached (some k) es = NotBelow user sequence k es

  unfoldable pub NotAbove : Option Bytes → Bytes → Type 0
  NotAbove none u = Unit
  NotAbove (some k) u = user.compare k u ≢ Ordering.gt

  -- The current key of the next round.
  abbrev pub next_key : Option Bytes → Bytes → Option Bytes
  next_key current u = if same current u then current else some u

  pub next_key-same :
      (current : Option Bytes) (u v : Bytes) → same (next_key current u) v ≡ same (some u) v
  unfolding same
  next_key-same none u v = refl
  next_key-same (some k) u v = by_case (same (some k) u) refl
    where
      by_case :
          (c : Bool) → same (some k) u ≡ c → same (if c then some k else some u) v ≡ same (some u) v
      by_case true e = same-eq k u v e
      by_case false e = refl

  -- A key behind that is not the new current one was not the old one either.
  pub other-key :
      (current : Option Bytes) (u v : Bytes)
      → NotAbove current u
      → user.compare u v ≢ Ordering.gt
      → same (some u) v ≡ false
      → same current v ≡ false
  unfolding same NotAbove
  other-key none u v le le' e = refl
  other-key (some k) u v le le' e = by_case (same (some k) u) refl
    where
      by_case : (c : Bool) → same (some k) u ≡ c → same (some k) v ≡ false
      by_case true d = same-eq k u v d ∙ e
      by_case false d = same-greater k u v le le' d

  pub new-key :
      (current : Option Bytes) (u v : Bytes)
      → NotAbove current u
      → user.compare u v ≢ Ordering.gt
      → same current u ≡ false
      → same current v ≡ false
  unfolding same NotAbove
  new-key none u v le le' e = refl
  new-key (some k) u v le le' e = same-greater k u v le le' e

  pub same-current :
      (current : Option Bytes) (u v : Bytes)
      → same current u ≡ true
      → same current v ≡ same (some u) v
  unfolding same
  same-current none u v e = cc
  same-current (some k) u v e = same-eq k u v e
