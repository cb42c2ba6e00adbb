-- ===== src/Comparator/Bytewise.antt =====
-- Slice::compare and the lexicographic order on unsigned bytes.
use Prim.Native.Nat.{compare, Ordering}
use pebblesdb.Common.{◌≡◌, refl, sym, ap, subst, ◌∙◌, [], ◌∷◌, Bytes, arith}
use pebblesdb.Comparator.{reverse_order, or_else, IsOrder, memcmp, slice_compare}

-- The lexicographic order, where a proper prefix comes first.
abbrev pub lexicographic : Bytes → Bytes → Ordering
lexicographic [] [] = Ordering.eq
lexicographic [] (b ∷ ys) = Ordering.lt
lexicographic (a ∷ xs) [] = Ordering.gt
lexicographic (a ∷ xs) (b ∷ ys) = or_else (compare a b) (lexicographic xs ys)

-- Slice::compare is the lexicographic order.
pub slice_compare-eq-lexicographic : (a b : Bytes) → slice_compare a b ≡ lexicographic a b
unfolding slice_compare memcmp
slice_compare-eq-lexicographic [] [] = refl
slice_compare-eq-lexicographic [] (b ∷ ys) = ground arith
slice_compare-eq-lexicographic (a ∷ xs) [] = ground arith
slice_compare-eq-lexicographic (a ∷ xs) (b ∷ ys) =
    ground (arith, slice_compare-eq-lexicographic xs ys)

lexicographic_flip : (a b : Bytes) → lexicographic b a ≡ reverse_order (lexicographic a b)
lexicographic_flip [] [] = refl
lexicographic_flip [] (b ∷ ys) = refl
lexicographic_flip (a ∷ xs) [] = refl
lexicographic_flip (a ∷ xs) (b ∷ ys) = ground (arith, lexicographic_flip xs ys)

-- Keys that compare equal are the same bytes.
pub eq-of-lexicographic : (a b : Bytes) → lexicographic a b ≡ Ordering.eq → a ≡ b
eq-of-lexicographic [] [] h = refl
eq-of-lexicographic [] (b ∷ ys) h = cc
eq-of-lexicographic (a ∷ xs) [] h = cc
eq-of-lexicographic (a ∷ xs) (b ∷ ys) h = ground (arith, eq-of-lexicographic xs ys)

pub lexicographic_irrefl : (a : Bytes) → lexicographic a a ≡ Ordering.eq
lexicographic_irrefl [] = refl
lexicographic_irrefl (a ∷ xs) = ground (arith, lexicographic_irrefl xs)

lexicographic_trans :
    (a b c : Bytes)
    → lexicographic a b ≡ Ordering.lt
    → lexicographic b c ≡ Ordering.lt
    → lexicographic a c ≡ Ordering.lt
lexicographic_trans [] [] c h k = cc
lexicographic_trans [] (b ∷ ys) [] h k = cc
lexicographic_trans [] (b ∷ ys) (c ∷ zs) h k = refl
lexicographic_trans (a ∷ xs) [] c h k = cc
lexicographic_trans (a ∷ xs) (b ∷ ys) [] h k = cc
lexicographic_trans (a ∷ xs) (b ∷ ys) (c ∷ zs) h k = ground (arith, lexicographic_trans xs ys zs)

lexicographic-IsOrder : IsOrder lexicographic
lexicographic-IsOrder = record {
  flip = lexicographic_flip;
  eq_left = λ a b c h. ap (λ t. lexicographic t c) (eq-of-lexicographic a b h);
  trans = lexicographic_trans;
}

-- Slice::compare is a total order on byte strings.
pub slice_compare-IsOrder : IsOrder slice_compare
slice_compare-IsOrder =
    subst IsOrder (λ i a b. sym (slice_compare-eq-lexicographic a b) i) lexicographic-IsOrder

pub eq-of-slice_compare : (a b : Bytes) → slice_compare a b ≡ Ordering.eq → a ≡ b
eq-of-slice_compare a b h = eq-of-lexicographic a b (sym (slice_compare-eq-lexicographic a b) ∙ h)
