-- ===== src/MemTable/Order.antt =====
-- The order of the entries of a memtable (db/memtable.cc).
use Prim.Native.Nat.{Ordering}
use pebblesdb.Common.{◌≡◌, ◌≢◌, refl, sym, ap, ◌∙◌, List, [], ◌∷◌, Bytes, All}
use pebblesdb.Comparator.{Comparator, IsOrder, reverse_order}
use pebblesdb.Dbformat.KeyOrder.{internal_compare-IsOrder}
use pebblesdb.MemTable.{MemTable, compare_entries, length_prefixed_slice}

module _ (user : Comparator) where
  abbrev pub NoneBelow : Bytes → List Bytes → Type 0
  NoneBelow e es = All (λ y. compare_entries user y e ≢ Ordering.lt) es

  -- No entry is below one in front of it.
  abbrev pub IsSorted : List Bytes → Type 0
  IsSorted [] = Unit
  IsSorted (e ∷ es) = NoneBelow e es × IsSorted es

  module _ (order : IsOrder user.compare) where
    pub entries-IsOrder : IsOrder (compare_entries user)
    unfolding compare_entries
    entries-IsOrder =
        let inner = internal_compare-IsOrder user order in
        record {
          flip = λ a b. inner.flip (length_prefixed_slice a).0 (length_prefixed_slice b).0;
          eq_left = λ a b c.
              inner.eq_left (length_prefixed_slice a).0 (length_prefixed_slice b).0
                (length_prefixed_slice c).0;
          trans = λ a b c.
              inner.trans (length_prefixed_slice a).0 (length_prefixed_slice b).0
                (length_prefixed_slice c).0;
        }

    -- What is not below `e` is not below anything that `e` is not below.
    pub not_lt_trans :
        (y e x : Bytes)
        → compare_entries user y e ≢ Ordering.lt
        → compare_entries user e x ≢ Ordering.lt
        → compare_entries user y x ≢ Ordering.lt
    not_lt_trans y e x h h' below = by_case (compare_entries user y e) refl
      where
        by_case : (o : Ordering) → compare_entries user y e ≡ o → ⊥
        by_case Ordering.lt k = h k
        by_case Ordering.eq k = h' (sym (entries-IsOrder.eq_left y e x k) ∙ below)
        by_case Ordering.gt k =
            h' (entries-IsOrder.trans e y x (entries-IsOrder.flip y e ∙ ap reverse_order k) below)
