-- ===== src/Snapshot/History.antt =====
-- The snapshots that a history of GetSnapshot and ReleaseSnapshot leaves (db/snapshot.h, db/db_impl.cc).
use pebblesdb.Common.{
  ℕ, ◌≤◌, ◌≡◌, ◌≢◌, refl, sym, ap, subst, ◌∙◌, ◌==◌, if◌then◌else◌, List, [], ◌∷◌, ◌++◌, All,
  All-append, arith,
}
use pebblesdb.Snapshot.{Nodes, new_snapshots, get_snapshot, release_snapshot, smallest_snapshot}
use pebblesdb.Snapshot.Ring.{
  Live, Linked, IsOther, IsDistinct, last_of-other, Linked-last, All-without, IsDistinct-without,
  IsDistinct-added,
}
use pebblesdb.Snapshot.Taken.{Linked-new, new-reads}
use pebblesdb.Snapshot.Released.{Linked-delete, delete-reads}

-- What can happen: the last sequence number grows, a snapshot is taken at an address that no node has, and
-- a snapshot is released, once.
pub data History : Nodes → ℕ → List Live → Type 0 where
  opened : (last : ℕ) → History new_snapshots last []
  written :
      {nodes : Nodes} {last : ℕ} {ss : List Live} (last' : ℕ)
      → last ≤ last'
      → History nodes last ss
      → History nodes last' ss
  taken :
      {nodes : Nodes} {last : ℕ} {ss : List Live} (s : ℕ)
      → s ≢ 0
      → All (IsOther s) ss
      → History nodes last ss
      → History
          (get_snapshot s last nodes)
          last
          (ss ++ record { address = s; sequence = last } ∷ [])
  released :
      {nodes : Nodes} {last : ℕ} (front : List Live) (s : Live) (back : List Live)
      → History nodes last (front ++ s ∷ back)
      → History (release_snapshot s.address nodes) last (front ++ back)

-- The nodes read what was taken, in the order of the ring, and the sequence numbers do not decrease.
abbrev pub Reads : Nodes → List Live → Type 0
Reads nodes ss = All (λ s. (nodes s.address).number ≡ s.sequence) ss

abbrev IsRising : List Live → Type 0
IsRising [] = Unit
IsRising (s ∷ ss) = All (λ c. s.sequence ≤ c.sequence) ss × IsRising ss

abbrev IsBelow : ℕ → List Live → Type 0
IsBelow last ss = All (λ c. c.sequence ≤ last) ss

abbrev IsRing : Nodes → ℕ → List Live → Type 0
IsRing nodes last ss =
    Linked nodes 0 ss
    × All (IsOther 0) ss
    × IsDistinct ss
    × Reads nodes ss
    × IsRising ss
    × IsBelow last ss

All-weak : (P Q : Live → Type 0) → ((s : Live) → P s → Q s) → (ss : List Live) → All P ss → All Q ss
All-weak P Q f [] h = tt
All-weak P Q f (s ∷ ss) h = (f s h.0, All-weak P Q f ss h.1)

IsRising-added :
    (ss : List Live) (t : Live) → IsRising ss → IsBelow t.sequence ss → IsRising (ss ++ t ∷ [])
IsRising-added [] t h low = (tt, tt)
IsRising-added (s ∷ ss) t h low = (
  All-append (λ c. s.sequence ≤ c.sequence) ss (t ∷ []) h.0 (low.0, tt),
  IsRising-added ss t h.1 low.1,
)

IsRising-without :
    (xs : List Live) (t : Live) (ys : List Live) → IsRising (xs ++ t ∷ ys) → IsRising (xs ++ ys)
IsRising-without [] t ys h = h.1
IsRising-without (x ∷ xs) t ys h =
    (All-without (λ c. x.sequence ≤ c.sequence) xs t ys h.0, IsRising-without xs t ys h.1)

IsRing-taken :
    (nodes : Nodes) (last : ℕ) (ss : List Live) (s : ℕ)
    → s ≢ 0
    → All (IsOther s) ss
    → IsRing nodes last ss
    → IsRing (get_snapshot s last nodes) last (ss ++ record { address = s; sequence = last } ∷ [])
IsRing-taken nodes last ss s nonzero fresh (linked, low, distinct, reads, rising, below) =
    let other : s ≢ (nodes 0).prev =
      λ e. last_of-other s 0 ss nonzero fresh (e ∙ Linked-last nodes 0 ss linked) in
    let t : Live = record { address = s; sequence = last } in
    (
      Linked-new nodes s last nonzero other 0 ss (λ e. nonzero (sym e)) fresh low low distinct
          linked,
      All-append (IsOther 0) ss (t ∷ []) low ((λ e. nonzero (sym e)), tt),
      IsDistinct-added ss t fresh distinct,
      new-reads nodes s last nonzero other ss fresh reads,
      IsRising-added ss t rising below,
      All-append (λ c. c.sequence ≤ last) ss (t ∷ []) below (omega arith, tt),
    )

History-IsRing :
    {nodes : Nodes} {last : ℕ} {ss : List Live} → History nodes last ss → IsRing nodes last ss
History-IsRing (opened last) = ((refl, refl), tt, tt, tt, tt, tt)
History-IsRing (written last' le h) =
    let (linked, low, distinct, reads, rising, below) = History-IsRing h in
    (linked, low, distinct, reads, rising, All-weak _ _ (λ s d. omega (arith, d, le)) _ below)
History-IsRing (taken s nonzero fresh h) = IsRing-taken _ _ _ s nonzero fresh (History-IsRing h)
History-IsRing (released front s back h) =
    let (linked, low, distinct, reads, rising, below) = History-IsRing h in
    (
      Linked-delete _ s front back low distinct linked,
      All-without _ front s back low,
      IsDistinct-without front s back distinct,
      delete-reads _ s.address (front ++ back) (All-without _ front s back reads),
      IsRising-without front s back rising,
      All-without _ front s back below,
    )

-- The sequence number of the oldest snapshot, or else the last one.
abbrev pub oldest_of : ℕ → List Live → ℕ
oldest_of last [] = last
oldest_of last (s ∷ ss) = s.sequence

smallest_snapshot-oldest :
    (nodes : Nodes) (last : ℕ) (ss : List Live)
    → IsRing nodes last ss
    → smallest_snapshot last nodes ≡ oldest_of last ss
unfolding smallest_snapshot
smallest_snapshot-oldest nodes last [] (linked, low, distinct, reads, rising, below) =
    ap (λ x. if x == 0 then last else (nodes x).number) linked.0
smallest_snapshot-oldest nodes last (s ∷ ss) (linked, low, distinct, reads, rising, below) =
    ap (λ x. if x == 0 then last else (nodes x).number) linked.0
    ∙ not_list s.address (λ e. low.0 (sym e))
    ∙ reads.0
  where
    not_list : (x : ℕ) → x ≢ 0 → (if x == 0 then last else (nodes x).number) ≡ (nodes x).number
    not_list x h = ground (arith, h)

oldest_of-low :
    (last : ℕ) (ss : List Live) → IsRising ss → All (λ s. oldest_of last ss ≤ s.sequence) ss
oldest_of-low last [] rising = tt
oldest_of-low last (s ∷ ss) rising = (omega arith, rising.0)

-- After any history of snapshots taken at the last sequence number and of snapshots released once, in
-- any order, where a new node has an address that no live one has: every live snapshot reads the sequence
-- number it was taken at, and a compaction goes by that of the oldest live one, or else by the last
-- sequence number, which is not above that of any live snapshot.
pub smallest_snapshot-oldest_of :
    (nodes : Nodes) (last : ℕ) (ss : List Live)
    → History nodes last ss
    → Reads nodes ss
      × (smallest_snapshot last nodes ≡ oldest_of last ss)
      × All (λ s. smallest_snapshot last nodes ≤ s.sequence) ss
      × (smallest_snapshot last nodes ≤ last)
smallest_snapshot-oldest_of nodes last ss h =
    let (linked, low, distinct, reads, rising, below) = History-IsRing h in
    let e = smallest_snapshot-oldest nodes last ss (History-IsRing h) in
    (
      reads,
      e,
      subst (λ n. All (λ s. n ≤ s.sequence) ss) (sym e) (oldest_of-low last ss rising),
      subst (λ n. n ≤ last) (sym e) (oldest_low last ss below),
    )
  where
    oldest_low : (last : ℕ) (ss : List Live) → IsBelow last ss → oldest_of last ss ≤ last
    oldest_low last [] b = omega arith
    oldest_low last (s ∷ ss) b = b.0
