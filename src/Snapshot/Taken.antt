-- ===== src/Snapshot/Taken.antt =====
-- The ring after SnapshotList::New (db/snapshot.h).
use pebblesdb.Common.{ℕ, ◌≡◌, ◌≢◌, sym, ◌∙◌, ◌==◌, if◌then◌else◌, List, [], ◌∷◌, ◌++◌, All, arith}
use pebblesdb.Snapshot.{Nodes, new}
use pebblesdb.Snapshot.Ring.{Live, Linked, IsOther, IsDistinct, last_of-other, Linked-last}

module _ (nodes : Nodes) (s seq : ℕ) (nonzero : s ≢ 0) (other : s ≢ (nodes 0).prev) where
  -- What New writes, with p for the newest snapshot before.
  new-next :
      (p : ℕ)
      → p ≡ (nodes 0).prev
      → (x : ℕ)
      → (new s seq nodes x).next ≡ (if x == p then s else if x == s then 0 else (nodes x).next)
  unfolding new
  new-next p e x = ground (arith, e, nonzero, other)

  new-prev :
      (p : ℕ)
      → p ≡ (nodes 0).prev
      → (x : ℕ)
      → (new s seq nodes x).prev ≡ (if x == 0 then s else if x == s then p else (nodes x).prev)
  unfolding new
  new-prev p e x = ground (arith, e, nonzero, other)

  new-number : (x : ℕ) → x ≢ s → (new s seq nodes x).number ≡ (nodes x).number
  unfolding new
  new-number x h = ground (arith, h)

  new-own : (new s seq nodes s).number ≡ seq
  unfolding new
  new-own = ground (arith, nonzero, other)

  unless : {A : Type 0} {x y : ℕ} (a b : A) → x ≢ y → (if x == y then a else b) ≡ b
  unless a b h = ground (arith, h)

  when : {A : Type 0} (x : ℕ) (a b : A) → (if x == x then a else b) ≡ a
  when x a b = ground arith

  -- The new node comes last.
  pub Linked-new :
      (a : ℕ) (ss : List Live)
      → a ≢ s
      → All (IsOther s) ss
      → All (IsOther 0) ss
      → All (IsOther a) ss
      → IsDistinct ss
      → Linked nodes a ss
      → Linked (new s seq nodes) a (ss ++ record { address = s; sequence = seq } ∷ [])
  Linked-new a [] h fresh low apart distinct linked = (
    new-next a (sym linked.1) a ∙ when a s _,
    new-prev a (sym linked.1) s ∙ unless _ _ nonzero ∙ when s a _,
    (
      new-next a (sym linked.1) s ∙ unless _ _ (λ e. h (sym e)) ∙ when s 0 (nodes s).next,
      new-prev a (sym linked.1) 0 ∙ when 0 s (if 0 == s then a else (nodes 0).prev),
    ),
  )
  Linked-new a (c ∷ ss) h fresh low apart distinct linked =
      let p = sym (Linked-last nodes c.address ss linked.2) in
      (
        new-next _ p a
            ∙ unless _ _ (last_of-other a c.address ss apart.0 apart.1)
            ∙ unless _ _ h
            ∙ linked.0,
        new-prev _ p c.address
            ∙ unless _ _ (λ e. low.0 (sym e))
            ∙ unless _ _ (λ e. fresh.0 (sym e))
            ∙ linked.1,
        Linked-new c.address ss (λ e. fresh.0 (sym e)) fresh.1 low.1 distinct.0 distinct.1 linked.2,
      )

  pub new-reads :
      (ss : List Live)
      → All (IsOther s) ss
      → All (λ c. (nodes c.address).number ≡ c.sequence) ss
      → All
          (λ c. (new s seq nodes c.address).number ≡ c.sequence)
          (ss ++ record { address = s; sequence = seq } ∷ [])
  new-reads [] fresh all = (new-own, tt)
  new-reads (c ∷ ss) fresh all =
      (new-number c.address (λ e. fresh.0 (sym e)) ∙ all.0, new-reads ss fresh.1 all.1)
