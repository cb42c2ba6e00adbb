-- ===== src/Snapshot/Released.antt =====
-- The ring after SnapshotList::Delete (db/snapshot.h).
use pebblesdb.Common.{
  ℕ, ◌≡◌, ◌≢◌, refl, sym, subst, ◌∙◌, ◌==◌, if◌then◌else◌, List, [], ◌∷◌, ◌++◌, All, arith,
}
use pebblesdb.Snapshot.{Nodes, delete}
use pebblesdb.Snapshot.Ring.{
  Live, Linked, IsOther, IsDistinct, last_of, first_of, last_of-other, first_of-other,
  Linked-agrees, Linked-around, All-front, All-behind, IsDistinct-middle,
}

module _ (nodes : Nodes) (s p q : ℕ) (before : (nodes s).prev ≡ p) (behind : (nodes s).next ≡ q)
    (s-p : s ≢ p) (s-q : s ≢ q) where
  delete-next : (x : ℕ) → (delete s nodes x).next ≡ (if x == p then q else (nodes x).next)
  unfolding delete
  delete-next x = ground (arith, before, behind, s-p, s-q)

  delete-prev : (x : ℕ) → (delete s nodes x).prev ≡ (if x == q then p else (nodes x).prev)
  unfolding delete
  delete-prev x = ground (arith, before, behind, s-p, s-q)

  unless : {A : Type 0} {x y : ℕ} (a b : A) → x ≢ y → (if x == y then a else b) ≡ b
  unless a b h = ground (arith, h)

  when : {A : Type 0} {x y : ℕ} (a b : A) → x ≡ y → (if x == y then a else b) ≡ a
  when a b h = ground (arith, h)

  -- Nodes behind the deleted one, apart from the one next to it.
  delete-agrees :
      (ss : List Live)
      → All (IsOther p) ss
      → All (IsOther q) ss
      → All
          (λ c.
            ((delete s nodes c.address).next ≡ (nodes c.address).next)
            × ((delete s nodes c.address).prev ≡ (nodes c.address).prev))
          ss
  delete-agrees [] ps qs = tt
  delete-agrees (c ∷ ss) ps qs = (
    (
      delete-next c.address ∙ unless _ _ (λ e. ps.0 (sym e)),
      delete-prev c.address ∙ unless _ _ (λ e. qs.0 (sym e)),
    ),
    delete-agrees ss ps.1 qs.1,
  )

  -- The part of the ring from the node in front of the deleted one on.
  delete-joins :
      (back : List Live)
      → first_of back ≡ q
      → All (IsOther p) back
      → All (IsOther 0) back
      → IsDistinct back
      → Linked nodes s back
      → Linked (delete s nodes) p back
  delete-joins [] e ps zs distinct linked =
      (delete-next p ∙ when {x = p} q (nodes p).next refl ∙ sym e, delete-prev 0 ∙ when _ _ e)
  delete-joins (t ∷ back) e ps zs distinct linked = (
    delete-next p ∙ when {x = p} q (nodes p).next refl ∙ sym e,
    delete-prev t.address ∙ when _ _ e,
    Linked-agrees nodes (delete s nodes) t.address back
        (delete-next t.address ∙ unless _ _ (λ d. ps.0 (sym d)))
        (delete-prev 0 ∙ unless _ _ (λ d. zs.0 (d ∙ sym e)))
        (delete-agrees back ps.1 (subst (λ x. All (IsOther x) back) e distinct.0)) linked.2,
  )

  delete-skips :
      (a : ℕ) (c : Live)
      → a ≢ p
      → c.address ≢ q
      → ((nodes a).next ≡ c.address) × ((nodes c.address).prev ≡ a)
      → ((delete s nodes a).next ≡ c.address) × ((delete s nodes c.address).prev ≡ a)
  delete-skips a c n m h =
      (delete-next a ∙ unless _ _ n ∙ h.0, delete-prev c.address ∙ unless _ _ m ∙ h.1)

module _ (nodes : Nodes) (t : Live) where
  Linked-delete_from :
      (p q a : ℕ) (front back : List Live)
      → p ≡ last_of a front
      → q ≡ first_of back
      → t.address ≢ p
      → t.address ≢ q
      → (nodes t.address).prev ≡ p
      → (nodes t.address).next ≡ q
      → All (IsOther a) (front ++ t ∷ back)
      → All (IsOther 0) (front ++ t ∷ back)
      → IsDistinct (front ++ t ∷ back)
      → Linked nodes a (front ++ t ∷ back)
      → Linked (delete t.address nodes) a (front ++ back)
  Linked-delete_from p q a [] back pe qe tp tq before behind apart low distinct linked =
      subst (λ x. Linked (delete t.address nodes) x back) pe
        (delete-joins nodes t.address p q before behind tp tq back (sym qe)
          (subst (λ x. All (IsOther x) back) (sym pe) apart.1) low.1 distinct.1 linked.2)
  Linked-delete_from p q a (c ∷ front) back pe qe tp tq before behind apart low distinct linked =
      let (next, prev) =
        delete-skips nodes t.address p q before behind tp tq a c
          (λ e.
            last_of-other a c.address front apart.0 (All-front (IsOther a) front (t ∷ back) apart.1)
              (e ∙ pe))
          (λ e.
            first_of-other c.address back (λ z. low.0 (sym z))
              (All-behind (IsOther c.address) front (t ∷ back) distinct.0).1 (e ∙ qe))
          (linked.0, linked.1) in
      (
        next,
        prev,
        Linked-delete_from p q c.address front back pe qe tp tq before behind distinct.0 low.1
            distinct.1 linked.2,
      )

  -- Without the deleted node the others keep their order.
  pub Linked-delete :
      (front back : List Live)
      → All (IsOther 0) (front ++ t ∷ back)
      → IsDistinct (front ++ t ∷ back)
      → Linked nodes 0 (front ++ t ∷ back)
      → Linked (delete t.address nodes) 0 (front ++ back)
  Linked-delete front back low distinct linked =
      let (before, behind) = Linked-around nodes 0 front t back linked in
      let away = IsDistinct-middle front t back distinct in
      let nonzero = (All-behind (IsOther 0) front (t ∷ back) low).0 in
      Linked-delete_from _ _ 0 front back refl refl
        (last_of-other t.address 0 front (λ z. nonzero (sym z)) away.0)
        (first_of-other t.address back (λ z. nonzero (sym z)) away.1) before behind low low distinct
        linked

pub delete-reads :
    (nodes : Nodes) (s : ℕ) (ss : List Live)
    → All (λ c. (nodes c.address).number ≡ c.sequence) ss
    → All (λ c. (delete s nodes c.address).number ≡ c.sequence) ss
unfolding delete
delete-reads nodes s [] h = tt
delete-reads nodes s (c ∷ ss) h = (h.0, delete-reads nodes s ss h.1)
