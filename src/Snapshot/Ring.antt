-- ===== src/Snapshot/Ring.antt =====
-- The ring of the nodes of a list of snapshots (db/snapshot.h).
use pebblesdb.Common.{ℕ, ◌≡◌, ◌≢◌, sym, ◌∙◌, List, [], ◌∷◌, ◌++◌, All, All-append}
use pebblesdb.Snapshot.{Nodes}

-- A snapshot that was not released: its address, and the sequence number it was taken at.
pub record Live : Type 0 where
  pub address : ℕ
  pub sequence : ℕ

-- The nodes behind `a`, and after the last of them list_.
abbrev pub Linked : Nodes → ℕ → List Live → Type 0
Linked nodes a [] = ((nodes a).next ≡ 0) × ((nodes 0).prev ≡ a)
Linked nodes a (s ∷ ss) =
    ((nodes a).next ≡ s.address) × ((nodes s.address).prev ≡ a) × Linked nodes s.address ss

abbrev pub IsOther : ℕ → Live → Type 0
IsOther a s = a ≢ s.address

abbrev pub IsDistinct : List Live → Type 0
IsDistinct [] = Unit
IsDistinct (s ∷ ss) = All (IsOther s.address) ss × IsDistinct ss

abbrev pub last_of : ℕ → List Live → ℕ
last_of a [] = a
last_of a (s ∷ ss) = last_of s.address ss

abbrev pub first_of : List Live → ℕ
first_of [] = 0
first_of (s ∷ ss) = s.address

pub last_of-other : (b a : ℕ) (ss : List Live) → b ≢ a → All (IsOther b) ss → b ≢ last_of a ss
last_of-other b a [] h all = h
last_of-other b a (s ∷ ss) h all = last_of-other b s.address ss all.0 all.1

pub first_of-other : (b : ℕ) (ss : List Live) → b ≢ 0 → All (IsOther b) ss → b ≢ first_of ss
first_of-other b [] h all = h
first_of-other b (s ∷ ss) h all = all.0

pub Linked-last :
    (nodes : Nodes) (a : ℕ) (ss : List Live) → Linked nodes a ss → (nodes 0).prev ≡ last_of a ss
Linked-last nodes a [] h = h.1
Linked-last nodes a (s ∷ ss) h = Linked-last nodes s.address ss h.2

pub Linked-around :
    (nodes : Nodes) (a : ℕ) (front : List Live) (s : Live) (back : List Live)
    → Linked nodes a (front ++ s ∷ back)
    → ((nodes s.address).prev ≡ last_of a front) × ((nodes s.address).next ≡ first_of back)
Linked-around nodes a [] s [] h = (h.1, h.2.0)
Linked-around nodes a [] s (t ∷ back) h = (h.1, h.2.0)
Linked-around nodes a (c ∷ front) s back h = Linked-around nodes c.address front s back h.2

-- What a memory agrees on with another one is linked in it too.
pub Linked-agrees :
    (nodes nodes' : Nodes) (a : ℕ) (ss : List Live)
    → (nodes' a).next ≡ (nodes a).next
    → (nodes' 0).prev ≡ (nodes 0).prev
    → All
        (λ s.
          ((nodes' s.address).next ≡ (nodes s.address).next)
          × ((nodes' s.address).prev ≡ (nodes s.address).prev))
        ss
    → Linked nodes a ss
    → Linked nodes' a ss
Linked-agrees nodes nodes' a [] n p all h = (n ∙ h.0, p ∙ h.1)
Linked-agrees nodes nodes' a (s ∷ ss) n p all h =
    (n ∙ h.0, all.0.1 ∙ h.1, Linked-agrees nodes nodes' s.address ss all.0.0 p all.1 h.2)

pub All-front : (P : Live → Type 0) (xs ys : List Live) → All P (xs ++ ys) → All P xs
All-front P [] ys h = tt
All-front P (x ∷ xs) ys h = (h.0, All-front P xs ys h.1)

pub All-behind : (P : Live → Type 0) (xs ys : List Live) → All P (xs ++ ys) → All P ys
All-behind P [] ys h = h
All-behind P (x ∷ xs) ys h = All-behind P xs ys h.1

pub All-without :
    (P : Live → Type 0) (xs : List Live) (t : Live) (ys : List Live)
    → All P (xs ++ t ∷ ys)
    → All P (xs ++ ys)
All-without P [] t ys h = h.1
All-without P (x ∷ xs) t ys h = (h.0, All-without P xs t ys h.1)

pub IsDistinct-middle :
    (xs : List Live) (t : Live) (ys : List Live)
    → IsDistinct (xs ++ t ∷ ys)
    → All (IsOther t.address) xs × All (IsOther t.address) ys
IsDistinct-middle [] t ys h = (tt, h.0)
IsDistinct-middle (x ∷ xs) t ys h =
    let (front, back) = IsDistinct-middle xs t ys h.1 in
    (((λ e. (All-behind (IsOther x.address) xs (t ∷ ys) h.0).0 (sym e)), front), back)

pub IsDistinct-without :
    (xs : List Live) (t : Live) (ys : List Live) → IsDistinct (xs ++ t ∷ ys) → IsDistinct (xs ++ ys)
IsDistinct-without [] t ys h = h.1
IsDistinct-without (x ∷ xs) t ys h =
    (All-without (IsOther x.address) xs t ys h.0, IsDistinct-without xs t ys h.1)

pub IsDistinct-added :
    (xs : List Live) (t : Live)
    → All (IsOther t.address) xs
    → IsDistinct xs
    → IsDistinct (xs ++ t ∷ [])
IsDistinct-added [] t fresh h = (tt, tt)
IsDistinct-added (x ∷ xs) t fresh h = (
  All-append (IsOther x.address) xs (t ∷ []) h.0 ((λ e. fresh.0 (sym e)), tt),
  IsDistinct-added xs t fresh.1 h.1,
)
