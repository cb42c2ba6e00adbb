-- ===== src/VersionEdit/RoundTrip/Sections.antt =====
-- The items of one section of an edit, applied one after the other.
use mathlib.Core.List.{foldl}
use pebblesdb.Common.{
  ℕ, zero, suc, ◌≡◌, refl, ap, ◌∙◌, Bool, true, false, List, [], ◌∷◌, ◌++◌, append_assoc,
  append-nil, map, Bytes, length, length-append, All, arith, if◌then◌else◌, replicate, sym, subst,
}
use pebblesdb.VersionEdit.{VersionEdit, GuardMetaData, InternalKey, push_back_at, set_insert}
use pebblesdb.VersionEdit.Items.{Item, comparator_item, when, row_items}
use pebblesdb.VersionEdit.RoundTrip.{stored_guard, apply}

-- The members of a set in its order.
abbrev pub IsAscending {ℓ} : {A : Type ℓ} → (A → A → Bool) → List A → Type ℓ
IsAscending before [] = Unit
IsAscending before (x ∷ xs) =
    All (λ y. (before x y ≡ true) × (before y x ≡ false)) xs × IsAscending before xs

-- Each guard stands in the row of its level, from level `k` on.
abbrev pub RowsAt : ℕ → List (List GuardMetaData) → Type 0
RowsAt k [] = Unit
RowsAt k (row ∷ rows) = All (λ g. g.level ≡ k) row × RowsAt (suc k) rows

abbrev pub append_rows {ℓ} : {A : Type ℓ} → List (List A) → List (List A) → List (List A)
append_rows [] rows = []
append_rows (s ∷ ss) [] = s ∷ ss
append_rows (s ∷ ss) (r ∷ rs) = (s ++ r) ∷ append_rows ss rs

module _ {ℓ} {A : Type ℓ} where
  -- A member behind all others is inserted at the end.
  set_insert_last :
      (before : A → A → Bool) (x : A) (xs : List A)
      → All (λ y. (before y x ≡ true) × (before x y ≡ false)) xs
      → set_insert before x xs ≡ xs ++ x ∷ []
  set_insert_last before x [] h = refl
  set_insert_last before x (y ∷ ys) ((after, not_before), h) =
      rw (not_before, after, set_insert_last before x ys h) refl

  All-later :
      (before : A → A → Bool) (xs ys : List A) (y : A)
      → IsAscending before (xs ++ y ∷ ys)
      → All (λ x. (before x y ≡ true) × (before y x ≡ false)) xs
  All-later before [] ys y h = tt
  All-later before (x ∷ xs) ys y h = (first xs h.0, All-later before xs ys y h.1)
    where
      first :
          (zs : List A)
          → All (λ z. (before x z ≡ true) × (before z x ≡ false)) (zs ++ y ∷ ys)
          → (before x y ≡ true) × (before y x ≡ false)
      first [] k = k.0
      first (z ∷ zs) k = first zs k.1

  pub foldl-set_insert :
      (before : A → A → Bool) (acc xs : List A)
      → IsAscending before (acc ++ xs)
      → foldl (λ s x. set_insert before x s) acc xs ≡ acc ++ xs
  foldl-set_insert before acc [] h = sym (append-nil acc)
  foldl-set_insert before acc (x ∷ xs) h =
      let at_end = set_insert_last before x acc (All-later before acc xs x h) in
      rw at_end (
        foldl-set_insert before (acc ++ x ∷ []) xs
          (subst (IsAscending before) (sym (append_assoc acc (x ∷ []) xs)) h)
        ∙ append_assoc acc (x ∷ []) xs)

  pub foldl-push_back :
      {B : Type ℓ} (f : A → B) (acc : List B) (xs : List A)
      → foldl (λ s x. s ++ f x ∷ []) acc xs ≡ acc ++ map f xs
  foldl-push_back f acc [] = sym (append-nil acc)
  foldl-push_back f acc (x ∷ xs) =
      foldl-push_back f (acc ++ f x ∷ []) xs ∙ append_assoc acc (f x ∷ []) (map f xs)

  pub foldl-snoc : (acc xs : List A) → foldl (λ s x. s ++ x ∷ []) acc xs ≡ acc ++ xs
  foldl-snoc acc [] = sym (append-nil acc)
  foldl-snoc acc (x ∷ xs) = foldl-snoc (acc ++ x ∷ []) xs ∙ append_assoc acc (x ∷ []) xs

  push_back_at-append :
      (before : List (List A)) (row : List A) (after : List (List A)) (x : A)
      → push_back_at (length before) x (before ++ row ∷ after) ≡ before ++ (row ++ x ∷ []) ∷ after
  push_back_at-append [] row after x = refl
  push_back_at-append (b ∷ before) row after x =
      ap (λ t. b ∷ t) (push_back_at-append before row after x)

  pub append_rows-replicate :
      (rows : List (List A)) (n : ℕ) → length rows ≡ n → append_rows (replicate n []) rows ≡ rows
  append_rows-replicate [] zero h = refl
  append_rows-replicate [] (suc n) h = absurd (omega arith)
  append_rows-replicate (r ∷ rs) zero h = absurd (omega arith)
  append_rows-replicate (r ∷ rs) (suc n) h =
      ap (λ t. r ∷ t) (append_rows-replicate rs n (omega arith))

abbrev pub add_guard_row : List (List GuardMetaData) → GuardMetaData → List (List GuardMetaData)
add_guard_row rows g = push_back_at g.level (stored_guard g) rows

add_guard_row-append :
    (before : List (List GuardMetaData)) (row : List GuardMetaData)
    (after : List (List GuardMetaData)) (g : GuardMetaData)
    → g.level ≡ length before
    → add_guard_row (before ++ row ∷ after) g ≡ before ++ (row ++ stored_guard g ∷ []) ∷ after
add_guard_row-append before row after g h =
    ap (λ n. push_back_at n (stored_guard g) (before ++ row ∷ after)) h
    ∙ push_back_at-append before row after (stored_guard g)

fold_row :
    (before : List (List GuardMetaData)) (row : List GuardMetaData)
    (after : List (List GuardMetaData)) (gs : List GuardMetaData)
    → All (λ g. g.level ≡ length before) gs
    → foldl add_guard_row (before ++ row ∷ after) gs
      ≡ before ++ (row ++ map stored_guard gs) ∷ after
fold_row before row after [] h = ap (λ r. before ++ r ∷ after) (sym (append-nil row))
fold_row before row after (g ∷ gs) h =
    ap (λ rows. foldl add_guard_row rows gs) (add_guard_row-append before row after g h.0)
    ∙ fold_row before (row ++ stored_guard g ∷ []) after gs h.1
    ∙ ap (λ t. before ++ t ∷ after) (append_assoc row (stored_guard g ∷ []) (map stored_guard gs))

module _ (key_before : InternalKey → InternalKey → Bool) where
  -- Items that all change one field, each by `add`.
  pub foldl-section {ℓ κ} :
      {A : Type ℓ} {F : Type κ} (item : A → Item) (set : F → VersionEdit) (add : F → A → F)
      → ((x : F) (a : A) → apply key_before (set x) (item a) ≡ set (add x a))
      → (x : F) (xs : List A)
      → foldl (apply key_before) (set x) (map item xs) ≡ set (foldl add x xs)
  foldl-section item set add each x [] = refl
  foldl-section item set add each x (a ∷ xs) =
      ap (λ e. foldl (apply key_before) e (map item xs)) (each x a)
      ∙ foldl-section item set add each (add x a) xs

  pub foldl-then :
      (e : VersionEdit) (xs ys : List Item) {e' e'' : VersionEdit}
      → foldl (apply key_before) e xs ≡ e'
      → foldl (apply key_before) e' ys ≡ e''
      → foldl (apply key_before) e (xs ++ ys) ≡ e''
  foldl-then e [] ys h h' = ap (λ e. foldl (apply key_before) e ys) h ∙ h'
  foldl-then e (x ∷ xs) ys h h' = foldl-then (apply key_before e x) xs ys h h'

  pub foldl-rows :
      (item : GuardMetaData → Item) (set : List (List GuardMetaData) → VersionEdit)
      → ((x : List (List GuardMetaData)) (g : GuardMetaData)
          → apply key_before (set x) (item g) ≡ set (add_guard_row x g))
      → (before starts rows : List (List GuardMetaData)) → length starts ≡ length rows
      → RowsAt (length before) rows
      → foldl (apply key_before) (set (before ++ starts)) (row_items item rows)
        ≡ set (before ++ append_rows starts (map (map stored_guard) rows))
  foldl-rows item set each before [] [] same at = refl
  foldl-rows item set each before [] (r ∷ rs) same at = absurd (omega arith)
  foldl-rows item set each before (s ∷ ss) [] same at = absurd (omega arith)
  foldl-rows item set each before (s ∷ ss) (r ∷ rs) same at =
      foldl-then _ (map item r) (row_items item rs)
        (foldl-section item set add_guard_row each (before ++ s ∷ ss) r
          ∙ ap set (fold_row before s ss r at.0))
        (ap (λ t. foldl (apply key_before) (set t) (row_items item rs)) (sym (snoc ss))
          ∙ foldl-rows item set each (before ++ (s ++ map stored_guard r) ∷ []) ss rs (omega arith)
              (subst (λ n. RowsAt n rs)
                (omega (arith, length-append before ((s ++ map stored_guard r) ∷ []))) at.1)
          ∙ ap set (snoc (append_rows ss (map (map stored_guard) rs))))
    where
      snoc :
          (t : List (List GuardMetaData))
          → (before ++ (s ++ map stored_guard r) ∷ []) ++ t
            ≡ before ++ (s ++ map stored_guard r) ∷ t
      snoc t = append_assoc before ((s ++ map stored_guard r) ∷ []) t

  pub when-comparator :
      (e : VersionEdit) (b : Bool) (name : Bytes)
      → foldl
          (apply key_before)
          (record e { comparator = []; has_comparator = false })
          (when b (comparator_item name))
        ≡ record e { comparator = if b then name else []; has_comparator = b }
  when-comparator e true name = refl
  when-comparator e false name = refl

  -- An optional number field, set on an edit without it.
  pub when-number :
      (item : ℕ → Item) (set : ℕ → Bool → VersionEdit)
      → ((n : ℕ) → apply key_before (set 0 false) (item n) ≡ set n true)
      → (b : Bool) (n : ℕ)
      → foldl (apply key_before) (set 0 false) (when b (item n)) ≡ set (if b then n else 0) b
  when-number item set each true n = each n
  when-number item set each false n = refl
