-- ===== src/DbIter/Forward/Steps.antt =====
-- How the loop of FindNextUserEntry goes on after a round.
use pebblesdb.Common.{ℕ, ◌≡◌, ap, Bool, true, false, List, [], ◌∷◌}
use pebblesdb.Comparator.{Comparator}
use pebblesdb.DbIter.{DbIter, Entry, off, at, shown, passed, look, find_next_user_entry}

module _ (user : Comparator) (sequence : ℕ) where
  pub find_next_shown :
      (right : List Entry) (left : List Entry) (e : Entry) (skipping : Bool) (d : DbIter)
      → look user sequence e skipping d ≡ shown
      → find_next_user_entry user sequence left e right skipping d
        ≡ record d { iter = at left e right; valid = true; saved_key = [] }
  unfolding find_next_user_entry
  find_next_shown [] left e skipping d h =
      ap
        (λ l. elim l [
          | shown ↦ record d { iter = at left e []; valid = true; saved_key = [] }
          | passed skipping' d' ↦ record d' { iter = off; saved_key = []; valid = false }
        ])
        h
  find_next_shown (r ∷ right) left e skipping d h =
      ap
        (λ l. elim l [
          | shown ↦ record d { iter = at left e (r ∷ right); valid = true; saved_key = [] }
          | passed skipping' d' ↦ find_next_user_entry user sequence (e ∷ left) r right skipping' d'
        ])
        h

  pub find_next_last :
      (left : List Entry) (e : Entry) (skipping skipping' : Bool) (d d' : DbIter)
      → look user sequence e skipping d ≡ passed skipping' d'
      → find_next_user_entry user sequence left e [] skipping d
        ≡ record d' { iter = off; saved_key = []; valid = false }
  unfolding find_next_user_entry
  find_next_last left e skipping skipping' d d' h =
      ap
        (λ l. elim l [
          | shown ↦ record d { iter = at left e []; valid = true; saved_key = [] }
          | passed skipping' d' ↦ record d' { iter = off; saved_key = []; valid = false }
        ])
        h

  pub find_next_passed :
      (left : List Entry) (e r : Entry) (right : List Entry) (skipping skipping' : Bool)
      (d d' : DbIter)
      → look user sequence e skipping d ≡ passed skipping' d'
      → find_next_user_entry user sequence left e (r ∷ right) skipping d
        ≡ find_next_user_entry user sequence (e ∷ left) r right skipping' d'
  unfolding find_next_user_entry
  find_next_passed left e r right skipping skipping' d d' h =
      ap
        (λ l. elim l [
          | shown ↦ record d { iter = at left e (r ∷ right); valid = true; saved_key = [] }
          | passed skipping' d' ↦ find_next_user_entry user sequence (e ∷ left) r right skipping' d'
        ])
        h
