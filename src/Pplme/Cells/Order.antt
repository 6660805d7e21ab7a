-- ===== src/Pplme/Cells/Order.antt =====
-- A cell stays sorted by date of birth, and then its search finds what a filter would.
use ppl_me.Common.{
  ℕ, suc, ◌+◌, ◌≤◌, ◌≡◌, refl, ap, ◌∙◌, Bool, true, false, not, ◌&&◌, [], ◌∷◌, select, count, All,
  one_if, arith, Bool-cases, inl, inr, some,
}
use ppl_me.Common.Int.{ℤ, ◌+ℤ◌, ◌-ℤ◌}
use ppl_me.Core.{Person}
use ppl_me.Core.Outside.{DateOps, DateLaws}
use ppl_me.Pplme.Cells.{PplCell, fits_int, insert_person, born_until, search_range, find_in_cell}

module _ {D : Type 0} (dt : DateOps D) (laws : DateLaws D dt) where
  before_lt : (a b : D) → dt.before a b ≡ true → laws.day_number a ≤ laws.day_number b
  before_lt a b e = ground (arith, laws.before_iff a b)

  before_ge : (a b : D) → dt.before a b ≡ false → laws.day_number b ≤ laws.day_number a
  before_ge a b e = ground (arith, laws.before_iff a b)

module _ {U D F : Type 0} (dt : DateOps D) (laws : DateLaws D dt) where
  abbrev pub born : Person U D F → ℕ
  born p = laws.day_number p.date_of_birth

  -- In order of date of birth.
  abbrev pub IsSorted : PplCell U D F → Type 0
  IsSorted [] = Unit {0}
  IsSorted (p ∷ ps) = All (λ q. born p ≤ born q) ps × IsSorted ps

  -- Born in the range, both ends included.
  abbrev pub is_born_within : D → D → Person U D F → Bool
  is_born_within earliest latest p =
      not (dt.before p.date_of_birth earliest) && dt.not_after p.date_of_birth latest

  All-insert :
      (n : ℕ) (cell : PplCell U D F) (p : Person U D F)
      → n ≤ born p
      → All (λ q. n ≤ born q) cell
      → All (λ q. n ≤ born q) (insert_person dt cell p)
  unfolding insert_person
  All-insert n [] p h a = (h, tt)
  All-insert n (q ∷ qs) p h a = ground (arith, All-insert n qs p h a.1)

  All-mono :
      (m n : ℕ) (cell : PplCell U D F)
      → m ≤ n
      → All (λ q. n ≤ born q) cell
      → All (λ q. m ≤ born q) cell
  All-mono m n [] h a = tt
  All-mono m n (q ∷ qs) h a = (omega arith, All-mono m n qs h a.1)

  -- Inserting a person at the upper bound keeps a sorted cell sorted.
  pub insert_person-IsSorted :
      (cell : PplCell U D F) (p : Person U D F) → IsSorted cell → IsSorted (insert_person dt cell p)
  unfolding insert_person
  insert_person-IsSorted [] p s = (tt, tt)
  insert_person-IsSorted (q ∷ qs) p s =
      elim (Bool-cases (dt.before p.date_of_birth q.date_of_birth)) [
        | inl e ↦ rw e (
          (before_lt dt laws _ _ e, All-mono (born p) (born q) qs (before_lt dt laws _ _ e) s.0),
          s,
        )
        | inr e ↦ rw e (
          All-insert (born q) qs p (before_ge dt laws _ _ e) s.0,
          insert_person-IsSorted qs p s.1,
        )
      ]

  pub count-insert_person :
      (t : Person U D F → Bool) (cell : PplCell U D F) (p : Person U D F)
      → count t (insert_person dt cell p) ≡ one_if (t p) + count t cell
  unfolding insert_person
  count-insert_person t [] p = refl
  count-insert_person t (q ∷ qs) p = ground (arith, count-insert_person t qs p)

  module _ (earliest latest : D) where
    select_late :
        (n : ℕ) (cell : PplCell U D F)
        → laws.day_number latest ≤ n
        → suc (laws.day_number latest) ≤ n
        → All (λ q. n ≤ born q) cell
        → select (is_born_within earliest latest) cell ≡ []
    select_late n [] h k a = refl
    select_late n (q ∷ qs) h k a =
        ground (arith, laws.not_after_iff q.date_of_birth latest, select_late n qs h k a.1)

    born_until-select :
        (cell : PplCell U D F)
        → IsSorted cell
        → All (λ q. laws.day_number earliest ≤ born q) cell
        → born_until dt cell latest ≡ select (is_born_within earliest latest) cell
    unfolding born_until
    born_until-select [] s a = refl
    born_until-select (q ∷ qs) s a = ground (
      arith,
      laws.not_after_iff q.date_of_birth latest,
      laws.before_iff q.date_of_birth earliest,
      born_until-select qs s.1 a.1,
      select_late (born q) qs,
    )

    search_range_first :
        (q : Person U D F) (qs : PplCell U D F)
        → dt.before q.date_of_birth earliest ≡ false
        → search_range dt (q ∷ qs) earliest latest ≡ born_until dt (q ∷ qs) latest
    unfolding search_range
    search_range_first q qs e = rw e

    -- In a cell sorted by date of birth, the search from the lower bound up to the last date
    -- finds just the persons born between the two dates, both included, in their order.
    pub search_range-select :
        (cell : PplCell U D F)
        → IsSorted cell
        → search_range dt cell earliest latest ≡ select (is_born_within earliest latest) cell
    unfolding search_range
    search_range-select [] s = unfold born_until in refl
    search_range-select (q ∷ qs) s = elim (Bool-cases (dt.before q.date_of_birth earliest)) [
      | inl e ↦ rw e (search_range-select qs s.1)
      | inr e ↦
          search_range_first q qs e
          ∙ (born_until-select (q ∷ qs) s
              (before_ge dt laws _ _ e, All-mono _ (born q) qs (before_ge dt laws _ _ e) s.0))
    ]

  -- FindMatchingPpl in a sorted cell: whoever was born between the two dates, both included.
  pub find_in_cell-select :
      (today earliest latest : D) (max_age_difference age_of_user : ℤ) (cell : PplCell U D F)
      → IsSorted cell
      → fits_int (age_of_user +ℤ max_age_difference) ≡ true
      → fits_int (age_of_user -ℤ max_age_difference) ≡ true
      → dt.minus_years today (age_of_user +ℤ max_age_difference) ≡ some earliest
      → dt.minus_years today (age_of_user -ℤ max_age_difference) ≡ some latest
      → find_in_cell dt today max_age_difference age_of_user cell
        ≡ some (select (is_born_within earliest latest) cell)
  unfolding find_in_cell
  find_in_cell-select today earliest latest diff age cell s fits fits' e l =
      rw (fits, e, fits', l) (ap some (search_range-select earliest latest cell s))
