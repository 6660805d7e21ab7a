-- ===== src/Pplme/Cells.antt =====
-- A cell of the grid: a vector of persons in order of date of birth, with the insertion of
-- `AddPerson` and the search of `FindMatchingPpl` in one cell.
pub mod Order
use ppl_me.Common.{
  ℕ, zero, suc, ◌-◌, ◌^◌, Bool, ◌&&◌, Option, some, List, [], ◌∷◌, length, take, drop,
  if◌then◌else◌, check, ◌>>=◌, ◌>>◌,
}
use ppl_me.Common.Int.{ℤ, pos, negsuc, ◌+ℤ◌, ◌-ℤ◌, leb_ℤ}
use ppl_me.Core.{Person}
use ppl_me.Core.Outside.{DateOps}

abbrev pub PplCell : Type 0 → Type 0 → Type 0 → Type 0
PplCell U D F = List (Person U D F)

-- `int` of 32 bits: a sum out of range is undefined behaviour, a fault.
abbrev pub fits_int : ℤ → Bool
fits_int i = leb_ℤ (negsuc (2 ^ 31 - 1)) i && leb_ℤ i (pos (2 ^ 31 - 1))

unfoldable pub int_result : ℤ → Option ℤ
int_result i = do check (fits_int i); some i

-- vector::insert at an index
unfoldable pub insert_at : {A : Type 0} → List A → ℕ → A → List A
insert_at xs zero a = a ∷ xs
insert_at [] (suc i) a = a ∷ []
insert_at (x ∷ xs) (suc i) a = x ∷ insert_at xs i a

module _ {U D F : Type 0} (dt : DateOps D) where
  -- std::upper_bound on a sorted cell: the index of the first person born after `date`
  unfoldable pub upper_bound : PplCell U D F → D → ℕ
  upper_bound [] date = 0
  upper_bound (p ∷ ps) date =
      if dt.before date p.date_of_birth then 0 else suc (upper_bound ps date)

  -- std::lower_bound on a sorted cell: the index of the first person not born before `date`
  unfoldable pub lower_bound : PplCell U D F → D → ℕ
  lower_bound [] date = 0
  lower_bound (p ∷ ps) date =
      if dt.before p.date_of_birth date then suc (lower_bound ps date) else 0

  -- What `AddPerson` does to the person's cell.
  unfoldable pub insert_person : PplCell U D F → Person U D F → PplCell U D F
  unfolding upper_bound insert_at
  insert_person cell person = insert_at cell (upper_bound cell person.date_of_birth) person

  -- The loop from the lower bound: the persons until one was born after `latest`.
  unfoldable pub born_until : PplCell U D F → D → List (Person U D F)
  born_until [] latest = []
  born_until (p ∷ ps) latest =
      if dt.not_after p.date_of_birth latest then p ∷ born_until ps latest else []

  unfoldable pub search_range : PplCell U D F → D → D → List (Person U D F)
  unfolding lower_bound born_until
  search_range cell earliest latest = born_until (drop (lower_bound cell earliest) cell) latest

  -- FindMatchingPpl in one cell, for a user of the given age; `none` is an exception of boost's
  -- date arithmetic, or undefined behaviour of the int arithmetic.
  unfoldable pub find_in_cell :
      (today : D) (max_age_difference age_of_user : ℤ)
      → PplCell U D F
      → Option (List (Person U D F))
  unfolding search_range int_result
  find_in_cell today max_age_difference age_of_user cell = do
    most ← int_result (age_of_user +ℤ max_age_difference)
    earliest ← dt.minus_years today most
    least ← int_result (age_of_user -ℤ max_age_difference)
    latest ← dt.minus_years today least
    some (search_range cell earliest latest)
