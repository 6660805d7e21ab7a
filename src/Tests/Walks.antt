-- ===== src/Tests/Walks.antt =====
-- Examples about the grid, the walk over it, and one cell.
use ppl_me.Common.{ℕ, suc, ◌≡◌, refl, Bool, List, [], ◌∷◌, arith, count, ltb}
use ppl_me.Common.Int.{ℤ, pos, negsuc}
use ppl_me.Core.{Person, geo_position, is_valid_position}
use ppl_me.Pplme.Grid.{CellLocator, to_cell_locator, locator_eq}
use ppl_me.Pplme.Grid.Place.{IsPlace, to_cell_locator-IsPlace}
use ppl_me.Pplme.Sqiral.{sqiral}
use ppl_me.Pplme.Sqiral.Ends.{Ended, sqiral_cells, sqiral-Ended}
use ppl_me.Pplme.Sqiral.Places.{place, sqiral_visits_places}
use ppl_me.Pplme.Cells.{search_range}
use ppl_me.Pplme.Cells.Order.{IsSorted, search_range-select}
use ppl_me.Tests.Platform.{dates, dates_laws, uuids, Uuid, floats, floats_laws}

abbrev born_on : ℕ → Person Uuid ℕ ℤ
born_on d = record {
  id = record { value = uuids.of_octets (1 ∷ []) };
  name = "Ford";
  date_of_birth = d;
  location_of_home = geo_position (pos 52) (negsuc 0);
}

abbrev few : List (Person Uuid ℕ ℤ)
few = born_on 20 ∷ born_on 30 ∷ born_on 30 ∷ born_on 40 ∷ []

few-IsSorted : IsSorted dates dates_laws few
few-IsSorted = (
  (omega arith, (omega arith, (omega arith, tt))),
  ((omega arith, (omega arith, tt)), ((omega arith, tt), (tt, tt))),
)

-- A visitor that counts, and stops at the third cell.
abbrev third : CellLocator → ℕ → Bool × ℕ
third c n = (ltb 1 n, suc n)

sqiral-Ended_example :
    Ended third 2
      (place 2 142 359)
      (omega arith)
      (omega arith)
      (sqiral third 2 (place 2 142 359) 0)
      (sqiral_cells 2 (place 2 142 359))
      0
sqiral-Ended_example = sqiral-Ended third 2 (place 2 142 359) (omega arith) (omega arith) 0

sqiral_visits_places_example :
    count (locator_eq (place 2 0 3)) (sqiral_cells 2 (place 2 142 359)) ≡ 1
sqiral_visits_places_example =
    sqiral_visits_places 2 142 359 0 3 (omega arith) (omega arith) (omega arith) (omega arith)
      (omega arith)

search_range-select_example : search_range dates few 25 30 ≡ born_on 30 ∷ born_on 30 ∷ []
search_range-select_example = search_range-select dates dates_laws 25 30 few few-IsSorted

to_cell_locator-IsPlace_example :
    IsPlace 3 (to_cell_locator floats 3 (geo_position (negsuc 89) (pos 180)))
unfolding is_valid_position
to_cell_locator-IsPlace_example =
    to_cell_locator-IsPlace floats floats_laws 3 (geo_position (negsuc 89) (pos 180)) refl
