-- ===== src/Prototype/Matching.antt =====
-- FindMatchingPpl of the prototype from end to end: the user's own cell, the cells nearby, and
-- the worklettes that search them.
pub mod Answer
use native.Mathlib.Nat.{mul-le-mul_right}
use ppl_me.Common.{
  ℕ, suc, ◌+◌, ◌-◌, ◌*◌, ◌^◌, ◌<◌, ◌≤◌, ◌≡◌, refl, ap, sym, subst, ◌∙◌, Bool, true, false, not,
  ◌&&◌, Option, some, none, List, [], ◌∷◌, All, All-map, arith, ltb, lt→ltb, leb, select, count,
  drop, if◌then◌else◌, ◌>>=◌, ◌>>◌, ◌||◌, check, Bool-cases, inl, inr,
}
use ppl_me.Common.Int.{ℤ, ◌+ℤ◌, ◌-ℤ◌}
use ppl_me.Core.{Person, PplMatchingParameters, GeoPosition, is_valid_position}
use ppl_me.Core.Outside.{FloatOps, FloatLaws, DateOps, DateLaws}
use ppl_me.Pplme.Grid.Place.{degrees_found}
use ppl_me.Pplme.Cells.{PplCell, fits_int, search_range, lower_bound, born_until}
use ppl_me.Pplme.Cells.Order.{IsSorted, is_born_within, search_range-select, insert_person-IsSorted}
use ppl_me.Prototype.Distance.{MathOps}
use ppl_me.Prototype.Grid.{
  CellLocator, locator, calculate_size_for_ppl_grid, get_ppl_index, to_cell_locator,
  is_too_far_north, is_too_far_south, is_too_far_east, is_too_far_west,
}
use ppl_me.Prototype.Nearby.{get_nearby_cells}
use ppl_me.Prototype.Walks.{IsNear, get_nearby_cells-IsNear}
use ppl_me.Prototype.Provider.{
  Impl, find_in_cell, find_at, near_until, is_near_enough, get_ppl_index_of, create, add_person,
}
use ppl_me.Prototype.Find.{Search, begin}

abbrev pub are_none : List CellLocator → Bool
are_none [] = true
are_none (c ∷ cs) = false

module _ {U D F : Type 0} (fl : FloatOps F) (mo : MathOps F) (dt : DateOps D) where
  -- GetNearbyCells of a position in the cell `bullseye`; each loop has 360 * resolution + 2 rounds.
  unfoldable pub nearby_cells_of :
      Impl U D F → GeoPosition F → CellLocator → Option (List CellLocator)
  nearby_cells_of m origin bullseye =
      get_nearby_cells m.resolution
        (is_too_far_north fl mo m.resolution m.max_distance origin bullseye)
        (is_too_far_south fl mo m.resolution m.max_distance origin bullseye)
        (is_too_far_east fl mo m.resolution m.max_distance origin bullseye)
        (is_too_far_west fl mo m.resolution m.max_distance origin bullseye) (360 * m.resolution + 2)
        bullseye

  -- FindMatchingPpl up to its loop over the nearby cells, which needs `workers_` for each.
  unfoldable pub find_matching_ppl :
      Impl U D F
      → (today : D) → PplMatchingParameters F
      → Option (Search CellLocator (Person U D F))
  unfolding nearby_cells_of get_ppl_index_of
  find_matching_ppl m today parameters = do
    i ← get_ppl_index_of fl mo dt m parameters.location_of_user
    own ← find_in_cell fl mo dt m today parameters (m.ppl i)
    bullseye ← to_cell_locator fl m.resolution parameters.location_of_user
    cells ← nearby_cells_of m parameters.location_of_user bullseye
    check (m.has_workers || are_none cells)
    some (begin (find_at fl mo dt m today parameters) own cells)

-- A cell in the grid has its place in the vector.
pub get_ppl_index-lt-size :
    (res size : ℕ) (c : CellLocator)
    → 1 ≤ res
    → calculate_size_for_ppl_grid res ≡ some size
    → c.latitude_index ≤ 180 * res
    → c.longitude_index ≤ 360 * res
    → get_ppl_index c < size
unfolding calculate_size_for_ppl_grid get_ppl_index
get_ppl_index-lt-size res size c p e row col =
    ground (arith, mul-le-mul_right {m = 1} {n = res} res p)

-- In the prototype's grid, each cell with a longitude index of 360 or more, in any row but the
-- northernmost, has the same place in the vector as a cell of the next row.
pub get_ppl_index-collides :
    (res : ℕ) (c : CellLocator)
    → c.latitude_index < 180 * res
    → 360 ≤ c.longitude_index
    → c.longitude_index ≤ 360 * res
    → (d : CellLocator) × (d.latitude_index ≤ 180 * res)
      × (d.longitude_index ≤ 360 * res)
      × (d.latitude_index ≡ suc c.latitude_index)
      × (get_ppl_index d ≡ get_ppl_index c)
unfolding get_ppl_index
get_ppl_index-collides res c row far col = (
  locator (suc c.latitude_index) (c.longitude_index - 360),
  omega arith,
  omega arith,
  refl,
  omega arith,
)
