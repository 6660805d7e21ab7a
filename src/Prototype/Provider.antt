-- ===== src/Prototype/Provider.antt =====
-- PrototypeMatchingPplProvider::Impl: its members, its constructor, AddPerson, and the search of
-- one cell, which also looks at the distance.
use ppl_me.Common.{
  ℕ, Bool, true, false, ◌&&◌, Option, some, List, [], ◌∷◌, drop, ltb, ◌==◌, if◌then◌else◌, check,
  ◌>>=◌, ◌>>◌,
}
use ppl_me.Common.Int.{ℤ, pos, ◌+ℤ◌, ◌-ℤ◌, ltb_ℤ, leb_ℤ}
use ppl_me.Core.{Person, PplMatchingParameters, GeoPosition}
use ppl_me.Core.Outside.{FloatOps, DateOps}
use ppl_me.Pplme.Cells.{PplCell, insert_person, lower_bound, int_result}
use ppl_me.Prototype.Distance.{MathOps, approx_distance}
use ppl_me.Prototype.Grid.{CellLocator, calculate_size_for_ppl_grid, to_cell_locator, get_ppl_index}

-- `has_workers` says that `workers_` holds a pool.
pub record Impl (U D F : Type 0) : Type 0 where
  pub resolution : ℕ
  pub max_distance : ℤ
  pub max_age_difference : ℤ
  pub grid_size : ℕ
  pub ppl : ℕ → PplCell U D F
  pub has_workers : Bool

-- The constructors of Impl and of the provider; `none` is a CHECK that fails.
unfoldable pub create :
    {U D F : Type 0} → (resolution : ℕ) (max_distance max_age_difference : ℤ) → Option (Impl U D F)
unfolding calculate_size_for_ppl_grid
create resolution max_distance max_age_difference = do
  grid_size ← calculate_size_for_ppl_grid resolution
  check (ltb_ℤ (pos 0) max_distance && ltb_ℤ max_distance (pos 1000))
  check (leb_ℤ (pos 0) max_age_difference)
  some (record {
    resolution = resolution;
    max_distance = max_distance;
    max_age_difference = max_age_difference;
    grid_size = grid_size;
    ppl = λ i. [];
    has_workers = false;
  })

-- Impl::Start
unfoldable pub start_workers : {U D F : Type 0} → Impl U D F → Impl U D F
start_workers m = record m { has_workers = true }

module _ {U D F : Type 0} (fl : FloatOps F) (mo : MathOps F) (dt : DateOps D) where
  -- ppl_[GetPplIndex(geopos)], as its index
  unfoldable pub get_ppl_index_of : Impl U D F → GeoPosition F → Option ℕ
  get_ppl_index_of m geopos = do
    cell ← to_cell_locator fl m.resolution geopos
    check (ltb (get_ppl_index cell) m.grid_size)
    some (get_ppl_index cell)

  unfoldable pub add_person : Impl U D F → Person U D F → Option (Impl U D F)
  unfolding get_ppl_index_of insert_person
  add_person m person = do
    i ← get_ppl_index_of m person.location_of_home
    some (record m { ppl = λ j. if j == i then insert_person dt (m.ppl i) person else m.ppl j })

  -- The loop from the lower bound: those near enough, until one was born after `latest`.
  unfoldable pub near_until : (Person U D F → Bool) → PplCell U D F → D → List (Person U D F)
  near_until is_near [] latest = []
  near_until is_near (p ∷ ps) latest =
      let rest = near_until is_near ps latest in
      if dt.not_after p.date_of_birth latest then (if is_near p then p ∷ rest else rest) else []

  -- ApproxDistance(location_of_user, location_of_home) <= max_distance_
  unfoldable pub is_near_enough : ℤ → GeoPosition F → Person U D F → Bool
  unfolding approx_distance
  is_near_enough max_distance user person =
      fl.leb (approx_distance fl mo user person.location_of_home) (fl.of_int max_distance)

  -- FindMatchingPpl in one cell
  unfoldable pub find_in_cell :
      Impl U D F
      → (today : D) → PplMatchingParameters F
      → PplCell U D F
      → Option (List (Person U D F))
  unfolding int_result lower_bound near_until
  find_in_cell m today parameters cell = do
    most ← int_result (parameters.age_of_user +ℤ m.max_age_difference)
    earliest ← dt.minus_years today most
    least ← int_result (parameters.age_of_user -ℤ m.max_age_difference)
    latest ← dt.minus_years today least
    some (
        near_until (is_near_enough m.max_distance parameters.location_of_user)
          (drop (lower_bound dt cell earliest) cell) latest)

  -- FindMatchingPpl in the cell at a locator
  unfoldable pub find_at :
      Impl U D F
      → (today : D) → PplMatchingParameters F
      → CellLocator
      → Option (List (Person U D F))
  unfolding find_in_cell
  find_at m today parameters cell = do
    check (ltb (get_ppl_index cell) m.grid_size)
    find_in_cell m today parameters (m.ppl (get_ppl_index cell))
